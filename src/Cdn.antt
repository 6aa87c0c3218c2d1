-- ===== src/Cdn.antt =====
-- src/seamless/CdnClient.cpp and src/seamless/CdnFile.cpp. The HTTP library is a parameter: what it
-- answers to a request is an argument.
use rt_mbms_mw.Prelude.{ℕ, ◌%◌, ◌^◌, Option, none, some, if◌then◌else◌, ◌==◌, length}
use rt_mbms_mw.Prelude.Key.{Bytes}

-- The outcome of a request.
pub data HttpResult : Type 0 where
  response : ℕ → Bytes → HttpResult
  http_exception : HttpResult

-- A request to a base URL, for a path.
abbrev pub Http : Type 0
Http = Bytes → Bytes → HttpResult

pub record CdnFile : Type 0 where
  pub buffer : Bytes
  pub size : ℕ

-- `CdnFile::length` narrows the `size_t` to 32 bits.
abbrev pub cdn_file_length : CdnFile → ℕ
cdn_file_length f = f.size % 2 ^ 32

pub record CdnClient : Type 0 where
  pub base_url : Bytes

-- `get`: the file that the completion callback is called with, if it is called.
unfoldable pub cdn_get : Http → CdnClient → Bytes → Option CdnFile
cdn_get http client path = elim (http client.base_url path) [
  | response status body ↦
      if status == 200 then some (record { buffer = body; size = length body }) else none
  | http_exception ↦ none
]
