-- ===== src/Rest.antt =====
-- src/RestHandler.cpp and src/RestHandler.h. The HTTP library is a parameter: a request holds what it
-- makes of the message.
pub mod Rows
pub mod Laws
pub mod Sound
pub mod Listed
pub mod Delivered
pub mod Announced
pub mod Polled
pub mod Unicast
pub mod Scenario
pub mod Remote
pub mod Tests
use rt_mbms_mw.Backend.Lifetime.{item_held, all_held}
use rt_mbms_mw.Backend.{Backend}
use rt_mbms_mw.Seamless.{erase_first}
use rt_mbms_mw.Prelude.{
  ℕ, ◌+◌, ◌-◌, ◌%◌, ◌^◌, Bool, true, false, not, ◌&&◌, List, [], ◌∷◌, ◌++◌, map, Option, none, some,
  if◌then◌else◌, ◌==◌, get_elem?, set, take,
}
use rt_mbms_mw.Prelude.Key.{Bytes, bytes_key, equal}
use rt_mbms_mw.Prelude.Map.{find}
use rt_mbms_mw.Prelude.Result.{Result, ok, terminate}
use rt_mbms_mw.Prelude.Text.{codes}
use rt_mbms_mw.Prelude.Int.{ℤ}
use rt_mbms_mw.Announcement.{Item, ServiceAnnouncement}
use rt_mbms_mw.Cache.{
  CacheItem, CacheManagement, Callback, stream_playlist, service_manifest, Heap, lookup_value,
  content_location, received_at, content_length, item_source, source_string, age_of,
}
use rt_mbms_mw.Cdn.{Http}
use rt_mbms_mw.Flute.{Flute}
use rt_mbms_mw.Segment.{Segment, segment_buffer}
use rt_mbms_mw.Service.{Service, AnyStream, basic, seamless, content_stream}
use rt_mbms_mw.Stream.{ContentStream, DeliveryProtocol, hls, dash, rtp, flute_info}
use Rows.{ItemRow, FileRow, ServiceRow, item_rows, service_rows, file_row, heap_of, callback_text}

-- `paths` is the decoded path, split; a missing header `Authorization` reads as an empty text.
pub record Request : Type 0 where
  pub relative_uri : Bytes
  pub paths : List Bytes
  pub authorization : Bytes

pub record RestHandler : Type 0 where
  pub require_bearer_token : Bool
  pub api_key : Bytes
  pub api_path : Bytes

-- The constructor, from `mw.http_server.api_key.enabled`, `mw.http_server.api_key.key` and
-- `mw.http_server.api_path`.
unfoldable pub rest_init : Option Bool → Option Bytes → Option Bytes → RestHandler
rest_init enabled key path =
    let required = lookup_value enabled false in
    record {
      require_bearer_token = required;
      api_key =
          if required then lookup_value key (codes "106cd60-76c8-4c37-944c-df21aa690c1e") else [];
      api_path = lookup_value path (codes "mw-api");
    }

-- An answer; `no_reply` is a message that is not answered.
pub data Reply (D : Type 0) : Type 0 where
  unauthorized not_found no_reply : Reply D
  announcement_reply : ℕ → Bytes → List ItemRow → Reply D
  files_reply : List FileRow → Reply D
  services_reply : List (ServiceRow D) → Reply D
  -- the header `RT-MBMS-MW-File-Origin`, and the body
  file_reply : Bytes → Bytes → Reply D

unfoldable pub is_authorized : RestHandler → Request → Bool
is_authorized r m =
    not (r.require_bearer_token && not (equal m.authorization (codes "Bearer " ++ r.api_key)))

module _ {F D : Type 0} ⦃flute : Flute F⦄ where
  -- `CacheItem::buffer`: the bytes, or a null pointer, and the objects afterwards.
  unfoldable pub item_buffer : Http → ℕ → CacheItem F → Backend F D → Option Bytes × Backend F D
  item_buffer http now (CacheItem.file _ _ f) b = (some (flute.buffer f), b)
  item_buffer http now (CacheItem.segment _ _ r) b = elim (get_elem? b.segments r) [
    | none ↦ (none, b)
    | some s ↦
        let called = segment_buffer http now s in
        (called.0, record b { segments = set b.segments r called.1 })
  ]
  item_buffer http now (CacheItem.playlist _ _ cb) b = (some (callback_text b cb), b)
  item_buffer http now (CacheItem.manifest _ _ cb) b = (some (callback_text b cb), b)

  unfoldable pub body_reply :
      CacheItem F → Backend F D → Option Bytes × Backend F D → Reply D × Backend F D
  body_reply i tested (none, read) = (not_found, read)
  body_reply i tested (some bytes, read) =
      let h = heap_of tested in
      (file_reply (source_string (item_source h i)) (take (content_length h i) bytes), read)

  unfoldable pub tested_reply :
      Http → ℕ → CacheItem F → Option Bytes × Backend F D → Reply D × Backend F D
  unfolding body_reply
  tested_reply http now i (none, b) = (not_found, b)
  tested_reply http now i (some bytes, b) = body_reply i b (item_buffer http now i b)

  -- The buffer is asked for twice, for the test and for the body.
  unfoldable pub serve_item : Http → ℕ → CacheItem F → Backend F D → Reply D × Backend F D
  unfolding tested_reply
  serve_item http now i b = tested_reply http now i (item_buffer http now i b)

  -- A closure whose object is destroyed reads freed memory.
  unfoldable pub serve_file : Http → ℕ → Bytes → Backend F D → Result (Reply D × Backend F D)
  unfolding serve_item
  serve_file http now path b = elim (find path b.cache.cache_items) [
    | none ↦ ok (not_found, b)
    | some i ↦ if item_held b i then ok (serve_item http now i b) else terminate
  ]

  api_reply : ℕ → Bytes → Backend F D → Reply D
  unfolding file_row service_rows
  api_reply now what b =
      if equal what (codes "service_announcement")
      then elim b.announcement [
        | none ↦ not_found
        | some a ↦ announcement_reply a.toi a.raw_content (item_rows a.items)
      ]
      else if equal what (codes "files")
      then files_reply (map (λ e. file_row b now e.1) b.cache.cache_items)
      else if equal what (codes "services")
      then services_reply (service_rows b b.registry)
      else not_found

  -- The second part of the path is read without a test; `terminate` stands for a read out of bounds.
  -- The list of the files calls the closures of the cache.
  get_api : ℕ → List Bytes → Backend F D → Result (Reply D × Backend F D)
  unfolding api_reply
  get_api now [] b = terminate
  get_api now (what ∷ paths) b =
      if equal what (codes "files") && not (all_held b)
      then terminate
      else ok (api_reply now what b, b)

  get_paths :
      RestHandler → Http → ℕ → Request → List Bytes → Backend F D → Result (Reply D × Backend F D)
  unfolding get_api serve_file
  get_paths r http now m [] b = ok (not_found, b)
  get_paths r http now m (p ∷ paths) b =
      if equal p r.api_path
      then get_api now paths b
      else serve_file http now (erase_first m.relative_uri) b

  -- `get` at the time `now`
  unfoldable pub rest_get :
      RestHandler → Http → ℕ → Request → Backend F D → Result (Reply D × Backend F D)
  unfolding get_paths is_authorized
  rest_get r http now m b =
      if is_authorized r m then get_paths r http now m m.paths b else ok (unauthorized, b)

-- `put`
unfoldable pub rest_put : {D : Type 0} → RestHandler → Request → Reply D
unfolding is_authorized
rest_put r m =
    if not (is_authorized r m)
    then unauthorized
    else elim m.paths [ [] ↦ not_found | p ∷ paths ↦ no_reply ]
