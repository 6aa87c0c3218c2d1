-- ===== src/Segment.antt =====
-- src/seamless/Segment.cpp and src/seamless/Segment.h, and src/ItemSource.h.
pub mod Laws
pub mod Order
pub mod Tests
use rt_mbms_mw.Prelude.{ℕ, ◌%◌, ◌^◌, Bool, true, false, Option, none, some, if◌then◌else◌}
use rt_mbms_mw.Prelude.Int.{ℤ}
use rt_mbms_mw.Prelude.Key.{Bytes}
use rt_mbms_mw.Cdn.{Http, CdnFile, CdnClient, cdn_get, cdn_file_length}
use rt_mbms_mw.Flute.{Flute}

pub data ItemSource : Type 0 where
  broadcast cdn generated unavailable : ItemSource

pub record Segment (F D : Type 0) : Type 0 where
  pub content_location : Bytes
  pub cdn_client : Option CdnClient
  pub flute_file : Option F
  pub cdn_file : Option CdnFile
  pub seq : ℤ
  pub extinf : D
  pub content_received_at : ℕ

-- The constructor.
abbrev pub segment_init : {F D : Type 0} → Bytes → ℤ → D → Segment F D
segment_init content_location seq extinf = record {
  content_location = content_location;
  cdn_client = none;
  flute_file = none;
  cdn_file = none;
  seq = seq;
  extinf = extinf;
  content_received_at = 0;
}

abbrev pub set_cdn_client : {F D : Type 0} → CdnClient → Segment F D → Segment F D
set_cdn_client client s = record s { cdn_client = some client }

-- `_flute_file && _flute_file->complete()`
complete_file : {F : Type 0} ⦃flute : Flute F⦄ → Option F → Option F
complete_file none = none
complete_file ⦃flute⦄ (some file) = if flute.complete file then some file else none

module _ {F D : Type 0} ⦃flute : Flute F⦄ where
  unfoldable pub set_flute_file : F → Segment F D → Segment F D
  set_flute_file file s = record s {
    flute_file = some file;
    content_received_at = flute.received_at file;
  }

  -- The completion callback of `fetch_from_cdn`, at the time `now` at which it runs.
  unfoldable pub segment_fetched : ℕ → CdnFile → Segment F D → Segment F D
  segment_fetched now file s = record s { content_received_at = now; cdn_file = some file }

  -- With the callback run before the return.
  unfoldable pub fetch_from_cdn : Http → ℕ → Segment F D → Segment F D
  unfolding segment_fetched
  fetch_from_cdn http now s = elim s.cdn_client [
    | none ↦ s
    | some client ↦ elim (cdn_get http client s.content_location) [
      | none ↦ s
      | some file ↦ segment_fetched now file s
    ]
  ]

  -- `buffer`: the bytes, or `nullptr`, and the segment afterwards.
  unfoldable pub segment_buffer : Http → ℕ → Segment F D → Option Bytes × Segment F D
  unfolding complete_file
  segment_buffer http now s = elim (complete_file s.flute_file) [
    | some file ↦ (some (flute.buffer file), s)
    | none ↦ elim s.cdn_file [
      | some file ↦ (some file.buffer, s)
      | none ↦ (none, fetch_from_cdn http now s)
    ]
  ]

  unfoldable pub segment_content_length : Segment F D → ℕ
  unfolding complete_file
  segment_content_length s = elim (complete_file s.flute_file) [
    | some file ↦ flute.length file % 2 ^ 32
    | none ↦ elim s.cdn_file [ some file ↦ cdn_file_length file | none ↦ 0 ]
  ]

  unfoldable pub data_source : Segment F D → ItemSource
  unfolding complete_file
  data_source s = elim (complete_file s.flute_file) [
    | some file ↦ broadcast
    | none ↦ elim s.cdn_file [ some file ↦ cdn | none ↦ unavailable ]
  ]
