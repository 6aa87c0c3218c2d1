-- ===== src/Backend.antt =====
-- The state that the parts share: the members of src/Middleware.h, and the objects that they lead to.
pub mod Sound
pub mod Lifetime
pub mod Segments
pub mod Streams
pub mod Services
pub mod Adding
use rt_mbms_mw.Prelude.{ℕ, List, Option, none, some, set, get_elem?}
use rt_mbms_mw.Prelude.Float.{Float}
use rt_mbms_mw.Prelude.Int.{ℤ}
use rt_mbms_mw.Prelude.Key.{Bytes}
use rt_mbms_mw.Prelude.Result.{Result, ok, terminate, Result_map}
use rt_mbms_mw.Announcement.{ServiceAnnouncement}
use rt_mbms_mw.Cache.{CacheManagement}
use rt_mbms_mw.Cdn.{Http, CdnFile}
use rt_mbms_mw.Flute.{Flute}
use rt_mbms_mw.Seamless.{
  SeamlessContentStream, StreamState, seamless_file_received, seamless_tick, fetched,
}
use rt_mbms_mw.Segment.{Segment, segment_fetched}
use rt_mbms_mw.Service.{Service, AnyStream, basic, seamless}
use rt_mbms_mw.Stream.{flute_file_received}

-- A segment, a stream or a service is shared, and is named by its place.
pub record Backend (F D : Type 0) : Type 0 where
  pub cache : CacheManagement F
  pub segments : List (Segment F D)
  pub streams : List (AnyStream F D)
  pub services : List (Service D)
  -- `_services`, by service id
  pub registry : List (Bytes × ℕ)
  pub announcement : Option ServiceAnnouncement

module _ {F D : Type 0} where
  -- What a seamless stream works on, and the state behind its work.
  abbrev pub stream_state : SeamlessContentStream F D → Backend F D → StreamState F D
  stream_state s b = record { stream = s; heap = b.segments; cache = b.cache }

  abbrev pub store_state : ℕ → Backend F D → StreamState F D → Backend F D
  store_state place b v = record b {
    streams = set b.streams place (seamless v.stream);
    segments = v.heap;
    cache = v.cache;
  }

  module _ ⦃flute : Flute F⦄ ⦃float : Float D⦄ where
    received_by : ℤ → ℕ → F → Option (AnyStream F D) → Backend F D → Result (Backend F D)
    received_by garbage place file none b = terminate
    received_by garbage place file (some (basic s)) b =
        ok (record b { cache = flute_file_received file s b.cache })
    received_by garbage place file (some (seamless s)) b =
        Result_map (store_state place b) (seamless_file_received garbage file (stream_state s b))

    -- The callback for a file that the stream at `place` has received.
    unfoldable pub stream_received : ℤ → ℕ → F → Backend F D → Result (Backend F D)
    unfolding received_by
    stream_received garbage place file b =
        received_by garbage place file (get_elem? b.streams place) b

    ticked_by : Http → ℤ → ℕ → Option (AnyStream F D) → Backend F D → Result (Backend F D)
    ticked_by http garbage place none b = terminate
    ticked_by http garbage place (some (basic s)) b = ok b
    ticked_by http garbage place (some (seamless s)) b =
        Result_map (store_state place b) (seamless_tick http garbage (stream_state s b))

    -- The timer of the stream at `place`, if it has one.
    unfoldable pub stream_ticked : Http → ℤ → ℕ → Backend F D → Result (Backend F D)
    unfolding ticked_by
    stream_ticked http garbage place b = ticked_by http garbage place (get_elem? b.streams place) b

    fetched_by : ℤ → ℕ → CdnFile → Option (AnyStream F D) → Backend F D → Result (Backend F D)
    fetched_by garbage place file none b = terminate
    fetched_by garbage place file (some (basic s)) b = terminate
    fetched_by garbage place file (some (seamless s)) b =
        Result_map (store_state place b) (fetched garbage (some file) (stream_state s b))

    -- The completion callback of that timer, when it runs behind the return: the CDN has answered
    -- the stream at `place` with the file.
    unfoldable pub stream_fetched : ℤ → ℕ → CdnFile → Backend F D → Result (Backend F D)
    unfolding fetched_by
    stream_fetched garbage place file b =
        fetched_by garbage place file (get_elem? b.streams place) b

  module _ ⦃flute : Flute F⦄ where
    answered_at : ℕ → ℕ → CdnFile → Option (Segment F D) → Backend F D → Result (Backend F D)
    answered_at now place file none b = terminate
    answered_at now place file (some s) b =
        ok (record b { segments = set b.segments place (segment_fetched now file s) })

    -- The completion callback of a fetch, when it runs behind the return: the CDN has answered the
    -- segment at `place` with the file.
    unfoldable pub segment_answered : ℕ → ℕ → CdnFile → Backend F D → Result (Backend F D)
    unfolding answered_at
    segment_answered now place file b = answered_at now place file (get_elem? b.segments place) b
