-- ===== src/Backend/Segments.antt =====
-- What is written to the segments keeps the shared state sound.
use rt_mbms_mw.Prelude.{ℕ, ◌≤◌, List, Option, none, some, arith, length, length-set, get_elem?}
use rt_mbms_mw.Prelude.Result.{WhenOk}
use rt_mbms_mw.Backend.{Backend, answered_at, segment_answered}
use rt_mbms_mw.Backend.Sound.{IsSound, CacheIn-Grows, streams-le}
use rt_mbms_mw.Cdn.{CdnFile}
use rt_mbms_mw.Flute.{Flute}
use rt_mbms_mw.Segment.{Segment, segment_fetched}

module _ {F D : Type 0} where
  -- The segments may be replaced by as many.
  pub with_segments-IsSound :
      (b : Backend F D) (segments : List (Segment F D))
      → length b.segments ≤ length segments
      → IsSound b
      → IsSound (record b { segments = segments })
  with_segments-IsSound b segments le h = record {
    cache_in =
        CacheIn-Grows (record { segments = le; streams = omega arith; services = omega arith })
          h.cache_in;
    streams_in = streams-le b.streams le h.streams_in;
    services_in = h.services_in;
    registry_sorted = h.registry_sorted;
    registered = h.registered;
  }

  module _ ⦃flute : Flute F⦄ (now place : ℕ) (file : CdnFile) where
    answered_at-IsSound :
        (o : Option (Segment F D)) (b : Backend F D)
        → IsSound b
        → WhenOk IsSound (answered_at now place file o b)
    unfolding answered_at
    answered_at-IsSound none b h = tt
    answered_at-IsSound (some s) b h =
        with_segments-IsSound b _
          (omega (arith, length-set b.segments place (segment_fetched now file s))) h

    pub segment_answered-IsSound :
        (b : Backend F D) → IsSound b → WhenOk IsSound (segment_answered now place file b)
    unfolding segment_answered
    segment_answered-IsSound b h = answered_at-IsSound (get_elem? b.segments place) b h
