-- ===== src/Backend/Streams.antt =====
-- The files that streams receive, and their timers, keep the shared state sound.
use rt_mbms_mw.Prelude.{
  ℕ, ◌≤◌, Option, none, some, ◌≡◌, refl, inl, inr, arith, All-set, All-get_elem?, length,
  length-set, get_elem?, Option-cases, ap,
}
use rt_mbms_mw.Prelude.Float.{Float}
use rt_mbms_mw.Prelude.Int.{ℤ}
use rt_mbms_mw.Prelude.Result.{Result, ok, Result_map, WhenOk, WhenOk-map, WhenOk-all, WhenOk-eq}
use rt_mbms_mw.Backend.{
  Backend, stream_state, store_state, received_by, stream_received, ticked_by, stream_ticked,
  fetched_by, stream_fetched,
}
use rt_mbms_mw.Backend.Sound.{
  Room, CacheIn, StreamIn, room, IsSound, CacheIn-Grows, streams-le, services-le,
}
use rt_mbms_mw.Cache.{CacheManagement}
use rt_mbms_mw.Cdn.{Http, CdnFile}
use rt_mbms_mw.Flute.{Flute}
use rt_mbms_mw.Seamless.{StreamState, SeamlessContentStream, seamless_tick}
use rt_mbms_mw.Seamless.Sound.{
  StateIn, CacheIn-add, file_received-StateIn, tick-StateIn, fetched-StateIn,
}
use rt_mbms_mw.Seamless.Late.{file_received-le, tick-le, fetched-le}
use rt_mbms_mw.Service.{AnyStream, basic, seamless}
use rt_mbms_mw.Stream.{ContentStream, cached_location, flute_file_received}

module _ {F D : Type 0} where
  -- As many streams, services and segments, or more segments.
  abbrev StateOf : Backend F D → StreamState F D → Type 0
  StateOf b v = StateIn (length b.streams) (length b.services) v

  pub stream_state-StateIn :
      (b : Backend F D) (place : ℕ) (s : SeamlessContentStream F D)
      → get_elem? b.streams place ≡ some (seamless s)
      → IsSound b
      → StateOf b (stream_state s b)
  stream_state-StateIn b place s e h = record {
    cache_in = h.cache_in;
    places = All-get_elem? (StreamIn (length b.segments)) b.streams place h.streams_in e;
  }

  -- What a seamless stream has written may be taken over.
  pub store_state-IsSound :
      (b : Backend F D) (place : ℕ) (v : StreamState F D)
      → length b.segments ≤ length v.heap
      → StateOf b v
      → IsSound b
      → IsSound (store_state place b v)
  store_state-IsSound b place v le w h =
      let same = length-set b.streams place (seamless v.stream) in
      record {
        cache_in =
            CacheIn-Grows
              (record {
                segments = omega arith;
                streams = omega (arith, same);
                services = omega arith;
              })
              w.cache_in;
        streams_in =
            All-set (StreamIn (length v.heap)) b.streams place (seamless v.stream) w.places
              (streams-le b.streams le h.streams_in);
        services_in = services-le b.services (omega (arith, same)) h.services_in;
        registry_sorted = h.registry_sorted;
        registered = h.registered;
      }

  pub with_cache-IsSound :
      (b : Backend F D) (c : CacheManagement F)
      → CacheIn (room b) c
      → IsSound b
      → IsSound (record b { cache = c })
  with_cache-IsSound b c k h = record {
    cache_in = k;
    streams_in = h.streams_in;
    services_in = h.services_in;
    registry_sorted = h.registry_sorted;
    registered = h.registered;
  }

  module _ ⦃flute : Flute F⦄ where
    flute_file_received-CacheIn :
        (r : Room) (file : F) (s : ContentStream D) (c : CacheManagement F)
        → CacheIn r c
        → CacheIn r (flute_file_received file s c)
    unfolding flute_file_received
    flute_file_received-CacheIn r file s c h =
        elim (Option-cases (cached_location s (flute.content_location file))) [
          | inl absent ↦ rw (absent, flute_file_received) h
          | inr (l, present) ↦ rw (present, flute_file_received) (CacheIn-add r _ c tt h)
        ]

    module _ ⦃float : Float D⦄ where
      -- The call of a seamless stream may be taken over.
      taken_over :
          (b : Backend F D) (place : ℕ) (s : SeamlessContentStream F D)
          (r : Result (StreamState F D))
          → ((v : StreamState F D) → r ≡ ok v → length b.segments ≤ length v.heap)
          → WhenOk (StateOf b) r
          → IsSound b
          → WhenOk IsSound (Result_map (store_state place b) r)
      taken_over b place s r le w h =
          WhenOk-map IsSound (store_state place b) r
            (WhenOk-all _ r λ v e. store_state-IsSound b place v (le v e) (WhenOk-eq _ r w e) h)

      received_by-IsSound :
          (garbage : ℤ) (place : ℕ) (file : F) (o : Option (AnyStream F D)) (b : Backend F D)
          → get_elem? b.streams place ≡ o
          → IsSound b
          → WhenOk IsSound (received_by garbage place file o b)
      unfolding received_by
      received_by-IsSound garbage place file none b e h = tt
      received_by-IsSound garbage place file (some (basic s)) b e h =
          with_cache-IsSound b _ (flute_file_received-CacheIn (room b) file s b.cache h.cache_in) h
      received_by-IsSound garbage place file (some (seamless s)) b e h =
          taken_over b place s _ (file_received-le garbage file (stream_state s b))
            (file_received-StateIn (length b.streams) (length b.services) garbage file
              (stream_state s b) (stream_state-StateIn b place s e h))
            h

      pub stream_received-IsSound :
          (garbage : ℤ) (place : ℕ) (file : F) (b : Backend F D)
          → IsSound b
          → WhenOk IsSound (stream_received garbage place file b)
      unfolding stream_received
      stream_received-IsSound garbage place file b h =
          received_by-IsSound garbage place file (get_elem? b.streams place) b refl h

      ticked_by-IsSound :
          (http : Http) (garbage : ℤ) (place : ℕ) (o : Option (AnyStream F D)) (b : Backend F D)
          → get_elem? b.streams place ≡ o
          → IsSound b
          → WhenOk IsSound (ticked_by http garbage place o b)
      unfolding ticked_by
      ticked_by-IsSound http garbage place none b e h = tt
      ticked_by-IsSound http garbage place (some (basic s)) b e h = h
      ticked_by-IsSound http garbage place (some (seamless s)) b e h =
          taken_over b place s _ (tick-le http garbage (stream_state s b))
            (tick-StateIn (length b.streams) (length b.services) http garbage (stream_state s b)
              (stream_state-StateIn b place s e h))
            h

      pub stream_ticked-IsSound :
          (http : Http) (garbage : ℤ) (place : ℕ) (b : Backend F D)
          → IsSound b
          → WhenOk IsSound (stream_ticked http garbage place b)
      unfolding stream_ticked
      stream_ticked-IsSound http garbage place b h =
          ticked_by-IsSound http garbage place (get_elem? b.streams place) b refl h

      fetched_by-IsSound :
          (garbage : ℤ) (place : ℕ) (file : CdnFile) (o : Option (AnyStream F D)) (b : Backend F D)
          → get_elem? b.streams place ≡ o
          → IsSound b
          → WhenOk IsSound (fetched_by garbage place file o b)
      unfolding fetched_by
      fetched_by-IsSound garbage place file none b e h = tt
      fetched_by-IsSound garbage place file (some (basic s)) b e h = tt
      fetched_by-IsSound garbage place file (some (seamless s)) b e h =
          taken_over b place s _ (fetched-le garbage (some file) (stream_state s b))
            (fetched-StateIn (length b.streams) (length b.services) garbage (some file)
              (stream_state s b) (stream_state-StateIn b place s e h))
            h

      pub stream_fetched-IsSound :
          (garbage : ℤ) (place : ℕ) (file : CdnFile) (b : Backend F D)
          → IsSound b
          → WhenOk IsSound (stream_fetched garbage place file b)
      unfolding stream_fetched
      stream_fetched-IsSound garbage place file b h =
          fetched_by-IsSound garbage place file (get_elem? b.streams place) b refl h

module _ {F D : Type 0} ⦃flute : Flute F⦄ ⦃float : Float D⦄ where
  -- What a tick of a seamless stream comes back with is stored.
  pub stream_ticked-stored :
      (http : Http) (garbage : ℤ) (place : ℕ) (s : SeamlessContentStream F D) (v : StreamState F D)
      (b : Backend F D)
      → get_elem? b.streams place ≡ some (seamless s)
      → seamless_tick http garbage (stream_state s b) ≡ ok v
      → stream_ticked http garbage place b ≡ ok (store_state place b v)
  unfolding stream_ticked ticked_by
  stream_ticked-stored http garbage place s v b g e =
      rw (g, ticked_by) (ap (Result_map (store_state place b)) e)
