-- ===== src/Seamless/Sound.antt =====
-- What the operations of a seamless stream write leads to objects that are there.
use rt_mbms_mw.Prelude.{
  ℕ, suc, ◌≤◌, ◌<◌, Bool, true, false, not, List, [], ◌∷◌, ◌++◌, Option, none, some, refl, inl, inr,
  arith, All, All-map, length, length-append, Option-cases, Bool-cases, ltb, if◌then◌else◌,
}
use rt_mbms_mw.Prelude.Float.{Float}
use rt_mbms_mw.Prelude.Int.{ℤ}
use rt_mbms_mw.Prelude.Key.{Bytes, bytes_key, int_key, equal}
use rt_mbms_mw.Prelude.Map.{find, insert-All, insert-IsSorted, erase-All, erase-IsSorted}
use rt_mbms_mw.Prelude.Result.{Result, ok, WhenOk, WhenOk-map-all}
use rt_mbms_mw.Prelude.Text.{codes}
use rt_mbms_mw.Backend.Sound.{Room, ItemIn, EntryIn, CacheIn, Grows, CacheIn-Grows}
use rt_mbms_mw.Cache.{CacheItem, CacheManagement, content_location, add_item, remove_item}
use rt_mbms_mw.Cdn.{Http, CdnClient, CdnFile}
use rt_mbms_mw.Flute.{Flute}
use rt_mbms_mw.Hls.Media.{MediaSegment, media_parse}
use rt_mbms_mw.Seamless.{
  StreamState, UriParser, set_cdn_endpoint, admit, add_segment, admit_loop, evict, evict_oldest,
  regenerate, take_playlist, handle_playlist, seamless_file_received, fetched, seamless_tick,
  connected, located_stream, endpoint_stream, Uri,
}
use rt_mbms_mw.Segment.{ItemSource, Segment}

module _ {F : Type 0} where
  pub CacheIn-add :
      (r : Room) (i : CacheItem F) (c : CacheManagement F)
      → ItemIn r i
      → CacheIn r c
      → CacheIn r (add_item i c)
  unfolding add_item
  CacheIn-add r i c p h = record {
    sorted = insert-IsSorted (content_location i) i c.cache_items h.sorted;
    entries = insert-All (EntryIn r) (content_location i) i c.cache_items (refl, p) h.entries;
  }

  CacheIn-remove :
      (r : Room) (l : Bytes) (c : CacheManagement F) → CacheIn r c → CacheIn r (remove_item l c)
  unfolding remove_item
  CacheIn-remove r l c h = record {
    sorted = erase-IsSorted l c.cache_items h.sorted;
    entries = erase-All (EntryIn r) l c.cache_items h.entries;
  }

connected-le :
    {F D : Type 0} (b : Bool) (self : ℕ) (uri : Uri) (w : StreamState F D)
    → length w.heap ≤ length (connected b self uri w).1.heap
unfolding connected
connected-le false self uri w = omega arith
connected-le true self uri w = omega arith

-- The segments are left alone.
pub set_cdn_endpoint-le :
    {F D : Type 0} (parse : UriParser) (accepts : Bytes → Bool) (self : ℕ) (url : Bytes)
    (w : StreamState F D)
    → length w.heap ≤ length (set_cdn_endpoint parse accepts self url w).1.heap
unfolding set_cdn_endpoint
set_cdn_endpoint-le parse accepts self url w = elim (Option-cases (parse url)) [
  | inl refused ↦ rw (refused, set_cdn_endpoint) (omega arith)
  | inr (uri, parsed) ↦ rw (parsed, set_cdn_endpoint) (connected-le (accepts uri.base) self uri w)
]

module _ {F D : Type 0} (streams services : ℕ) where
  abbrev room_with : List (Segment F D) → Room
  room_with heap = record { segments = length heap; streams = streams; services = services }

  -- A stream and the cache, next to as many streams and services.
  pub record StateIn (w : StreamState F D) : Type 0 where
    pub cache_in : CacheIn (room_with w.heap) w.cache
    pub places : All (λ e. e.1 < length w.heap) w.stream.segments

  connected-StateIn :
      (b : Bool) (self : ℕ) (uri : Uri) (w : StreamState F D)
      → self < streams
      → StateIn w
      → StateIn (connected b self uri w).1
  unfolding connected located_stream endpoint_stream
  connected-StateIn false self uri w lt h = record { cache_in = h.cache_in; places = h.places }
  connected-StateIn true self uri w lt h = record {
    cache_in = CacheIn-add _ _ w.cache lt h.cache_in;
    places = h.places;
  }

  pub set_cdn_endpoint-StateIn :
      (parse : UriParser) (accepts : Bytes → Bool) (self : ℕ) (url : Bytes) (w : StreamState F D)
      → self < streams
      → StateIn w
      → StateIn (set_cdn_endpoint parse accepts self url w).1
  unfolding set_cdn_endpoint
  set_cdn_endpoint-StateIn parse accepts self url w lt h = elim (Option-cases (parse url)) [
    | inl refused ↦ rw (refused, set_cdn_endpoint) h
    | inr (uri, parsed) ↦
        rw (parsed, set_cdn_endpoint) (connected-StateIn (accepts uri.base) self uri w lt h)
  ]

  module _ ⦃flute : Flute F⦄ where
    heap-Grows :
        (heap : List (Segment F D)) (s : Segment F D)
        → Grows (room_with heap) (room_with (heap ++ (s ∷ [])))
    heap-Grows heap s = record {
      segments = omega (arith, length-append heap (s ∷ []));
      streams = omega arith;
      services = omega arith;
    }

    add_segment-StateIn :
        (m : MediaSegment D) (w : StreamState F D) → StateIn w → StateIn (add_segment m w)
    unfolding add_segment
    add_segment-StateIn m w h = record {
      cache_in =
          CacheIn-add _ _ w.cache (omega (arith, length-append w.heap (_ ∷ [])))
            (CacheIn-Grows (heap-Grows w.heap _) h.cache_in);
      places =
          insert-All _ m.seq (length w.heap) w.stream.segments
            (omega (arith, length-append w.heap (_ ∷ [])))
            (All-map w.stream.segments (λ e lt. omega (arith, length-append w.heap (_ ∷ [])))
              h.places);
    }

    admit-StateIn : (m : MediaSegment D) (w : StreamState F D) → StateIn w → StateIn (admit m w)
    unfolding admit
    admit-StateIn m w h = elim (Option-cases (find m.seq w.stream.segments)) [
      | inl absent ↦ rw (absent, admit) (add_segment-StateIn m w h)
      | inr (place, present) ↦ rw (present, admit) h
    ]

    admit_loop-StateIn :
        (count idx : ℕ) (ms : List (MediaSegment D)) (w : StreamState F D)
        → StateIn w
        → StateIn (admit_loop count idx ms w)
    unfolding admit_loop
    admit_loop-StateIn count idx [] w h = h
    admit_loop-StateIn count idx (m ∷ ms) w h = elim (Bool-cases (ltb count idx)) [
      | inl last ↦ rw last (admit-StateIn m w h)
      | inr more ↦ rw more (admit_loop-StateIn count (suc idx) ms (admit m w) (admit-StateIn m w h))
    ]

    evict-kept :
        (r : Room) (keep : ℕ) (heap : List (Segment F D)) (es : List (ℤ × ℕ))
        (c : CacheManagement F)
        → All (λ e. e.1 < r.segments) es
        → CacheIn r c
        → let left = evict keep heap es c in All (λ e. e.1 < r.segments) left.0 × CacheIn r left.1
    unfolding evict
    evict-kept r keep heap [] c p h = (tt, h)
    evict-kept r keep heap (e ∷ es) c (lt, p) h = elim (Bool-cases (ltb keep (length (e ∷ es)))) [
      | inl above ↦ rw above (evict-kept r keep heap es _ p (CacheIn-remove r _ c h))
      | inr below ↦ rw below ((lt, p), h)
    ]

    evict_oldest-StateIn : (w : StreamState F D) → StateIn w → StateIn (evict_oldest w)
    unfolding evict_oldest
    evict_oldest-StateIn w h =
        let kept =
          evict-kept (room_with w.heap) _ w.heap w.stream.segments w.cache h.places h.cache_in in
        record { cache_in = kept.1; places = kept.0 }

    module _ ⦃float : Float D⦄ where
      regenerate-StateIn : (z : ℤ) (w : StreamState F D) → StateIn w → StateIn (regenerate z w)
      unfolding regenerate
      regenerate-StateIn z w h = record { cache_in = h.cache_in; places = h.places }

      handle_playlist-StateIn :
          (garbage : ℤ) (content : Bytes) (source : ItemSource) (w : StreamState F D)
          → StateIn w
          → WhenOk StateIn (handle_playlist garbage content source w)
      unfolding handle_playlist take_playlist
      handle_playlist-StateIn garbage content source w h =
          WhenOk-map-all StateIn (λ pl. take_playlist pl source w) (media_parse garbage content)
            λ pl.
              regenerate-StateIn pl.targetduration _
                (evict_oldest-StateIn _ (admit_loop-StateIn _ 0 pl.segments w h))

      pub file_received-StateIn :
          (garbage : ℤ) (file : F) (w : StreamState F D)
          → StateIn w
          → WhenOk StateIn (seamless_file_received garbage file w)
      unfolding seamless_file_received
      file_received-StateIn garbage file w h =
          chosen (handle_playlist garbage _ ItemSource.broadcast w) (ok _)
            (equal (flute.content_location file) w.stream.content_stream.playlist_path)
            (equal (flute.content_location file) (codes "index.m3u8"))
            (handle_playlist-StateIn garbage _ ItemSource.broadcast w h)
            (record { cache_in = h.cache_in; places = h.places })
        where
          chosen :
              (x z : Result (StreamState F D)) (b c : Bool)
              → WhenOk StateIn x
              → WhenOk StateIn z
              → WhenOk StateIn (if b then x else if c then ok w else z)
          chosen x z true c p q = p
          chosen x z false true p q = h
          chosen x z false false p q = q

      pub fetched-StateIn :
          (garbage : ℤ) (answer : Option CdnFile) (w : StreamState F D)
          → StateIn w
          → WhenOk StateIn (fetched garbage answer w)
      unfolding fetched
      fetched-StateIn garbage none w h = h
      fetched-StateIn garbage (some file) w h = handle_playlist-StateIn garbage _ ItemSource.cdn w h

      asked-StateIn :
          (garbage : ℤ) (running : Bool) (asked : Option CdnClient)
          (answer : CdnClient → Option CdnFile) (w : StreamState F D)
          → StateIn w
          → WhenOk StateIn (
              if not running
              then ok w
              else elim asked [ none ↦ ok w | some client ↦ fetched garbage (answer client) w ])
      asked-StateIn garbage false asked answer w h = h
      asked-StateIn garbage true none answer w h = h
      asked-StateIn garbage true (some client) answer w h =
          fetched-StateIn garbage (answer client) w h

      pub tick-StateIn :
          (http : Http) (garbage : ℤ) (w : StreamState F D)
          → StateIn w
          → WhenOk StateIn (seamless_tick http garbage w)
      unfolding seamless_tick
      tick-StateIn http garbage w h =
          asked-StateIn garbage w.stream.running w.stream.cdn_client _ w h
