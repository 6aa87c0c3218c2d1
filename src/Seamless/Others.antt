-- ===== src/Seamless/Others.antt =====
-- What a playlist leaves of the items of the cache that are not its own.
use rt_mbms_mw.Prelude.{
  ℕ, suc, List, [], ◌∷◌, ◌++◌, ◌≡◌, ◌≢◌, refl, ap, ◌∙◌, inl, inr, All, All-map, length,
  Option-cases, Bool-cases, ltb,
}
use rt_mbms_mw.Prelude.Float.{Float}
use rt_mbms_mw.Prelude.Int.{ℤ}
use rt_mbms_mw.Prelude.Key.{Bytes, bytes_key, int_key}
use rt_mbms_mw.Prelude.Map.{find, find-insert_other, find-erase_other}
use rt_mbms_mw.Cache.{CacheManagement, add_item, remove_item}
use rt_mbms_mw.Flute.{Flute}
use rt_mbms_mw.Hls.Media.{MediaSegment, HlsMediaPlaylist}
use rt_mbms_mw.Segment.{Segment, ItemSource}
use rt_mbms_mw.Seamless.{
  StreamState, admit, admit_loop, add_segment, evict, evict_oldest, uri_of, regenerate,
  take_playlist,
}
use rt_mbms_mw.Seamless.Served.{EntryServed, IsServed, IsNamed, admit-dir, admit_loop-IsServed}

module _ {F D : Type 0} ⦃flute : Flute F⦄ (q : Bytes) where
  admit-other :
      (m : MediaSegment D) (w : StreamState F D)
      → q ≢ w.stream.playlist_dir ++ m.uri
      → find q (admit m w).cache.cache_items ≡ find q w.cache.cache_items
  unfolding admit add_segment add_item
  admit-other m w n = elim (Option-cases (find m.seq w.stream.segments)) [
    | inl absent ↦
        rw (absent, admit)
          (find-insert_other (w.stream.playlist_dir ++ m.uri) q _ w.cache.cache_items n)
    | inr (place, present) ↦ rw (present, admit) refl
  ]

  admit_loop-other :
      (dir : Bytes) (count idx : ℕ) (ms : List (MediaSegment D)) (w : StreamState F D)
      → w.stream.playlist_dir ≡ dir
      → All (λ m. q ≢ dir ++ m.uri) ms
      → find q (admit_loop count idx ms w).cache.cache_items ≡ find q w.cache.cache_items
  unfolding admit_loop
  admit_loop-other dir count idx [] w d n = refl
  admit_loop-other dir count idx (m ∷ ms) w d (n, ns) =
      let first = admit-other m w (λ e. n (e ∙ ap (λ l. l ++ m.uri) d)) in
      elim (Bool-cases (ltb count idx)) [
        | inl last ↦ rw last first
        | inr more ↦
            rw more
              (admit_loop-other dir count (suc idx) ms (admit m w) (admit-dir m w ∙ d) ns ∙ first)
      ]

  evict-other :
      (keep : ℕ) (heap : List (Segment F D)) (es : List (ℤ × ℕ)) (c : CacheManagement F)
      → All (λ e. q ≢ uri_of heap e.1) es
      → find q (evict keep heap es c).1.cache_items ≡ find q c.cache_items
  unfolding evict remove_item
  evict-other keep heap [] c n = refl
  evict-other keep heap (e ∷ es) c (n, ns) = elim (Bool-cases (ltb keep (length (e ∷ es)))) [
    | inl above ↦ rw above (
        evict-other keep heap es (remove_item (uri_of heap e.1) c) ns
        ∙ find-erase_other (uri_of heap e.1) q c.cache_items n)
    | inr below ↦ rw below refl
  ]

  module _ (name : ℤ → Bytes) (other : (i : ℤ) → q ≢ name i) where
    entry-other :
        (heap : List (Segment F D)) (c : CacheManagement F) (e : ℤ × ℕ)
        → EntryServed name heap c e
        → q ≢ uri_of heap e.1
    unfolding uri_of
    entry-other heap c e h = rw (h.at_place, uri_of) (λ p. other e.0 (p ∙ h.location))

    -- The item at a location that is the name of no segment stays.
    pub take_playlist-other :
        ⦃float : Float D⦄ (source : ItemSource) (w : StreamState F D) (pl : HlsMediaPlaylist D)
        → ((i j : ℤ) → name i ≡ name j → i ≡ j)
        → All (IsNamed name w.stream.playlist_dir) pl.segments
        → IsServed name w
        → find q (take_playlist pl source w).cache.cache_items ≡ find q w.cache.cache_items
    unfolding take_playlist regenerate evict_oldest
    take_playlist-other source w pl distinct n h =
        let dir = w.stream.playlist_dir in
        let admitted = admit_loop _ 0 pl.segments w in
        let served : IsServed name admitted =
          admit_loop-IsServed name distinct dir _ 0 pl.segments w refl n h in
        evict-other _ admitted.heap admitted.stream.segments admitted.cache (
          All-map admitted.stream.segments (entry-other admitted.heap admitted.cache)
            served.entries)
        ∙ admit_loop-other dir _ 0 pl.segments w refl
            (All-map pl.segments (λ m e p. other m.seq (p ∙ e)) n)
