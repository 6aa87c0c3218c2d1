-- ===== src/Seamless/Window.antt =====
-- Which entries of a playlist become segments, and which segments stay.
use rt_mbms_mw.Prelude.{
  ℕ, zero, suc, ◌+◌, ◌-◌, ◌^◌, ◌≤◌, ◌<◌, List, [], ◌∷◌, ◌≡◌, refl, ap, inl, inr, arith,
  if◌then◌else◌, ltb, length, take, drop, Bool-cases, ltb→lt, ltb→ge, subst, length-drop,
}
use rt_mbms_mw.Prelude.Decimal.{to_u64}
use rt_mbms_mw.Prelude.Float.{Float}
use rt_mbms_mw.Prelude.Int.{ℤ, pos}
use rt_mbms_mw.Prelude.Key.{Bytes}
use rt_mbms_mw.Prelude.Result.{ok, Result_map-eq-ok}
use rt_mbms_mw.Cache.{CacheManagement}
use rt_mbms_mw.Flute.{Flute}
use rt_mbms_mw.Hls.Media.{MediaSegment, HlsMediaPlaylist, media_parse}
use rt_mbms_mw.Segment.{Segment, ItemSource, broadcast, cdn}
use rt_mbms_mw.Seamless.{
  StreamState, admit, admit_loop, entry_count, evict, evict_oldest, regenerate, take_playlist,
  handle_playlist,
}

-- The entries that the loop looks at.
abbrev pub looked_at : {D : Type 0} → ℕ → List (MediaSegment D) → List (MediaSegment D)
looked_at t ms = if ltb (length ms) t then ms else take (length ms - t + 2) ms

module _ {F D : Type 0} ⦃flute : Flute F⦄ where
  -- Every entry is looked at.
  pub admit_all : List (MediaSegment D) → StreamState F D → StreamState F D
  admit_all [] w = w
  admit_all (m ∷ ms) w = admit_all ms (admit m w)

  admit_loop-take :
      (k count idx : ℕ) (ms : List (MediaSegment D)) (w : StreamState F D)
      → idx + k ≡ count + 1
      → admit_loop count idx ms w ≡ admit_all (take (suc k) ms) w
  unfolding admit_loop admit_all
  admit_loop-take k count idx [] w h = refl
  admit_loop-take zero count idx (m ∷ ms) w h = ground arith
  admit_loop-take (suc k) count idx (m ∷ ms) w h =
      ground (arith, admit_loop-take k count (suc idx) ms (admit m w))

  admit_loop-all :
      (count idx : ℕ) (ms : List (MediaSegment D)) (w : StreamState F D)
      → length ms + idx ≤ count + 1
      → admit_loop count idx ms w ≡ admit_all ms w
  unfolding admit_loop admit_all
  admit_loop-all count idx [] w h = refl
  admit_loop-all count idx (m ∷ ms) w h =
      ground (arith, admit_loop-all count (suc idx) ms (admit m w))

  -- Eviction leaves the last entries of the map.
  evict-drop :
      (keep : ℕ) (heap : List (Segment F D)) (es : List (ℤ × ℕ)) (c : CacheManagement F)
      → (evict keep heap es c).0 ≡ drop (length es - keep) es
  unfolding evict
  evict-drop keep heap [] c = ground arith
  evict-drop keep heap (e ∷ es) c = elim (Bool-cases (ltb keep (length (e ∷ es)))) [
    | inl over ↦
        let d : length (e ∷ es) - keep ≡ suc (length es - keep) =
          omega (arith, ltb→lt keep (length (e ∷ es)) over) in
        rw (over, d) (evict-drop keep heap es _)
    | inr fits ↦
        let d : length (e ∷ es) - keep ≡ 0 = omega (arith, ltb→ge keep (length (e ∷ es)) fits) in
        rw (fits, d) refl
  ]

  evict-length-le :
      (keep : ℕ) (heap : List (Segment F D)) (es : List (ℤ × ℕ)) (c : CacheManagement F)
      → length (evict keep heap es c).0 ≤ keep
  evict-length-le keep heap es c =
      rw (evict-drop keep heap es c) (omega (arith, length-drop (length es - keep) es))

  admit_loop-cdn :
      (z : ℤ) (t : ℕ) (ms : List (MediaSegment D)) (w : StreamState F D)
      → z ≡ pos t
      → t < 2 ^ 31
      → length ms < 2 ^ 63
      → admit_loop (entry_count cdn z (length ms)) 0 ms w ≡ admit_all (looked_at t ms) w
  admit_loop-cdn z t ms w e h k = rw e (elim (Bool-cases (ltb (length ms) t)) [
    | inl few ↦
        let c = ltb→lt (length ms) t few in
        rw few (admit_loop-all _ 0 ms w (unfold entry_count in omega arith))
    | inr enough ↦
        let c = ltb→ge (length ms) t enough in
        let two : length ms - t + 2 ≡ suc (length ms - t + 1) = omega arith in
        rw (enough, two)
          (admit_loop-take (length ms - t + 1) _ 0 ms w (unfold entry_count in omega arith))
  ])

  module _ ⦃float : Float D⦄ where
    -- What follows the loop.
    pub publish : HlsMediaPlaylist D → StreamState F D → StreamState F D
    publish pl w = regenerate pl.targetduration (evict_oldest w)

    -- Of a playlist from the CDN with `n` entries (below 2^63) and the setting `t` (below 2^31) to
    -- leave out entries, the first `n - t + 2` are looked at, two more than the setting says; if
    -- `n` is below `t` the difference wraps, and all of them are. Of a broadcast playlist all are.
    -- Then segments are evicted and the playlist is written.
    pub take_playlist-window :
        (pl : HlsMediaPlaylist D) (w : StreamState F D) (t : ℕ)
        → w.stream.truncate_cdn_playlist_segments ≡ pos t
        → t < 2 ^ 31
        → length pl.segments < 2 ^ 63
        → (take_playlist pl cdn w
            ≡ publish pl (
                admit_all
                  (if ltb (length pl.segments) t
                    then pl.segments
                    else take (length pl.segments - t + 2) pl.segments)
                  w))
          × (take_playlist pl broadcast w ≡ publish pl (admit_all pl.segments w))
    unfolding take_playlist entry_count publish
    take_playlist-window pl w t e h k = (
      ap (publish pl)
          (admit_loop-cdn w.stream.truncate_cdn_playlist_segments t pl.segments w e h k),
      ap (publish pl) (admit_loop-all (length pl.segments) 0 pl.segments w (omega arith)),
    )

    -- After a playlist from either source the stream has at most as many segments as its setting says
    -- (read as a `size_t`).
    pub handle_playlist-length-le :
        (garbage : ℤ) (content : Bytes) (source : ItemSource) (w w' : StreamState F D)
        → handle_playlist garbage content source w ≡ ok w'
        → length w'.stream.segments ≤ to_u64 w'.stream.segments_to_keep
    unfolding handle_playlist take_playlist evict_oldest regenerate
    handle_playlist-length-le garbage content source w w' e =
        let (pl, p, q) =
          Result_map-eq-ok (λ pl. take_playlist pl source w) (media_parse garbage content) e in
        subst (λ (v : StreamState F D). length v.stream.segments ≤ to_u64 v.stream.segments_to_keep)
          q (evict-length-le _ _ _ _)
