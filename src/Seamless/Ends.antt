-- ===== src/Seamless/Ends.antt =====
-- The `while` loop of `handle_playlist` that drops the oldest segments, round by round.
use rt_mbms_mw.Prelude.{
  ℕ, zero, suc, ◌<◌, true, false, List, [], ◌∷◌, Option, none, some, ◌≡◌, refl, inl, inr, arith,
  length, ltb, Bool-cases,
}
use rt_mbms_mw.Prelude.Int.{ℤ}
use rt_mbms_mw.Cache.{CacheManagement, remove_item}
use rt_mbms_mw.Flute.{Flute}
use rt_mbms_mw.Segment.{Segment}
use rt_mbms_mw.Seamless.{uri_of, evict}

module _ {F D : Type 0} ⦃flute : Flute F⦄ (keep : ℕ) (heap : List (Segment F D)) where
  -- As the source has it, with fuel for the rounds; `none` where the fuel runs out, and where the
  -- first element of an empty map would be extracted.
  unfoldable pub evict_while :
      ℕ → List (ℤ × ℕ) → CacheManagement F → Option (List (ℤ × ℕ) × CacheManagement F)
  unfolding uri_of
  evict_while zero es c = none
  evict_while (suc fuel) [] c = elim (ltb keep 0) [ true ↦ none | false ↦ some ([], c) ]
  evict_while (suc fuel) (e ∷ es) c = elim (ltb keep (length (e ∷ es))) [
    | true ↦ evict_while fuel es (remove_item (uri_of heap e.1) c)
    | false ↦ some (e ∷ es, c)
  ]

  -- The loop ends: with more rounds at hand than there are segments it comes to its end, never takes
  -- an element from an empty map, and leaves the segments and the cache that `evict` gives.
  pub evict_while-evict :
      (fuel : ℕ) (es : List (ℤ × ℕ)) (c : CacheManagement F)
      → length es < fuel
      → evict_while fuel es c ≡ some (evict keep heap es c)
  unfolding evict_while evict
  evict_while-evict zero es c h = absurd (omega arith)
  evict_while-evict (suc fuel) [] c h = elim (Bool-cases (ltb keep 0)) [
    | inl above ↦ absurd (ground arith)
    | inr below ↦ rw (below, evict_while) refl
  ]
  evict_while-evict (suc fuel) (e ∷ es) c h = elim (Bool-cases (ltb keep (length (e ∷ es)))) [
    | inl above ↦ rw (above, evict_while) (evict_while-evict fuel es _ (omega arith))
    | inr below ↦ rw (below, evict_while) refl
  ]
