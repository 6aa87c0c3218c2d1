-- ===== src/Announcement/Setup/Names.antt =====
-- The manifest that belongs to a session description.
use rt_mbms_mw.Prelude.{
  ℕ, Bool, true, false, ◌&&◌, [], ◌∷◌, ◌++◌, ◌≡◌, refl, ap, ◌∙◌, arith, append-nil,
}
use rt_mbms_mw.Prelude.Key.{Bytes}
use rt_mbms_mw.Prelude.Text.{codes, starts_with, contains}
use rt_mbms_mw.Announcement.Setup.{match_sdp, replace_from, replace_sdp}
use rt_mbms_mw.Stream.Sdp.{is_dot}

-- The text does not hold `sdp`.
abbrev pub IsStem : Bytes → Type 0
IsStem s = contains (codes "sdp") s ≡ false

IsStem-tail : (c : ℕ) (s : Bytes) → IsStem (c ∷ s) → IsStem s
unfolding contains
IsStem-tail c s h = ground arith

starts_with-stem : (s : Bytes) → IsStem s → starts_with (codes "sdp") (s ++ codes ".sdp") ≡ false
unfolding starts_with contains
starts_with-stem [] h = refl
starts_with-stem (a ∷ []) h = ground arith
starts_with-stem (a ∷ b ∷ []) h = ground arith
starts_with-stem (a ∷ b ∷ c ∷ s) h = ground arith

both : (b : Bool) → (b && false) ≡ false
both true = refl
both false = refl

no_match : (c : ℕ) (s : Bytes) → IsStem s → match_sdp (c ∷ (s ++ codes ".sdp")) ≡ false
unfolding match_sdp
no_match c s h = rw (starts_with-stem s h) (both (is_dot c))

replace_from-stem :
    (ext s : Bytes) → IsStem s → replace_from ext 0 (s ++ codes ".sdp") ≡ s ++ (ext ++ [])
unfolding replace_from match_sdp starts_with is_dot
replace_from-stem ext [] h = refl
replace_from-stem ext (c ∷ s) h =
    rw (no_match c s (IsStem-tail c s h), replace_from)
      (ap (◌∷◌ c) (replace_from-stem ext s (IsStem-tail c s h)))

-- For a session description with the ending `.sdp`, and no other `sdp` in its URI, the manifest is
-- looked for under the same name with the other ending.
pub replace_sdp-stem : (ext s : Bytes) → IsStem s → replace_sdp ext (s ++ codes ".sdp") ≡ s ++ ext
unfolding replace_sdp
replace_sdp-stem ext s h = replace_from-stem ext s h ∙ ap (λ t. s ++ t) (append-nil ext)
