-- ===== src/Prelude/Int.antt =====
-- The signed `int` of the source, as an integer with no bound: overflow of an `int` is undefined
-- there, so the model speaks of the runs that stay in range.
use rt_mbms_mw.Prelude.{ℕ, suc, zero, Bool, true, false, ltb, ◌==◌, ◌≡◌, ◌↔◌, arith}

-- `negsuc n` is -(n + 1).
pub data ℤ : Type 0 where
  pos : ℕ → ℤ
  negsuc : ℕ → ℤ

-- `x++`
abbrev pub next : ℤ → ℤ
next (pos n) = pos (suc n)
next (negsuc zero) = pos 0
next (negsuc (suc n)) = negsuc n

-- `-n`
abbrev pub negate : ℕ → ℤ
negate zero = pos 0
negate (suc n) = negsuc n

abbrev pub eq_ℤ : ℤ → ℤ → Bool
eq_ℤ (pos a) (pos b) = a == b
eq_ℤ (negsuc a) (negsuc b) = a == b
eq_ℤ _ _ = false

abbrev pub lt_ℤ : ℤ → ℤ → Bool
lt_ℤ (pos a) (pos b) = ltb a b
lt_ℤ (negsuc a) (negsuc b) = ltb b a
lt_ℤ (negsuc a) (pos b) = true
lt_ℤ (pos a) (negsuc b) = false

pub eq_ℤ_iff : (a b : ℤ) → (eq_ℤ a b ≡ true) ↔ (a ≡ b)
eq_ℤ_iff (pos a) (pos b) = ground arith
eq_ℤ_iff (negsuc a) (negsuc b) = ground arith
eq_ℤ_iff (pos a) (negsuc b) = ground arith
eq_ℤ_iff (negsuc a) (pos b) = ground arith

pub lt_ℤ_irrefl : (a : ℤ) → lt_ℤ a a ≡ false
lt_ℤ_irrefl (pos a) = ground arith
lt_ℤ_irrefl (negsuc a) = ground arith

pub lt_ℤ_trans : (a b c : ℤ) → lt_ℤ a b ≡ true → lt_ℤ b c ≡ true → lt_ℤ a c ≡ true
lt_ℤ_trans (pos a) (pos b) (pos c) = ground arith
lt_ℤ_trans (negsuc a) (negsuc b) (negsuc c) = ground arith
lt_ℤ_trans _ _ _ = ground arith

pub lt_ℤ_total : (a b : ℤ) → eq_ℤ a b ≡ false → lt_ℤ a b ≡ false → lt_ℤ b a ≡ true
lt_ℤ_total (pos a) (pos b) = ground arith
lt_ℤ_total (negsuc a) (negsuc b) = ground arith
lt_ℤ_total _ _ = ground arith

pub lt_ℤ-next : (a : ℤ) → lt_ℤ a (next a) ≡ true
lt_ℤ-next (pos a) = ground arith
lt_ℤ-next (negsuc zero) = ground arith
lt_ℤ-next (negsuc (suc a)) = ground arith
