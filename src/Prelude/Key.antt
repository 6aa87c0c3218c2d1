-- ===== src/Prelude/Key.antt =====
-- What a `std::map` asks of its keys: a strict total order, and the equality that it decides.
use rt_mbms_mw.Prelude.{
  ℕ, ltb, ◌==◌, Bool, true, false, ◌&&◌, ◌||◌, List, [], ◌∷◌, ◌≡◌, refl, ◌↔◌, arith,
}
use rt_mbms_mw.Prelude.Int.{ℤ, eq_ℤ, lt_ℤ, eq_ℤ_iff, lt_ℤ_irrefl, lt_ℤ_trans, lt_ℤ_total}

pub record Key {ℓ} (K : Type ℓ) : Type ℓ where
  pub eqb : K → K → Bool
  pub lt : K → K → Bool
  pub eqb_iff : (a b : K) → (eqb a b ≡ true) ↔ (a ≡ b)
  pub lt_irrefl : (a : K) → lt a a ≡ false
  pub lt_trans : (a b c : K) → lt a b ≡ true → lt b c ≡ true → lt a c ≡ true
  pub lt_total : (a b : K) → eqb a b ≡ false → lt a b ≡ false → lt b a ≡ true

instance abbrev pub int_key : Key ℤ
int_key = record {
  eqb = eq_ℤ;
  lt = lt_ℤ;
  eqb_iff = eq_ℤ_iff;
  lt_irrefl = lt_ℤ_irrefl;
  lt_trans = lt_ℤ_trans;
  lt_total = lt_ℤ_total;
}

-- A `std::string` is the list of its bytes.
abbrev pub Bytes : Type 0
Bytes = List ℕ

-- `operator==` and `operator<` of `std::string`
unfoldable pub equal : Bytes → Bytes → Bool
equal [] [] = true
equal (x ∷ xs) (y ∷ ys) = x == y && equal xs ys
equal _ _ = false

unfoldable pub less : Bytes → Bytes → Bool
less _ [] = false
less [] (y ∷ ys) = true
less (x ∷ xs) (y ∷ ys) = ltb x y || (x == y && less xs ys)

pub equal_iff : (a b : Bytes) → (equal a b ≡ true) ↔ (a ≡ b)
unfolding equal
equal_iff [] [] = ground arith
equal_iff [] (y ∷ b) = ground arith
equal_iff (x ∷ a) [] = ground arith
equal_iff (x ∷ a) (y ∷ b) = ground (arith, equal_iff a b)

pub equal_refl : (a : Bytes) → equal a a ≡ true
equal_refl a = (equal_iff a a).1 refl

pub less_irrefl : (a : Bytes) → less a a ≡ false
unfolding less
less_irrefl [] = refl
less_irrefl (x ∷ a) = ground (arith, less_irrefl a)

pub less_trans : (a b c : Bytes) → less a b ≡ true → less b c ≡ true → less a c ≡ true
unfolding less
less_trans (x ∷ a) (y ∷ b) (z ∷ c) = ground (arith, less_trans a b c)
less_trans _ [] _ = ground arith
less_trans _ (y ∷ b) [] = ground arith
less_trans [] (y ∷ b) (z ∷ c) = ground arith

pub less_total : (a b : Bytes) → equal a b ≡ false → less a b ≡ false → less b a ≡ true
unfolding less equal
less_total [] [] = ground arith
less_total (x ∷ a) (y ∷ b) = ground (arith, less_total a b)
less_total _ _ = ground arith

instance abbrev pub bytes_key : Key Bytes
bytes_key = record {
  eqb = equal;
  lt = less;
  eqb_iff = equal_iff;
  lt_irrefl = less_irrefl;
  lt_trans = less_trans;
  lt_total = less_total;
}
