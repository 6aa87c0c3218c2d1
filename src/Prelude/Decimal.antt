-- ===== src/Prelude/Decimal.antt =====
-- `atoi`, and `operator<<` of an `int`. (Out of the range of an `int`, `atoi` is undefined.)
use rt_mbms_mw.Prelude.{
  ℕ, zero, suc, ◌+◌, ◌-◌, ◌*◌, ◌/◌, ◌%◌, ◌^◌, ◌<◌, ◌≡◌, refl, ◌∙◌, true, false, [], ◌∷◌, arith,
  if◌then◌else◌, ltb, ◌==◌, All, Bool-cases, inl, inr, ◌≢◌,
}
use rt_mbms_mw.Prelude.Int.{ℤ, pos, negsuc, negate}
use rt_mbms_mw.Prelude.Key.{Bytes}
use rt_mbms_mw.Prelude.Text.{is_space, is_digit, trim_left, IsSolid, Lacks}

-- The digits at the front of the text, read behind the number `n`.
unfoldable pub scan_digits : ℕ → Bytes → ℕ
scan_digits n [] = n
scan_digits n (c ∷ s) =
    let rest = scan_digits (n * 10 + (c - b'0')) s in if is_digit c then rest else n

scan_sign : Bytes → ℤ
unfolding scan_digits
scan_sign [] = pos 0
scan_sign (c ∷ s) =
    if c == b'-'
    then negate (scan_digits 0 s)
    else if c == b'+'
    then pos (scan_digits 0 s)
    else pos (scan_digits 0 (c ∷ s))

unfoldable pub atoi : Bytes → ℤ
unfolding scan_sign trim_left
atoi s = scan_sign (trim_left s)

-- The conversion of an `int` to an `unsigned long`.
abbrev pub to_u64 : ℤ → ℕ
to_u64 (pos n) = n % 2 ^ 64
to_u64 (negsuc n) = 2 ^ 64 - 1 - n % 2 ^ 64

-- The digits of `n` in front of `out`; the fuel is above `n`.
digits : ℕ → ℕ → Bytes → Bytes
digits zero n out = out
digits (suc f) n out =
    let rest = digits f (n / 10) ((b'0' + n % 10) ∷ out) in
    if ltb n 10 then (b'0' + n) ∷ out else rest

unfoldable pub show_nat : ℕ → Bytes
unfolding digits
show_nat n = digits (suc n) n []

unfoldable pub show_int : ℤ → Bytes
unfolding show_nat
show_int (pos n) = show_nat n
show_int (negsuc n) = b'-' ∷ show_nat (suc n)

-- With enough fuel, reading the digits back gives the number.
scan_digits-digits :
    (f n : ℕ) (out : Bytes) → n < f → scan_digits 0 (digits f n out) ≡ scan_digits n out
unfolding scan_digits digits
scan_digits-digits zero n out h = absurd (omega arith)
scan_digits-digits (suc f) n out h =
    ground (arith, scan_digits-digits f (n / 10) ((b'0' + n % 10) ∷ out))

abbrev pub IsDigits : Bytes → Type 0
IsDigits = All (λ c. is_digit c ≡ true)

digits-IsDigits : (f n : ℕ) (out : Bytes) → IsDigits out → IsDigits (digits f n out)
unfolding digits
digits-IsDigits zero n out h = h
digits-IsDigits (suc f) n out h = ground (arith, digits-IsDigits f (n / 10) ((b'0' + n % 10) ∷ out))

scan_sign-digits : (s : Bytes) → IsDigits s → scan_sign (trim_left s) ≡ pos (scan_digits 0 s)
unfolding scan_sign trim_left scan_digits
scan_sign-digits [] h = refl
scan_sign-digits (c ∷ s) (h, _) = ground arith

pub show_nat-IsDigits : (n : ℕ) → IsDigits (show_nat n)
unfolding show_nat
show_nat-IsDigits n = digits-IsDigits (suc n) n [] tt

pub scan_digits-show_nat : (n : ℕ) → scan_digits 0 (show_nat n) ≡ n
unfolding show_nat
scan_digits-show_nat n = scan_digits-digits (suc n) n [] (omega arith) ∙ unfold scan_digits in refl

-- An `int` that was printed is read back.
pub atoi-show_int : (z : ℤ) → atoi (show_int z) ≡ z
unfolding show_int atoi
atoi-show_int (pos n) =
    ground (arith, scan_sign-digits (show_nat n) (show_nat-IsDigits n), scan_digits-show_nat n)
atoi-show_int (negsuc n) = ground (arith, scan_digits-show_nat (suc n))

IsDigits-IsSolid : (b : ℕ) (s : Bytes) → IsDigits s → is_digit b ≡ false → IsSolid s × Lacks b s
unfolding is_space
IsDigits-IsSolid b [] h k = (tt, tt)
IsDigits-IsSolid b (c ∷ s) (h, hs) k =
    let (u, v) = IsDigits-IsSolid b s hs k in ((ground arith, u), (ground arith, v))

-- What is printed for an `int` has no white space and no colon.
pub show_int-IsSolid : (z : ℤ) → IsSolid (show_int z) × Lacks b':' (show_int z)
unfolding show_int is_space
show_int-IsSolid (pos n) = IsDigits-IsSolid b':' (show_nat n) (show_nat-IsDigits n) refl
show_int-IsSolid (negsuc n) =
    let (u, v) = IsDigits-IsSolid b':' (show_nat (suc n)) (show_nat-IsDigits (suc n)) refl in
    ((refl, u), (refl, v))

pub show_nat-Lacks : (n b : ℕ) → is_digit b ≡ false → IsSolid (show_nat n) × Lacks b (show_nat n)
show_nat-Lacks n b h = IsDigits-IsSolid b (show_nat n) (show_nat-IsDigits n) h

digits-ne-nil : (f n : ℕ) (out : Bytes) → out ≢ [] → digits f n out ≢ []
unfolding digits
digits-ne-nil zero n out h = h
digits-ne-nil (suc f) n out h = elim (Bool-cases (ltb n 10)) [
  | inl low ↦ rw low (λ e. cc)
  | inr high ↦ rw high (digits-ne-nil f (n / 10) ((b'0' + n % 10) ∷ out) (λ e. cc))
]

pub show_nat-ne-nil : (n : ℕ) → show_nat n ≢ []
unfolding show_nat digits
show_nat-ne-nil n = elim (Bool-cases (ltb n 10)) [
  | inl low ↦ rw low (λ e. cc)
  | inr high ↦ rw high (digits-ne-nil n (n / 10) ((b'0' + n % 10) ∷ []) (λ e. cc))
]
