-- ===== src/Prelude/Strtoul.antt =====
-- `strtoul` and `std::stoul` of the C++ library, with a base.
use rt_mbms_mw.Prelude.{
  ℕ, ◌+◌, ◌-◌, ◌*◌, ◌%◌, ◌^◌, Bool, true, false, ◌&&◌, ◌||◌, [], ◌∷◌, Option, none, some,
  if◌then◌else◌, ltb, leb, ◌==◌,
}
use rt_mbms_mw.Prelude.Key.{Bytes}
use rt_mbms_mw.Prelude.Result.{Result, ok, throw, standard}
use rt_mbms_mw.Prelude.Text.{is_digit, trim_left}

-- The value of a digit or letter; 36 of any other byte.
unfoldable pub digit_value : ℕ → ℕ
digit_value c =
    if is_digit c
    then c - b'0'
    else if leb b'a' c && leb c b'z'
    then c - b'a' + 10
    else if leb b'A' c && leb c b'Z'
    then c - b'A' + 10
    else 36

-- The digits at the front, read behind the number `n`.
scan_base : ℕ → ℕ → Bytes → ℕ
unfolding digit_value
scan_base base n [] = n
scan_base base n (c ∷ s) =
    let rest = scan_base base (n * base + digit_value c) s in
    if ltb (digit_value c) base then rest else n

-- With a digit at the front.
scan_number : ℕ → Bytes → Option ℕ
unfolding scan_base
scan_number base [] = none
scan_number base (c ∷ s) =
    if ltb (digit_value c) base then some (scan_base base 0 (c ∷ s)) else none

-- `0x` in front of a hexadecimal digit.
skip_prefix : ℕ → Bytes → Bytes
unfolding digit_value
skip_prefix base (z ∷ x ∷ c ∷ s) =
    if base == 16 && z == b'0' && (x == b'x' || x == b'X') && ltb (digit_value c) 16
    then c ∷ s
    else z ∷ x ∷ c ∷ s
skip_prefix base [] = []
skip_prefix base (z ∷ []) = z ∷ []
skip_prefix base (z ∷ x ∷ []) = z ∷ x ∷ []

-- Whether there is a minus, and the number behind the sign.
signed : ℕ → Bytes → Bool × Option ℕ
unfolding scan_number skip_prefix
signed base [] = (false, none)
signed base (c ∷ s) =
    if c == b'-'
    then (true, scan_number base (skip_prefix base s))
    else if c == b'+'
    then (false, scan_number base (skip_prefix base s))
    else (false, scan_number base (skip_prefix base (c ∷ s)))

-- A number with a minus wraps.
with_sign : Bool → ℕ → ℕ
with_sign true n = (2 ^ 64 - n) % 2 ^ 64
with_sign false n = n

-- `std::stoul`
unfoldable pub stoul_base : ℕ → Bytes → Result ℕ
unfolding signed with_sign trim_left
stoul_base base s =
    let (minus, number) = signed base (trim_left s) in
    elim number [
      | none ↦ throw standard
      | some n ↦ if ltb n (2 ^ 64) then ok (with_sign minus n) else throw standard
    ]

-- `strtoul`
unfoldable pub strtoul : ℕ → Bytes → ℕ
unfolding signed with_sign trim_left
strtoul base s =
    let (minus, number) = signed base (trim_left s) in
    elim number [ none ↦ 0 | some n ↦ if ltb n (2 ^ 64) then with_sign minus n else 2 ^ 64 - 1 ]
