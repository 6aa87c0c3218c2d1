-- ===== src/Stream/Sdp.antt =====
-- The regular expressions of `ContentStream::configure_5gbc_delivery_from_sdp`, as the matches that
-- `std::regex_match` makes: of the whole text, each group as long as it can be.
use rt_mbms_mw.Prelude.{
  ℕ, ◌-◌, ◌^◌, Bool, true, not, ◌&&◌, ◌||◌, [], ◌∷◌, Option, none, some, if◌then◌else◌, leb, ltb,
  ◌==◌,
}
use rt_mbms_mw.Prelude.Decimal.{scan_digits}
use rt_mbms_mw.Prelude.Key.{Bytes}
use rt_mbms_mw.Prelude.Result.{Result, ok, throw, standard}
use rt_mbms_mw.Prelude.Text.{codes, is_digit, trim_left}

-- `.` matches any character that ends no line.
unfoldable pub is_dot : ℕ → Bool
is_dot c = not (c == b'\n' || c == b'\r')

unfoldable pub all_dots : Bytes → Bool
unfolding is_dot
all_dots [] = true
all_dots (c ∷ s) = is_dot c && all_dots s

-- `(.+)` at the end of the expression
unfoldable pub some_dots : Bytes → Option Bytes
unfolding all_dots
some_dots [] = none
some_dots (c ∷ s) = if all_dots (c ∷ s) then some (c ∷ s) else none

-- A literal at the front of the text.
unfoldable pub strip_prefix : Bytes → Bytes → Option Bytes
strip_prefix [] s = some s
strip_prefix (p ∷ ps) [] = none
strip_prefix (p ∷ ps) (c ∷ s) = let rest = strip_prefix ps s in if p == c then rest else none

before_space : {B : Type 0} → (Bytes → Option B) → ℕ → Bytes → Option (Bytes × B)
before_space rest c [] = none
before_space rest c (d ∷ s) =
    if is_dot c && d == b' '
    then elim (rest s) [ none ↦ none | some b ↦ some (c ∷ [], b) ]
    else none

-- `(.+) ` and then the rest of the expression, the group as long as it can be.
unfoldable pub greedy_group : {B : Type 0} → (Bytes → Option B) → Bytes → Option (Bytes × B)
unfolding before_space is_dot
greedy_group rest [] = none
greedy_group rest (c ∷ s) = elim (greedy_group rest s) [
  | some (g, b) ↦ if is_dot c then some (c ∷ g, b) else none
  | none ↦ before_space rest c s
]

-- `(.+) (.+)` and `(.+) (.+) (.+)`
unfoldable pub two_groups : Bytes → Option (Bytes × Bytes)
unfolding greedy_group some_dots
two_groups = greedy_group some_dots

unfoldable pub three_groups : Bytes → Option (Bytes × (Bytes × Bytes))
unfolding two_groups
three_groups = greedy_group two_groups

-- `[0-9\.]+` and what is behind it
unfoldable pub address_chars : Bytes → Bytes × Bytes
address_chars [] = ([], [])
address_chars (c ∷ s) =
    let rest = address_chars s in
    if is_digit c || c == b'.' then (c ∷ rest.0, rest.1) else ([], c ∷ s)

-- `^IN (IP.) ([0-9\.]+).*$`, the second group
address_of : Bytes × Bytes → Option Bytes
unfolding all_dots
address_of ([], rest) = none
address_of (c ∷ a, rest) = if all_dots rest then some (c ∷ a) else none

connection_rest : Option Bytes → Option Bytes
unfolding address_of address_chars is_dot
connection_rest none = none
connection_rest (some []) = none
connection_rest (some (x ∷ [])) = none
connection_rest (some (x ∷ d ∷ s)) =
    if is_dot x && d == b' ' then address_of (address_chars s) else none

unfoldable pub connection_value : Bytes → Option Bytes
unfolding connection_rest strip_prefix
connection_value v = connection_rest (strip_prefix (codes "IN IP") v)

-- What a line of the description makes the loop assign. `two_media` is a line that both expressions
-- for media match.
pub data SdpLine : Type 0 where
  connection : Bytes → SdpLine
  media : Bytes → Bytes → SdpLine
  two_media : Bytes → Bytes → Bytes → Bytes → SdpLine
  tsi : Bytes → SdpLine
  other : SdpLine

media_groups : Option (Bytes × Bytes) → Option (Bytes × (Bytes × Bytes)) → SdpLine
media_groups none none = other
media_groups (some (p, t)) none = media p t
media_groups none (some (p, (t, r))) = media p t
media_groups (some (p, t)) (some (p2, (t2, r))) = two_media p t p2 t2

unfoldable pub media_value : Bytes → SdpLine
unfolding media_groups two_groups three_groups strip_prefix
media_value v = elim (strip_prefix (codes "application ") v) [
  | none ↦ other
  | some r ↦ media_groups (two_groups r) (three_groups r)
]

unfoldable pub tsi_value : Bytes → SdpLine
unfolding strip_prefix some_dots
tsi_value v = elim (strip_prefix (codes "flute-tsi:") v) [
  | none ↦ other
  | some r ↦ elim (some_dots r) [ none ↦ other | some n ↦ tsi n ]
]

unfoldable pub field_value : ℕ → Bytes → SdpLine
unfolding connection_value media_value tsi_value
field_value f v =
    if f == b'c'
    then elim (connection_value v) [ none ↦ other | some a ↦ connection a ]
    else if f == b'm'
    then media_value v
    else if f == b'a'
    then tsi_value v
    else other

-- `^([a-z])\=(.+)$`, and the tests on the field.
unfoldable pub sdp_line : Bytes → SdpLine
unfolding field_value some_dots
sdp_line [] = other
sdp_line (f ∷ []) = other
sdp_line (f ∷ e ∷ v) =
    if leb b'a' f && leb f b'z' && e == b'='
    then elim (some_dots v) [ none ↦ other | some w ↦ field_value f w ]
    else other

-- A number without its sign; `stoul` refuses a text without digits and a number out of range.
stoul_digits : (ℕ → ℕ) → Bytes → Result ℕ
unfolding scan_digits
stoul_digits sign [] = throw standard
stoul_digits sign (c ∷ s) =
    if not (is_digit c)
    then throw standard
    else if ltb (2 ^ 64 - 1) (scan_digits 0 (c ∷ s))
    then throw standard
    else ok (sign (scan_digits 0 (c ∷ s)))

-- `-n` as an `unsigned long`
minus : ℕ → ℕ
minus n = if n == 0 then 0 else 2 ^ 64 - n

stoul_sign : Bytes → Result ℕ
unfolding stoul_digits minus
stoul_sign [] = throw standard
stoul_sign (c ∷ s) =
    if c == b'-'
    then stoul_digits minus s
    else if c == b'+'
    then stoul_digits (λ n. n) s
    else stoul_digits (λ n. n) (c ∷ s)

-- `std::stoul`
unfoldable pub stoul : Bytes → Result ℕ
unfolding stoul_sign trim_left
stoul s = stoul_sign (trim_left s)
