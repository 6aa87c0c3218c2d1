-- ===== src/Prelude/Text.antt =====
-- The string operations that the source takes from the standard library and from Boost.
use Prim.Native.Char.{code}
use Prim.Native.String.{String}
use rt_mbms_mw.Prelude.{
  ℕ, Bool, true, false, ◌&&◌, ◌||◌, List, [], ◌∷◌, ◌++◌, Option, none, some, ◌≡◌, refl, arith,
  if◌then◌else◌, leb, ◌==◌, All, All-append,
}
use rt_mbms_mw.Prelude.Key.{Bytes}

-- The bytes of an ASCII literal.
abbrev pub codes : String → Bytes
codes String.[] = []
codes (String.◌∷◌ c s) = code c ∷ codes s

-- `std::isspace` in the "C" locale
unfoldable pub is_space : ℕ → Bool
is_space c = c == b' ' || (leb 9 c && leb c 13)

abbrev pub is_digit : ℕ → Bool
is_digit c = leb b'0' c && leb c b'9'

-- `s.rfind(prefix, 0) == 0`
unfoldable pub starts_with : Bytes → Bytes → Bool
starts_with [] s = true
starts_with (p ∷ ps) [] = false
starts_with (p ∷ ps) (c ∷ s) = p == c && starts_with ps s

-- `s.substr(s.rfind(c) + 1)`; `none` stands for `npos`.
unfoldable pub after_last : ℕ → Bytes → Option Bytes
after_last c [] = none
after_last c (x ∷ s) = elim (after_last c s) [
  | some r ↦ some r
  | none ↦ if x == c then some s else none
]

-- `s.find(pattern) != npos`
unfoldable pub contains : Bytes → Bytes → Bool
unfolding starts_with
contains p [] = starts_with p []
contains p (c ∷ s) = let rest = contains p s in if starts_with p (c ∷ s) then true else rest

push_front : ℕ → List Bytes → List Bytes
push_front c [] = (c ∷ []) ∷ []
push_front c (l ∷ ls) = (c ∷ l) ∷ ls

-- The lines that `while (std::getline(iss, line))` sees.
unfoldable pub lines : Bytes → List Bytes
unfolding push_front
lines [] = []
lines (c ∷ s) = let rest = lines s in if c == b'\n' then [] ∷ rest else push_front c rest

-- `boost::algorithm::trim_left`
unfoldable pub trim_left : Bytes → Bytes
unfolding is_space
trim_left [] = []
trim_left (c ∷ s) = let rest = trim_left s in if is_space c then rest else c ∷ s

trim_cons : ℕ → Bytes → Bytes
unfolding is_space
trim_cons c [] = if is_space c then [] else c ∷ []
trim_cons c (d ∷ s) = c ∷ d ∷ s

trim_right : Bytes → Bytes
unfolding trim_cons
trim_right [] = []
trim_right (c ∷ s) = trim_cons c (trim_right s)

-- `boost::algorithm::trim`
unfoldable pub trim : Bytes → Bytes
unfolding trim_left trim_right
trim s = trim_right (trim_left s)

-- No byte of the text is white space.
abbrev pub IsSolid : Bytes → Type 0
IsSolid = All (λ c. is_space c ≡ false)

abbrev pub Lacks : ℕ → Bytes → Type 0
Lacks b = All (λ c. (c == b) ≡ false)

trim_right-solid : (s : Bytes) → IsSolid s → trim_right s ≡ s
unfolding trim_right
trim_right-solid [] h = refl
trim_right-solid (c ∷ []) (h, _) = rw h refl
trim_right-solid (c ∷ d ∷ s) (h, k) = rw (trim_right-solid (d ∷ s) k, trim_right)

pub trim-solid : (s : Bytes) → IsSolid s → trim s ≡ s
unfolding trim
trim-solid [] h = refl
trim-solid (c ∷ s) (h, k) = rw h (trim_right-solid (c ∷ s) (h, k))

pub lines-append : (l rest : Bytes) → Lacks b'\n' l → lines (l ++ (b'\n' ∷ rest)) ≡ l ∷ lines rest
unfolding lines
lines-append [] rest h = refl
lines-append (c ∷ l) rest (h, k) = rw (h, lines-append l rest k) refl

pub IsSolid-Lacks_newline : (s : Bytes) → IsSolid s → Lacks b'\n' s
unfolding is_space
IsSolid-Lacks_newline [] h = tt
IsSolid-Lacks_newline (c ∷ s) (h, k) = (ground arith, IsSolid-Lacks_newline s k)

after_last-Lacks : (c : ℕ) (s : Bytes) → Lacks c s → after_last c s ≡ none
unfolding after_last
after_last-Lacks c [] h = refl
after_last-Lacks c (x ∷ s) (h, k) = rw (after_last-Lacks c s k, h, after_last) refl

pub after_last-append : (c : ℕ) (p s : Bytes) → Lacks c s → after_last c (p ++ (c ∷ s)) ≡ some s
unfolding after_last
after_last-append c [] s h = ground (arith, after_last-Lacks c s h)
after_last-append c (x ∷ p) s h = rw (after_last-append c p s h, after_last)

pub starts_with-append : (p s : Bytes) → starts_with p (p ++ s) ≡ true
unfolding starts_with
starts_with-append [] s = refl
starts_with-append (c ∷ p) s = ground (arith, starts_with-append p s)

unfoldable pub is_solid : Bytes → Bool
unfolding is_space
is_solid [] = true
is_solid (c ∷ s) = if is_space c then false else is_solid s

-- A literal is checked by evaluation, with `is_solid` unfolded.
pub is_solid-IsSolid : (s : Bytes) → is_solid s ≡ true → IsSolid s
unfolding is_solid
is_solid-IsSolid [] h = tt
is_solid-IsSolid (c ∷ s) h = (ground arith, is_solid-IsSolid s (ground arith))

-- The text behind a literal is solid with it.
pub IsSolid-append : (p s : Bytes) → is_solid p ≡ true → IsSolid s → IsSolid (p ++ s)
IsSolid-append p s h = All-append (λ c. is_space c ≡ false) p s (is_solid-IsSolid p h)

-- Whether the byte stands in the text.
unfoldable pub has : ℕ → Bytes → Bool
has b [] = false
has b (c ∷ s) = c == b || has b s

pub has-Lacks : (b : ℕ) (s : Bytes) → has b s ≡ false → Lacks b s
unfolding has
has-Lacks b [] h = tt
has-Lacks b (c ∷ s) h = (ground arith, has-Lacks b s (ground arith))

pub Lacks-append : (b : ℕ) (p s : Bytes) → has b p ≡ false → Lacks b s → Lacks b (p ++ s)
Lacks-append b p s h = All-append (λ c. (c == b) ≡ false) p s (has-Lacks b p h)

-- White space and colons are missing.
abbrev pub IsWord : Bytes → Type 0
IsWord s = IsSolid s × Lacks b':' s

pub IsWord-append : (p s : Bytes) → IsWord p → IsWord s → IsWord (p ++ s)
IsWord-append p s (u, v) (u', v') = (All-append _ p s u u', All-append _ p s v v')

-- A literal is checked by evaluation, with `is_solid` and `has` unfolded.
pub IsWord-literal :
    (p s : Bytes) → is_solid p ≡ true → has b':' p ≡ false → IsWord s → IsWord (p ++ s)
IsWord-literal p s h k = IsWord-append p s (is_solid-IsSolid p h, has-Lacks b':' p k)
