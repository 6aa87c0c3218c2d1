-- ===== src/Stream/Lines.antt =====
-- The lines of a session description whose values can be read.
use rt_mbms_mw.Prelude.{
  ℕ, ◌<◌, ◌^◌, true, ◌||◌, [], ◌∷◌, ◌++◌, Option, none, some, ◌≡◌, ◌≢◌, refl, ◌∙◌, arith, All, ◌==◌,
}
use rt_mbms_mw.Prelude.Decimal.{
  show_nat, show_nat-IsDigits, show_nat-ne-nil, scan_digits-show_nat, scan_digits, IsDigits,
}
use rt_mbms_mw.Prelude.Key.{Bytes}
use rt_mbms_mw.Prelude.Result.{ok}
use rt_mbms_mw.Prelude.Text.{codes, is_digit, Lacks}
use rt_mbms_mw.Stream.Sdp.{
  all_dots, some_dots, strip_prefix, greedy_group, two_groups, three_groups, address_chars,
  connection_value, connection, media, tsi, sdp_line, stoul,
}

-- A text without spaces and line ends.
pub record IsToken (s : Bytes) : Type 0 where
  pub ne_nil : s ≢ []
  pub dots : all_dots s ≡ true
  pub no_space : Lacks b' ' s

greedy_group-Lacks :
    {B : Type 0} (f : Bytes → Option B) (s : Bytes) → Lacks b' ' s → greedy_group f s ≡ none
unfolding greedy_group
greedy_group-Lacks f [] h = refl
greedy_group-Lacks f (c ∷ []) h = refl
greedy_group-Lacks f (c ∷ d ∷ s) (e, (g, h)) =
    rw (greedy_group-Lacks f (d ∷ s) (g, h), greedy_group) (ground arith)

greedy_group_space :
    {B : Type 0} (f : Bytes → Option B) (t : Bytes)
    → Lacks b' ' t
    → greedy_group f (b' ' ∷ t) ≡ none
unfolding greedy_group
greedy_group_space f t h = greedy_tail t h (greedy_group-Lacks f t h)
  where
    greedy_tail :
        (t : Bytes) → Lacks b' ' t → greedy_group f t ≡ none → greedy_group f (b' ' ∷ t) ≡ none
    greedy_tail [] h e = refl
    greedy_tail (d ∷ s) (g, h) e = rw (e, greedy_group) (ground arith)

-- With one space there is one way to split.
greedy_group_once :
    {B : Type 0} (f : Bytes → Option B) (c : ℕ) (p t : Bytes)
    → all_dots (c ∷ p) ≡ true
    → Lacks b' ' p
    → Lacks b' ' t
    → greedy_group f ((c ∷ p) ++ (b' ' ∷ t)) ≡ elim (f t) [ none ↦ none | some b ↦ some (c ∷ p, b) ]
unfolding greedy_group all_dots
greedy_group_once f c [] t d h k = rw (greedy_group_space f t k, greedy_group) (ground arith)
greedy_group_once f c (x ∷ p) t d (e, h) k =
    rw (greedy_group_once f x p t (ground arith) h k, greedy_group) (ground arith)

pub all_dots-append :
    (p s : Bytes) → all_dots p ≡ true → all_dots s ≡ true → all_dots (p ++ s) ≡ true
unfolding all_dots
all_dots-append [] s h k = k
all_dots-append (c ∷ p) s h k = ground (arith, all_dots-append p s)

some_dots_all : (s : Bytes) → s ≢ [] → all_dots s ≡ true → some_dots s ≡ some s
unfolding some_dots
some_dots_all [] ne h = absurd (ne refl)
some_dots_all (c ∷ s) ne h = rw h

pub two_groups_token :
    (p t : Bytes) → IsToken p → IsToken t → two_groups (p ++ (b' ' ∷ t)) ≡ some (p, t)
unfolding two_groups
two_groups_token [] t h k = absurd (h.ne_nil refl)
two_groups_token (c ∷ p) t h k =
    greedy_group_once some_dots c p t h.dots h.no_space.1 k.no_space
    ∙ rw (some_dots_all t k.ne_nil k.dots)

pub two_groups-Lacks : (t : Bytes) → Lacks b' ' t → two_groups t ≡ none
unfolding two_groups
two_groups-Lacks t h = greedy_group-Lacks some_dots t h

pub three_groups_token :
    (p t : Bytes) → IsToken p → IsToken t → three_groups (p ++ (b' ' ∷ t)) ≡ none
unfolding three_groups
three_groups_token [] t h k = absurd (h.ne_nil refl)
three_groups_token (c ∷ p) t h k =
    greedy_group_once two_groups c p t h.dots h.no_space.1 k.no_space
    ∙ rw (two_groups-Lacks t k.no_space)

-- The lines of a description for FLUTE.
abbrev pub connection_line : Bytes → Bytes
connection_line addr = codes "c=IN IP4 " ++ addr

abbrev pub media_line : Bytes → Bytes → Bytes
media_line port type = codes "m=application " ++ (port ++ (b' ' ∷ type))

abbrev pub tsi_line : ℕ → Bytes
tsi_line n = codes "a=flute-tsi:" ++ show_nat n

-- An address is made of digits and dots.
pub record IsAddress (s : Bytes) : Type 0 where
  pub ne_nil : s ≢ []
  pub chars : All (λ c. (is_digit c || c == b'.') ≡ true) s

address_chars-All :
    (s : Bytes) → All (λ c. (is_digit c || c == b'.') ≡ true) s → address_chars s ≡ (s, [])
unfolding address_chars
address_chars-All [] h = refl
address_chars-All (c ∷ s) (e, h) = rw (e, address_chars-All s h)

all_dots-address : (s : Bytes) → All (λ c. (is_digit c || c == b'.') ≡ true) s → all_dots s ≡ true
unfolding all_dots
all_dots-address [] h = refl
all_dots-address (c ∷ s) (e, h) = ground (arith, all_dots-address s h)

all_dots-digits : (s : Bytes) → IsDigits s → all_dots s ≡ true
unfolding all_dots
all_dots-digits [] h = refl
all_dots-digits (c ∷ s) (e, h) = ground (arith, all_dots-digits s h)

connection_value_address :
    (s : Bytes) → IsAddress s → connection_value (codes "IN IP4 " ++ s) ≡ some s
unfolding connection_value all_dots
connection_value_address [] h = absurd (h.ne_nil refl)
connection_value_address (c ∷ s) h = rw (address_chars-All (c ∷ s) h.chars)

pub sdp_line-connection : (s : Bytes) → IsAddress s → sdp_line (connection_line s) ≡ connection s
unfolding sdp_line all_dots
sdp_line-connection s h = rw (all_dots-address s h.chars, connection_value_address s h)

all_dots-token_pair : (p t : Bytes) → IsToken p → IsToken t → all_dots (p ++ (b' ' ∷ t)) ≡ true
unfolding all_dots
all_dots-token_pair p t h k = all_dots-append p (b' ' ∷ t) h.dots (rw k.dots)

pub sdp_line-media : (p t : Bytes) → IsToken p → IsToken t → sdp_line (media_line p t) ≡ media p t
unfolding sdp_line all_dots strip_prefix
sdp_line-media p t h k =
    rw (all_dots-token_pair p t h k, two_groups_token p t h k, three_groups_token p t h k)

pub sdp_line-tsi : (n : ℕ) → sdp_line (tsi_line n) ≡ tsi (show_nat n)
unfolding sdp_line all_dots strip_prefix
sdp_line-tsi n =
    let dots = all_dots-digits (show_nat n) (show_nat-IsDigits n) in
    ground (arith, dots, some_dots_all (show_nat n) (show_nat-ne-nil n) dots)

pub stoul-show_nat : (n : ℕ) → n < 2 ^ 64 → stoul (show_nat n) ≡ ok n
unfolding stoul
stoul-show_nat n h =
    stoul_read (show_nat n) n (show_nat-ne-nil n) (show_nat-IsDigits n) (scan_digits-show_nat n) h
  where
    stoul_read :
        (s : Bytes) (n : ℕ)
        → s ≢ []
        → IsDigits s
        → scan_digits 0 s ≡ n
        → n < 2 ^ 64
        → stoul s ≡ ok n
    stoul_read [] n ne d e h = absurd (ne refl)
    stoul_read (c ∷ s) n ne (d, _) e h = ground arith
