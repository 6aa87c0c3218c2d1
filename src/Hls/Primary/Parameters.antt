-- ===== src/Hls/Primary/Parameters.antt =====
-- `HlsPrimaryPlaylist::parse_parameters`: the list `key=value,key="value",…` of a stream.
use rt_mbms_mw.Prelude.{
  ℕ, Bool, true, false, not, ◌&&◌, List, [], ◌∷◌, ◌++◌, ◌≡◌, refl, ap, ◌∙◌, arith, ◌==◌,
  if◌then◌else◌, append_assoc, append-nil, All, map,
}
use rt_mbms_mw.Prelude.Key.{Bytes}
use rt_mbms_mw.Prelude.Text.{Lacks}

-- The variables of the loop.
pub record ParameterParser : Type 0 where
  pub result : List (Bytes × Bytes)
  pub quoted : Bool
  pub in_key : Bool
  pub key : Bytes
  pub value : Bytes

emit : ParameterParser → List (Bytes × Bytes)
emit p = p.result ++ ((p.key, p.value) ∷ [])

parameter_char : ParameterParser → ℕ → ParameterParser
unfolding emit
parameter_char p c =
    if c == b'"'
    then record p { quoted = not p.quoted }
    else if c == b',' && not p.quoted
    then record p { result = emit p; key = []; value = []; in_key = true }
    else if c == b'='
    then record p { in_key = false }
    else if p.in_key
    then record p { key = p.key ++ (c ∷ []) }
    else record p { value = p.value ++ (c ∷ []) }

parameter_chars : ParameterParser → Bytes → ParameterParser
parameter_chars p [] = p
parameter_chars p (c ∷ s) = parameter_chars (parameter_char p c) s

abbrev parameter_init : ParameterParser
parameter_init = record { result = []; quoted = false; in_key = true; key = []; value = [] }

unfoldable pub parse_parameters : Bytes → List (Bytes × Bytes)
unfolding emit parameter_chars parameter_char
parse_parameters line = emit (parameter_chars parameter_init line)

-- A name or a value without quotes, in which nothing is special.
pub record IsPlain (s : Bytes) : Type 0 where
  pub no_quote : Lacks b'"' s
  pub no_comma : Lacks b',' s
  pub no_equals : Lacks b'=' s

-- A value between quotes, in which a comma is a letter.
pub record IsQuotable (s : Bytes) : Type 0 where
  pub no_quote : Lacks b'"' s
  pub no_equals : Lacks b'=' s

parameter_chars-append :
    (p : ParameterParser) (s t : Bytes)
    → parameter_chars p (s ++ t) ≡ parameter_chars (parameter_chars p s) t
unfolding parameter_chars
parameter_chars-append p [] t = refl
parameter_chars-append p (c ∷ s) t = parameter_chars-append (parameter_char p c) s t

chars_key :
    (p : ParameterParser) (s : Bytes)
    → p.quoted ≡ false
    → p.in_key ≡ true
    → IsPlain s
    → parameter_chars p s ≡ record p { key = p.key ++ s }
unfolding parameter_chars parameter_char
chars_key p [] q k h = rw append-nil
chars_key p (c ∷ s) q k h = ground (
  arith,
  chars_key (record p { key = p.key ++ (c ∷ []) }) s q k
      (record { no_quote = h.no_quote.1; no_comma = h.no_comma.1; no_equals = h.no_equals.1 }),
  append_assoc p.key (c ∷ []) s,
)

chars_value :
    (p : ParameterParser) (s : Bytes)
    → p.quoted ≡ false
    → p.in_key ≡ false
    → IsPlain s
    → parameter_chars p s ≡ record p { value = p.value ++ s }
unfolding parameter_chars parameter_char
chars_value p [] q k h = rw append-nil
chars_value p (c ∷ s) q k h = ground (
  arith,
  chars_value (record p { value = p.value ++ (c ∷ []) }) s q k
      (record { no_quote = h.no_quote.1; no_comma = h.no_comma.1; no_equals = h.no_equals.1 }),
  append_assoc p.value (c ∷ []) s,
)

chars_quoted :
    (p : ParameterParser) (s : Bytes)
    → p.quoted ≡ true
    → p.in_key ≡ false
    → IsQuotable s
    → parameter_chars p s ≡ record p { value = p.value ++ s }
unfolding parameter_chars parameter_char
chars_quoted p [] q k h = rw append-nil
chars_quoted p (c ∷ s) q k h = ground (
  arith,
  chars_quoted (record p { value = p.value ++ (c ∷ []) }) s q k
      (record { no_quote = h.no_quote.1; no_equals = h.no_equals.1 }),
  append_assoc p.value (c ∷ []) s,
)

-- A parameter as it is written: with its value between quotes, or plain.
pub record Parameter : Type 0 where
  pub key : Bytes
  pub value : Bytes
  pub quoted : Bool

abbrev pub render_value : Bool → Bytes → Bytes
render_value false v = v
render_value true v = b'"' ∷ (v ++ (b'"' ∷ []))

abbrev pub render_one : Parameter → Bytes
render_one x = x.key ++ (b'=' ∷ render_value x.quoted x.value)

-- The parameters, with commas between them.
abbrev pub render : Parameter → List Parameter → Bytes
render x [] = render_one x
render x (y ∷ ys) = render_one x ++ (b',' ∷ render y ys)

abbrev pub IsWritableValue : Bool → Bytes → Type 0
IsWritableValue false v = IsPlain v
IsWritableValue true v = IsQuotable v

pub record IsWritable (x : Parameter) : Type 0 where
  pub plain_key : IsPlain x.key
  pub writable_value : IsWritableValue x.quoted x.value

abbrev pub pair_of : Parameter → Bytes × Bytes
pair_of x = (x.key, x.value)

chars_render_value :
    (p : ParameterParser) (q : Bool) (v : Bytes)
    → p.quoted ≡ false
    → p.in_key ≡ false
    → p.value ≡ []
    → IsWritableValue q v
    → parameter_chars p (render_value q v) ≡ record p { value = v }
chars_render_value p false v hq hk hv h = chars_value p v hq hk h ∙ rw hv
chars_render_value p true v hq hk hv h =
    let inside = record p { quoted = true } in
    unfold parameter_chars parameter_char in
    rw hq (
      parameter_chars-append inside v (b'"' ∷ [])
      ∙ rw (chars_quoted inside v refl hk h, parameter_chars, parameter_char) (ground arith))

chars_render_one :
    (r : List (Bytes × Bytes)) (x : Parameter)
    → IsWritable x
    → parameter_chars (record parameter_init { result = r }) (render_one x)
      ≡ record { result = r; quoted = false; in_key = false; key = x.key; value = x.value }
chars_render_one r x h =
    let start = record parameter_init { result = r } in
    parameter_chars-append start x.key _
    ∙ rw (chars_key start x.key refl refl h.plain_key) (
        unfold parameter_chars parameter_char in
        chars_render_value (record start { key = x.key; in_key = false }) x.quoted x.value refl refl
          refl h.writable_value)

chars_comma :
    (r : List (Bytes × Bytes)) (k v s : Bytes)
    → parameter_chars
        (record { result = r; quoted = false; in_key = false; key = k; value = v })
        (b',' ∷ s)
      ≡ parameter_chars (record parameter_init { result = r ++ ((k, v) ∷ []) }) s
unfolding parameter_chars parameter_char emit
chars_comma r k v s = refl

chars_render :
    (r : List (Bytes × Bytes)) (x : Parameter) (xs : List Parameter)
    → All IsWritable (x ∷ xs)
    → emit (parameter_chars (record parameter_init { result = r }) (render x xs))
      ≡ r ++ map pair_of (x ∷ xs)
chars_render r x [] (h, _) = rw (chars_render_one r x h) (unfold emit in refl)
chars_render r x (y ∷ ys) (h, hs) =
    let start = record parameter_init { result = r } in
    ap emit (
      parameter_chars-append start (render_one x) _
      ∙ rw (chars_render_one r x h) (chars_comma r x.key x.value (render y ys)))
    ∙ chars_render (r ++ (pair_of x ∷ [])) y ys hs
    ∙ append_assoc r (pair_of x ∷ []) _

-- A list of parameters, each with a plain key and a value that is plain or stands between quotes
-- (where it may hold commas), is parsed into its keys and values, in order.
pub parse_parameters-render :
    (x : Parameter) (xs : List Parameter)
    → All IsWritable (x ∷ xs)
    → parse_parameters (render x xs) ≡ map pair_of (x ∷ xs)
unfolding parse_parameters
parse_parameters-render x xs h = chars_render [] x xs h
