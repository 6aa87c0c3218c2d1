-- ===== src/Announcement/Action.antt =====
-- A call of the source that changes objects: it gives the way in which it ends, and the objects
-- afterwards. What was written before an exception stays written.
use rt_mbms_mw.Prelude.{List, [], ◌∷◌, Option, none, some}
use rt_mbms_mw.Prelude.Result.{Result, terminate, throw, ok, Exception, literal, standard}

abbrev pub Action : Type 0 → Type 0 → Type 0
Action W X = W → Result X × W

-- The value of a call that returns nothing.
abbrev pub Nothing : Type 0
Nothing = Unit {0}

module _ {W X : Type 0} where
  abbrev pub return : X → Action W X
  return x w = (ok x, w)

  -- The end of the process, which stands for undefined behaviour too.
  abbrev pub crash : Action W X
  crash w = (terminate, w)

  abbrev pub raise : Exception → Action W X
  raise e w = (throw e, w)

  abbrev pub ask : (W → X) → Action W X
  ask f w = (ok (f w), w)

  -- A pointer that is dereferenced.
  unfoldable pub not_null : Option X → Action W X
  not_null none = crash
  not_null (some x) = return x

  -- A call that changes the objects if it returns.
  unfoldable pub settle : Result X → (X → W) → Action W Nothing
  settle terminate f w = (terminate, w)
  settle (throw e) f w = (throw e, w)
  settle (ok x) f w = (ok tt, f x)

module _ {W : Type 0} where
  abbrev pub change : (W → W) → Action W Nothing
  change f w = (ok tt, f w)

  -- `std::string` of a null pointer throws.
  unfoldable pub string_of : {X : Type 0} → Option X → Action W X
  string_of none = raise standard
  string_of (some s) = return s

  -- `try { … } catch (std::exception)`
  unfoldable pub handled : Result Nothing × W → Result Nothing × W
  handled (ok r, w) = (ok r, w)
  handled (terminate, w) = (terminate, w)
  handled (throw literal, w) = (throw literal, w)
  handled (throw standard, w) = (ok tt, w)

  unfoldable pub catching : Action W Nothing → Action W Nothing
  unfolding handled
  catching m w = handled (m w)

module _ {W X Y : Type 0} where
  unfoldable pub continue : (X → Action W Y) → Result X × W → Result Y × W
  continue f (terminate, w) = (terminate, w)
  continue f (throw e, w) = (throw e, w)
  continue f (ok x, w) = f x w

  infixl 5 ◌>>=◌ ◌>>◌
  unfoldable pub ◌>>=◌ : Action W X → (X → Action W Y) → Action W Y
  unfolding continue
  ◌>>=◌ m f w = continue f (m w)

  unfoldable pub ◌>>◌ : Action W X → Action W Y → Action W Y
  unfolding ◌>>=◌
  m >> k = m >>= λ _. k

module _ {W X : Type 0} where
  -- A loop over a list.
  unfoldable pub for_each : (X → Action W Nothing) → List X → Action W Nothing
  unfolding ◌>>◌
  for_each f [] = return tt
  for_each f (x ∷ xs) = f x >> for_each f xs

  -- A loop that carries variables.
  unfoldable pub fold_each : {V : Type 0} → (X → V → Action W V) → List X → V → Action W V
  unfolding ◌>>=◌
  fold_each f [] v = return v
  fold_each f (x ∷ xs) v = f x v >>= fold_each f xs
