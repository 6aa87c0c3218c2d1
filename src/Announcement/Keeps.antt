-- ===== src/Announcement/Keeps.antt =====
-- What actions keep: one rule for each way to build an action, and what the rules make of the code.
use rt_mbms_mw.Prelude.{Bool, true, false, List, [], ◌∷◌, Option, none, some, if◌then◌else◌}
use rt_mbms_mw.Prelude.Result.{Result, ok, throw, terminate, Exception, literal, standard, WhenOk}
use rt_mbms_mw.Announcement.Action.{
  Action, Nothing, return, crash, raise, ask, change, not_null, settle, string_of, handled,
  catching, continue, ◌>>=◌, ◌>>◌, for_each, fold_each,
}

-- However the action ends, the objects have the property if they had it before.
pub record Keeps {W X : Type 0} (P : W → Type 0) (m : Action W X) : Type 0 where
  pub at : (w : W) → P w → P (m w).1

module _ {W X : Type 0} {P : W → Type 0} where
  pub Keeps-return : (x : X) → Keeps P (return x)
  Keeps-return x = record { at = λ w h. h }

  pub Keeps-crash : Keeps P (crash {X = X})
  Keeps-crash = record { at = λ w h. h }

  pub Keeps-raise : (e : Exception) → Keeps P (raise {X = X} e)
  Keeps-raise e = record { at = λ w h. h }

  pub Keeps-ask : (f : W → X) → Keeps P (ask f)
  Keeps-ask f = record { at = λ w h. h }

  pub Keeps-not_null : (o : Option X) → Keeps P (not_null o)
  unfolding not_null
  Keeps-not_null none = Keeps-crash
  Keeps-not_null (some x) = Keeps-return x

  pub Keeps-string_of : (o : Option X) → Keeps P (string_of o)
  unfolding string_of
  Keeps-string_of none = Keeps-raise standard
  Keeps-string_of (some x) = Keeps-return x

  pub Keeps-if :
      (b : Bool) (m n : Action W X) → Keeps P m → Keeps P n → Keeps P (if b then m else n)
  Keeps-if true m n k l = k
  Keeps-if false m n k l = l

module _ {W X : Type 0} (P : W → Type 0) where
  pub settle-kept :
      (r : Result X) (f : X → W) (w : W) → P w → WhenOk (λ x. P (f x)) r → P (settle r f w).1
  unfolding settle
  settle-kept terminate f w h k = h
  settle-kept (throw e) f w h k = h
  settle-kept (ok x) f w h k = k

module _ {W : Type 0} (P : W → Type 0) where
  handled-kept : (r : Result Nothing) (w : W) → P w → P (handled (r, w)).1
  unfolding handled
  handled-kept (ok x) w h = h
  handled-kept terminate w h = h
  handled-kept (throw literal) w h = h
  handled-kept (throw standard) w h = h

module _ {W : Type 0} {P : W → Type 0} where
  pub Keeps-change : (f : W → W) → ((w : W) → P w → P (f w)) → Keeps P (change f)
  Keeps-change f k = record { at = k }

  pub Keeps-catching : (m : Action W Nothing) → Keeps P m → Keeps P (catching m)
  unfolding catching
  Keeps-catching m k = record { at = λ w h. handled-kept P (m w).0 (m w).1 (k.at w h) }

module _ {W X Y : Type 0} {P : W → Type 0} where
  continue-kept :
      (f : X → Action W Y) (r : Result X) (w : W)
      → ((x : X) → Keeps P (f x))
      → P w
      → P (continue f (r, w)).1
  unfolding continue
  continue-kept f terminate w k h = h
  continue-kept f (throw e) w k h = h
  continue-kept f (ok x) w k h = (k x).at w h

  pub Keeps-bind :
      (m : Action W X) (f : X → Action W Y)
      → Keeps P m
      → ((x : X) → Keeps P (f x))
      → Keeps P (m >>= f)
  unfolding ◌>>=◌
  Keeps-bind m f k l = record { at = λ w h. continue-kept f (m w).0 (m w).1 l (k.at w h) }

  pub Keeps-then : (m : Action W X) (n : Action W Y) → Keeps P m → Keeps P n → Keeps P (m >> n)
  unfolding ◌>>◌
  Keeps-then m n k l = Keeps-bind m (λ _. n) k (λ _. l)

module _ {W X : Type 0} {P : W → Type 0} where
  pub Keeps-for_each :
      (f : X → Action W Nothing) (xs : List X) → ((x : X) → Keeps P (f x)) → Keeps P (for_each f xs)
  unfolding for_each
  Keeps-for_each f [] k = Keeps-return tt
  Keeps-for_each f (x ∷ xs) k = Keeps-then (f x) (for_each f xs) (k x) (Keeps-for_each f xs k)

  pub Keeps-fold_each :
      {V : Type 0} (f : X → V → Action W V) (xs : List X) (v : V)
      → ((x : X) (u : V) → Keeps P (f x u))
      → Keeps P (fold_each f xs v)
  unfolding fold_each
  Keeps-fold_each f [] v k = Keeps-return v
  Keeps-fold_each f (x ∷ xs) v k =
      Keeps-bind (f x v) (fold_each f xs) (k x v) (λ u. Keeps-fold_each f xs u k)

pub ruleset keeps_rules = (
  Keeps-return, Keeps-crash, Keeps-raise, Keeps-ask, Keeps-not_null, Keeps-string_of, Keeps-if,
  Keeps-catching, Keeps-bind, Keeps-then, Keeps-for_each, Keeps-fold_each,
)
