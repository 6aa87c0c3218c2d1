-- ===== src/Announcement/Caught.antt =====
-- Which exceptions leave the parser of an announcement.
use rt_mbms_mw.Prelude.{Bool, true, false, List, [], ◌∷◌, ◌≢◌, refl, if◌then◌else◌}
use rt_mbms_mw.Prelude.Float.{Float}
use rt_mbms_mw.Prelude.Key.{Bytes, equal}
use rt_mbms_mw.Prelude.Result.{Result, ok, throw, terminate, literal, standard}
use rt_mbms_mw.Announcement.{Item}
use rt_mbms_mw.Announcement.Action.{
  Action, Nothing, return, ask, change, handled, catching, continue, ◌>>=◌, ◌>>◌, for_each,
}
use rt_mbms_mw.Announcement.Bundle.{add_items, handle_bundle, if_type, parse_bootstrap}
use rt_mbms_mw.Announcement.Envelope.{handle_mbms_envelope}
use rt_mbms_mw.Announcement.World.{World, Setting}

-- No exception of the standard library leaves the call.
pub record IsCaught {W X : Type 0} (m : Action W X) : Type 0 where
  pub at : (w : W) → (m w).0 ≢ throw standard

module _ {W : Type 0} where
  handled-caught : (r : Result Nothing) (w : W) → (handled (r, w)).0 ≢ throw standard
  unfolding handled
  handled-caught (ok x) w e = cc
  handled-caught terminate w e = cc
  handled-caught (throw literal) w e = cc
  handled-caught (throw standard) w e = cc

  catching-IsCaught : (m : Action W Nothing) → IsCaught (catching m)
  unfolding catching
  catching-IsCaught m = record { at = λ w. handled-caught (m w).0 (m w).1 }

  return-IsCaught : {X : Type 0} (x : X) → IsCaught {W = W} (return x)
  return-IsCaught x = record { at = λ w e. cc }

  change-IsCaught : (f : W → W) → IsCaught (change f)
  change-IsCaught f = record { at = λ w e. cc }

  ask-IsCaught : {X : Type 0} (f : W → X) → IsCaught (ask f)
  ask-IsCaught f = record { at = λ w e. cc }

module _ {W X Y : Type 0} where
  continue-caught :
      (f : X → Action W Y) (r : Result X) (w : W)
      → ((x : X) → IsCaught (f x))
      → r ≢ throw standard
      → (continue f (r, w)).0 ≢ throw standard
  unfolding continue
  continue-caught f terminate w k n e = cc
  continue-caught f (throw literal) w k n e = cc
  continue-caught f (throw standard) w k n e = n refl
  continue-caught f (ok x) w k n e = (k x).at w e

  bind-IsCaught :
      (m : Action W X) (f : X → Action W Y)
      → IsCaught m
      → ((x : X) → IsCaught (f x))
      → IsCaught (m >>= f)
  unfolding ◌>>=◌
  bind-IsCaught m f k l = record { at = λ w. continue-caught f (m w).0 (m w).1 l (k.at w) }

  then-IsCaught : (m : Action W X) (n : Action W Y) → IsCaught m → IsCaught n → IsCaught (m >> n)
  unfolding ◌>>◌
  then-IsCaught m n k l = bind-IsCaught m (λ _. n) k (λ _. l)

module _ {W X : Type 0} where
  for_each-IsCaught :
      (f : X → Action W Nothing) (xs : List X)
      → ((x : X) → IsCaught (f x))
      → IsCaught (for_each f xs)
  unfolding for_each
  for_each-IsCaught f [] k = return-IsCaught tt
  for_each-IsCaught f (x ∷ xs) k =
      then-IsCaught (f x) (for_each f xs) (k x) (for_each-IsCaught f xs k)

module _ {F D : Type 0} where
  if_type-IsCaught :
      (type : Bytes) (f : Item → Action (World F D) Nothing) (i : Item)
      → ((j : Item) → IsCaught (f j))
      → IsCaught (if_type type f i)
  unfolding if_type
  if_type-IsCaught type f i k = chosen (equal i.content_type type)
    where
      chosen : (b : Bool) → IsCaught (if b then f i else return tt)
      chosen true = k i
      chosen false = return-IsCaught tt

module _ {E F D : Type 0} (g : Setting E D) where
  add_items-IsCaught : (str : Bytes) → IsCaught (add_items {F = F} g str)
  unfolding add_items
  add_items-IsCaught str = change-IsCaught _

  envelope-IsCaught : (i : Item) → IsCaught (handle_mbms_envelope {F = F} g i)
  unfolding handle_mbms_envelope
  envelope-IsCaught i = catching-IsCaught _

  module _ ⦃float : Float D⦄ where
    bundle-IsCaught : (i : Item) (format : Bytes) → IsCaught (handle_bundle {F = F} g i format)
    unfolding handle_bundle
    bundle-IsCaught i format = catching-IsCaught _

    bootstrap-IsCaught : (str : Bytes) → IsCaught (parse_bootstrap {F = F} g str)
    unfolding parse_bootstrap
    bootstrap-IsCaught str =
        search
          (
            then-IsCaught, bind-IsCaught, for_each-IsCaught, ask-IsCaught, add_items-IsCaught,
            if_type-IsCaught, envelope-IsCaught, bundle-IsCaught,
          )
          depth 9

    -- No exception of the standard library leaves the parser of an announcement, whatever the text
    -- is and whatever the state. It says nothing of the other ways to end: a string literal that is
    -- thrown, and the end of the process.
    pub parse_bootstrap-caught :
        (str : Bytes) (w : World F D) → (parse_bootstrap g str w).0 ≢ throw standard
    parse_bootstrap-caught str w = (bootstrap-IsCaught str).at w
