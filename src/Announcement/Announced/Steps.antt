-- ===== src/Announcement/Announced/Steps.antt =====
-- Calls that return, one behind another, and the calls to the service that was made last.
use rt_mbms_mw.Prelude.Float.{Float}
use rt_mbms_mw.Prelude.{
  Bool, true, false, List, [], ◌∷◌, ◌++◌, Option, none, some, ◌≡◌, refl, ap, ◌∙◌, All, length,
  get_elem?, set, get_elem?-length, ℕ,
}
use rt_mbms_mw.Prelude.Key.{Bytes, bytes_key}
use rt_mbms_mw.Prelude.Result.{ok}
use rt_mbms_mw.Announcement.{Item}
use rt_mbms_mw.Announcement.Action.{
  Action, Nothing, not_null, for_each, continue, ◌>>=◌, ◌>>◌, settle,
}
use rt_mbms_mw.Announcement.Bundle.{read_name, register_service, found_or_new, get_service}
use rt_mbms_mw.Announcement.World.{
  World, Setting, set_services, ask_service, change_service, add_stream, stream_added,
}
use rt_mbms_mw.Announcement.Xml.{lang, name_element}
use rt_mbms_mw.Service.{Service, add_name, service_init, AnyStream, add_and_start_content_stream}

module _ {W X Y : Type 0} where
  pub >>=-ok :
      (m : Action W X) (f : X → Action W Y) {x : X} {w v : W}
      → m w ≡ (ok x, v)
      → (m >>= f) w ≡ f x v
  unfolding ◌>>=◌ continue
  >>=-ok m f e = ap (continue f) e

  pub >>-ok :
      (m : Action W X) (k : Action W Y) {x : X} {w v : W} → m w ≡ (ok x, v) → (m >> k) w ≡ k v
  unfolding ◌>>◌ ◌>>=◌ continue
  >>-ok m k e = ap (continue (λ _. k)) e

module _ {W X : Type 0} where
  -- The call changes nothing.
  abbrev pub Skips : (X → Action W Nothing) → X → Type 0
  Skips f x = (w : W) → f x w ≡ (ok tt, w)

  pub for_each-Skips :
      (f : X → Action W Nothing) (xs : List X) (w : W)
      → All (Skips f) xs
      → for_each f xs w ≡ (ok tt, w)
  unfolding for_each
  for_each-Skips f [] w h = refl
  for_each-Skips f (x ∷ xs) w (h, hs) = >>-ok (f x) (for_each f xs) (h w) ∙ for_each-Skips f xs w hs

  -- Only one round of the loop does anything.
  pub for_each_one :
      (f : X → Action W Nothing) (xs : List X) (x : X) (ys : List X) (w v : W)
      → All (Skips f) xs
      → All (Skips f) ys
      → f x w ≡ (ok tt, v)
      → for_each f (xs ++ (x ∷ ys)) w ≡ (ok tt, v)
  unfolding for_each
  for_each_one f [] x ys w v a b e = >>-ok (f x) (for_each f ys) e ∙ for_each-Skips f ys v b
  for_each_one f (y ∷ xs) x ys w v (h, a) b e =
      >>-ok (f y) (for_each f (xs ++ (x ∷ ys))) (h w) ∙ for_each_one f xs x ys w v a b e

-- The only item that passes the test.
pub record IsOnly (test : Item → Bool) (items : List Item) (i : Item) : Type 0 where
  pub before : List Item
  pub after : List Item
  pub split : items ≡ before ++ (i ∷ after)
  pub passes : test i ≡ true
  pub none_before : All (λ j. test j ≡ false) before
  pub none_after : All (λ j. test j ≡ false) after

pub set-length :
    {A : Type 0} (xs : List A) (x y : A) → set (xs ++ (x ∷ [])) (length xs) y ≡ xs ++ (y ∷ [])
set-length [] x y = refl
set-length (z ∷ xs) x y = ap (◌∷◌ z) (set-length xs x y)

-- The service with other names.
abbrev pub named : {D : Type 0} → List (Bytes × Bytes) → Service D → Service D
named names s = record s { names = names }

module _ {F D : Type 0} where
  -- The last service is `s`, behind those of `xs`.
  abbrev pub Last : List (Service D) → Service D → World F D → Type 0
  Last xs s w = w.backend.services ≡ xs ++ (s ∷ [])

  pub service_at-Last :
      (xs : List (Service D)) (s : Service D) (w : World F D)
      → Last xs s w
      → get_elem? w.backend.services (length xs) ≡ some s
  service_at-Last xs s w e = ap (λ l. get_elem? l (length xs)) e ∙ get_elem?-length xs s

  pub ask_service-Last :
      {X : Type 0} (f : Service D → X) (xs : List (Service D)) (s : Service D) (w : World F D)
      → Last xs s w
      → ask_service f (length xs) w ≡ (ok (f s), w)
  unfolding ask_service ◌>>=◌ continue not_null
  ask_service-Last f xs s w e = rw (service_at-Last xs s w e, not_null, continue) refl

  pub change_service-Last :
      (f : Service D → Service D) (xs : List (Service D)) (s : Service D) (w : World F D)
      → Last xs s w
      → change_service f (length xs) w ≡ (ok tt, set_services (xs ++ (f s ∷ [])) w)
  unfolding change_service
  change_service-Last f xs s w e =
      >>=-ok (ask_service f (length xs)) _ (ask_service-Last f xs s w e)
      ∙ ap (λ l. (ok tt, set_services l w))
          (ap (λ l. set l (length xs) (f s)) e ∙ set-length xs s (f s))

  same_services :
      (xs : List (Service D)) (s : Service D) (w : World F D)
      → Last xs s w
      → w ≡ set_services (xs ++ (s ∷ [])) w
  same_services xs s w e = ap (λ l. set_services l w) e

  read_name-Last :
      (o p : Option Bytes) (xs : List (Service D)) (s : Service D) (w : World F D)
      → Last xs s w
      → (names : List (Bytes × Bytes)) × (read_name (length xs) o p w
          ≡ (ok tt, set_services (xs ++ (named names s ∷ [])) w))
  unfolding read_name add_name
  read_name-Last (some name) (some language) xs s w e =
      (_, change_service-Last (add_name name language) xs s w e)
  read_name-Last none language xs s w e = (s.names, ap (λ v. (ok tt, v)) (same_services xs s w e))
  read_name-Last (some name) none xs s w e =
      (s.names, ap (λ v. (ok tt, v)) (same_services xs s w e))

  names-Last :
      {E : Type 0} (name language : E → Option Bytes) (es : List E) (xs : List (Service D))
      (s : Service D) (w : World F D)
      → Last xs s w
      → (names : List (Bytes × Bytes)) × (for_each
            (λ e. read_name (length xs) (name e) (language e))
            es
            w
          ≡ (ok tt, set_services (xs ++ (named names s ∷ [])) w))
  unfolding for_each
  names-Last name language [] xs s w l = (s.names, ap (λ v. (ok tt, v)) (same_services xs s w l))
  names-Last name language (e ∷ es) xs s w l =
      let (ns, p) = read_name-Last (name e) (language e) xs s w l in
      let (ms, q) =
        names-Last name language es xs (named ns s) (set_services (xs ++ (named ns s ∷ [])) w)
          refl in
      (ms, >>-ok (read_name (length xs) (name e) (language e)) _ p ∙ q)

  -- A description with a new id gets a service with its names, and no more.
  pub register_service-new :
      {E : Type 0} (g : Setting E D) (usd : E) (id : Bytes) (w : World F D)
      → get_service id w.backend ≡ none
      → (names : List (Bytes × Bytes)) × (register_service g usd id w ≡ (
        ok (length w.backend.services, true),
        set_services (w.backend.services ++ (named names (service_init g.garbage_protocol) ∷ [])) w,
      ))
  unfolding register_service found_or_new ◌>>=◌ ◌>>◌ continue
  register_service-new g usd id w e =
      let xs = w.backend.services in
      let s : Service D = service_init g.garbage_protocol in
      let (ns, p) =
        names-Last g.xml.get_text (g.xml.attribute lang) (g.xml.children name_element usd) xs s
          (set_services (xs ++ (s ∷ [])) w) refl in
      (ns, rw (e, found_or_new, continue, p) refl)

  -- The last service takes a stream.
  pub add_stream-Last :
      ⦃float : Float D⦄ (xs : List (Service D)) (s t : Service D) (place : ℕ)
      (streams : List (AnyStream F D)) (w : World F D)
      → Last xs s w
      → add_and_start_content_stream place w.backend.streams s ≡ ok (t, streams)
      → add_stream (length xs) place w ≡ (
        ok tt,
        record w { backend = record (w.backend) { services = xs ++ (t ∷ []); streams = streams } },
      )
  unfolding add_stream stream_added settle
  add_stream-Last xs s t place streams w e h =
      rw (service_at-Last xs s w e, stream_added, h, settle)
        (ap
          (λ l.
            (ok tt, record w { backend = record (w.backend) { services = l; streams = streams } }))
          (ap (λ l. set l (length xs) t) e ∙ set-length xs s t))
