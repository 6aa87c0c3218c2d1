-- ===== src/Announcement/Known.antt =====
-- What is made of the service id of a description.
use rt_mbms_mw.Prelude.{
  ℕ, false, List, [], ◌∷◌, Option, none, some, ◌≡◌, refl, sym, ap, ◌∙◌, set, set_twice,
  set-get_elem?, get_elem?-set,
}
use rt_mbms_mw.Prelude.Key.{Bytes, bytes_key}
use rt_mbms_mw.Prelude.Result.{ok}
use rt_mbms_mw.Announcement.Action.{continue, not_null, for_each, ◌>>=◌, ◌>>◌}
use rt_mbms_mw.Announcement.Announced.Steps.{named}
use rt_mbms_mw.Announcement.Bundle.{get_service, found_or_new, read_name, register_service}
use rt_mbms_mw.Announcement.World.{
  World, Setting, service_at, set_services, ask_service, change_service,
}
use rt_mbms_mw.Announcement.Xml.{lang, name_element}
use rt_mbms_mw.Service.{Service, add_name}

module _ {F D : Type 0} where
  -- The same objects, but for the names of the service at the place.
  abbrev pub renamed : ℕ → Service D → List (Bytes × Bytes) → World F D → World F D
  renamed place s names w = set_services (set w.backend.services place (named names s)) w

  read_name-returns :
      (place : ℕ) (o p : Option Bytes) (s : Service D) (w : World F D)
      → service_at place w ≡ some s
      → (names : List (Bytes × Bytes)) × (read_name place o p w ≡ (ok tt, renamed place s names w))
  unfolding read_name change_service ask_service add_name ◌>>=◌ continue not_null
  read_name-returns place (some name) (some language) s w e =
      ((add_name name language s).names, rw (e, not_null, continue) refl)
  read_name-returns place none language s w e = (
    s.names,
    ap (λ l. (ok tt, set_services l w)) (sym (set-get_elem? w.backend.services place s e)),
  )
  read_name-returns place (some name) none s w e = (
    s.names,
    ap (λ l. (ok tt, set_services l w)) (sym (set-get_elem? w.backend.services place s e)),
  )

  names-returns :
      {E : Type 0} (name language : E → Option Bytes) (place : ℕ) (es : List E) (s : Service D)
      (w : World F D)
      → service_at place w ≡ some s
      → (names : List (Bytes × Bytes)) × (for_each (λ e. read_name place (name e) (language e)) es w
          ≡ (ok tt, renamed place s names w))
  unfolding for_each ◌>>◌ ◌>>=◌ continue
  names-returns name language place [] s w e = (
    s.names,
    ap (λ l. (ok tt, set_services l w)) (sym (set-get_elem? w.backend.services place s e)),
  )
  names-returns name language place (x ∷ xs) s w e =
      let (ns, p) = read_name-returns place (name x) (language x) s w e in
      let (ms, q) =
        names-returns name language place xs (named ns s) (renamed place s ns w)
          (get_elem?-set w.backend.services place (named ns s) e) in
      (
        ms,
        rw (p, continue)
            (q
              ∙ ap (λ l. (ok tt, set_services l w))
                  (set_twice w.backend.services place (named ns s) (named ms s))),
      )

-- A description whose service id is registered, at a place where a service is, is taken for that
-- service: the call returns the place, as that of no new service, and nothing is changed but the
-- names of that service.
pub register_service-known :
    {E F D : Type 0} (g : Setting E D) (usd : E) (id : Bytes) (place : ℕ) (s : Service D)
    (w : World F D)
    → get_service id w.backend ≡ some place
    → service_at place w ≡ some s
    → (names : List (Bytes × Bytes)) × (register_service g usd id w
        ≡ (ok (place, false), renamed place s names w))
unfolding register_service found_or_new ◌>>=◌ ◌>>◌ continue
register_service-known g usd id place s w e at =
    let (ns, p) =
      names-returns g.xml.get_text (g.xml.attribute lang) place (g.xml.children name_element usd) s
        w at in
    (ns, rw (e, found_or_new, continue, p) refl)
