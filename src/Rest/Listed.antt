-- ===== src/Rest/Listed.antt =====
-- What the list of the services shows of a sound state.
use rt_mbms_mw.Prelude.{
  ℕ, suc, ◌<◌, true, List, [], ◌∷◌, some, ◌≡◌, ◌≢◌, refl, ap, inl, inr, All, All-get_elem?, length,
  get_elem?, get_elem?-ne-none, Option-cases,
}
use rt_mbms_mw.Prelude.Key.{Bytes, equal, equal_refl}
use rt_mbms_mw.Prelude.Result.{ok}
use rt_mbms_mw.Prelude.Text.{codes}
use rt_mbms_mw.Backend.{Backend}
use rt_mbms_mw.Backend.Sound.{IsSound, HasStream, ServiceIn}
use rt_mbms_mw.Cdn.{Http}
use rt_mbms_mw.Flute.{Flute}
use rt_mbms_mw.Rest.{
  RestHandler, Request, services_reply, is_authorized, api_reply, get_api, get_paths, rest_get,
}
use rt_mbms_mw.Rest.Rows.{ServiceRow, stream_rows, service_rows}
use rt_mbms_mw.Service.{AnyStream, Service}

-- A request for the list of the services.
pub record IsServicesRequest (r : RestHandler) (q : Request) : Type 0 where
  pub authorized : is_authorized r q ≡ true
  pub rest : List Bytes
  pub path : q.paths ≡ r.api_path ∷ codes "services" ∷ rest

module _ {F D : Type 0} where
  length-stream_rows :
      (streams : List (AnyStream F D)) (m : List (Bytes × ℕ))
      → All (λ e. e.1 < length streams) m
      → length (stream_rows streams m) ≡ length m
  unfolding stream_rows
  length-stream_rows streams [] h = refl
  length-stream_rows streams ((path, place) ∷ m) (lt, h) =
      elim (Option-cases (get_elem? streams place)) [
        | inl absent ↦ absurd (get_elem?-ne-none streams place lt absent)
        | inr (s, present) ↦ rw (present, stream_rows) (ap suc (length-stream_rows streams m h))
      ]

  -- A row for every registered service, and in each a row for every stream.
  abbrev pub IsListed : Backend F D → List (Bytes × ℕ) → List (ServiceRow D) → Type 0
  IsListed b [] rows = rows ≡ []
  IsListed b (e ∷ m) [] = ⊥
  IsListed b (e ∷ m) (row ∷ rows) =
      ((s : Service D) × (get_elem? b.services e.1 ≡ some s)
        × (row.names ≡ s.names)
        × (length row.streams ≡ length s.content_streams)
        × (s.content_streams ≢ []))
      × IsListed b m rows

  service_rows-IsListed :
      (b : Backend F D) (m : List (Bytes × ℕ))
      → All (ServiceIn (length b.streams)) b.services
      → All (λ e. HasStream b.services e.1) m
      → IsListed b m (service_rows b m)
  unfolding service_rows
  service_rows-IsListed b [] k h = refl
  service_rows-IsListed b ((id, place) ∷ m) k (p, h) =
      let found = p.at_place in
      let (sorted, places) =
        All-get_elem? (ServiceIn (length b.streams)) b.services place k found in
      rw (found, service_rows)
        (
          (
            p.service,
            found,
            refl,
            length-stream_rows b.streams p.service.content_streams places,
            p.ne_nil,
          ),
          service_rows-IsListed b m k h,
        )

  module _ ⦃flute : Flute F⦄ where
    -- In a sound state an authorized request for the list of the services is answered with one row
    -- for every service that is registered, in the order of the ids, and each row has the names of
    -- its service and one entry or more: one for each stream; nothing is changed.
    pub rest_get-services :
        (r : RestHandler) (http : Http) (now : ℕ) (q : Request) (b : Backend F D)
        → IsServicesRequest r q
        → IsSound b
        → (rows : List (ServiceRow D)) × (rest_get r http now q b ≡ ok (services_reply rows, b))
          × IsListed b b.registry rows
    unfolding rest_get get_paths get_api api_reply equal
    rest_get-services r http now q b s h = (
      service_rows b b.registry,
      rw (s.authorized, s.path, equal_refl r.api_path) refl,
      service_rows-IsListed b b.registry h.services_in h.registered,
    )
