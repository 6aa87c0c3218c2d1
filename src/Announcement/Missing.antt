-- ===== src/Announcement/Missing.antt =====
-- What is made of a document without the element that is looked for.
use rt_mbms_mw.Announcement.Setup.Alternative.{
  setup_by_alternative_content_element, alternative_patterns, alternative_pattern,
  alternative_method,
}
use rt_mbms_mw.Service.{Service}
use rt_mbms_mw.Prelude.{[], ◌≡◌, refl, ℕ, some, get_elem?}
use rt_mbms_mw.Prelude.Float.{Float}
use rt_mbms_mw.Prelude.Key.{Bytes}
use rt_mbms_mw.Prelude.Result.{ok, terminate}
use rt_mbms_mw.Announcement.{Item}
use rt_mbms_mw.Announcement.Action.{
  catching, handled, continue, not_null, string_of, for_each, ◌>>=◌, ◌>>◌, fold_each,
}
use rt_mbms_mw.Announcement.Bundle.{handle_bundle, user_service}
use rt_mbms_mw.Announcement.Envelope.{handle_mbms_envelope}
use rt_mbms_mw.Announcement.World.{World, Setting, ask_service, make_stream, make_shared}
use rt_mbms_mw.Announcement.Xml.{
  metadata_envelope, bundle_description, user_service_description, service_id, alternative_content,
  base_pattern, delivery_method, broadcast_app_service,
}
use rt_mbms_mw.Prelude.{List, ◌∷◌, none}

-- The first description of the bundle has no service id.
pub record IsAnonymous {E D : Type 0} (g : Setting E D) (content : Bytes) : Type 0 where
  pub bundle : E
  pub others : List E
  pub bundle_at : g.xml.children bundle_description (g.xml.parse content) ≡ bundle ∷ others
  pub usd : E
  pub rest : List E
  pub usd_at : g.xml.children user_service_description bundle ≡ usd ∷ rest
  pub no_id : g.xml.attribute service_id usd ≡ none

-- An alternative content whose first base pattern has a text, while the first delivery method has no broadcast
-- service.
pub record IsUnicastOnly {E D : Type 0} (g : Setting E D) (app usd : E) : Type 0 where
  pub element : E
  pub elements : List E
  pub element_at : g.xml.children alternative_content app ≡ element ∷ elements
  pub pattern : E
  pub patterns : List E
  pub pattern_at : g.xml.children base_pattern element ≡ pattern ∷ patterns
  pub url : Bytes
  pub url_at : g.xml.get_text pattern ≡ some url
  pub method : E
  pub methods : List E
  pub method_at : g.xml.children delivery_method usd ≡ method ∷ methods
  pub no_broadcast : g.xml.children broadcast_app_service method ≡ []

module _ {E F D : Type 0} ⦃float : Float D⦄ (g : Setting E D) where
  ask_service-at :
      {X : Type 0} (f : Service D → X) (place : ℕ) (s : Service D) (w : World F D)
      → get_elem? w.backend.services place ≡ some s
      → ask_service f place w ≡ (ok (f s), w)
  unfolding ask_service ◌>>=◌ continue not_null
  ask_service-at f place s w e = rw (e, not_null, continue) refl

  -- In the default format, take an alternative content whose first base pattern has a text, of a
  -- service that was made. If the first delivery method has no broadcast service, the setup ends the
  -- process.
  pub setup-unicast_only :
      (service : ℕ) (app usd : E) (s : Service D) (w : World F D)
      → IsUnicastOnly g app usd
      → get_elem? w.backend.services service ≡ some s
      → (v : World F D) × (setup_by_alternative_content_element g service app usd w
          ≡ (terminate, v))
  unfolding setup_by_alternative_content_element alternative_patterns for_each alternative_pattern
      fold_each alternative_method make_stream make_shared ◌>>=◌ ◌>>◌ continue not_null string_of
  setup-unicast_only service app usd s w b e = (
    (make_stream g w.self.seamless b.url s.delivery_protocol w).1,
    rw
        (
          b.element_at,
          b.pattern_at,
          b.url_at,
          string_of,
          continue,
          ask_service-at (λ (s : Service D). s.delivery_protocol) service s w e,
          continue,
          b.method_at,
          b.no_broadcast,
          not_null,
          continue,
        )
        refl,
  )

module _ {E F D : Type 0} ⦃float : Float D⦄ (g : Setting E D) where
  -- The handlers catch exceptions, and not null pointers. An envelope item without the element
  -- `metadataEnvelope`, and a bundle item without `bundleDescription`, end the process; but a bundle
  -- whose first description has no service id is left there, with nothing changed and the rest of
  -- its descriptions not looked at.
  pub missing_element :
      (i j k : Item) (format : Bytes) (w : World F D)
      → g.xml.children metadata_envelope (g.xml.parse i.content) ≡ []
      → g.xml.children bundle_description (g.xml.parse j.content) ≡ []
      → IsAnonymous g k.content
      → (handle_mbms_envelope g i w ≡ (terminate, w))
        × (handle_bundle g j format w ≡ (terminate, w))
        × (handle_bundle g k format w ≡ (ok tt, w))
  unfolding handle_mbms_envelope handle_bundle user_service catching handled for_each ◌>>=◌ ◌>>◌
      continue not_null string_of
  missing_element i j k format w e f a = (
    rw (e, not_null, continue, handled) refl,
    rw (f, not_null, continue, handled) refl,
    rw (a.bundle_at, not_null, continue, a.usd_at, for_each, a.no_id, string_of, handled) refl,
  )
