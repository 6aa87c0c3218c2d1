-- ===== src/Announcement/Bundle.antt =====
-- `_registerService`, `_handleAppService`, `_handleMbmbsUserServiceDescriptionBundle` and
-- `parse_bootstrap` of src/ServiceAnnouncement.cpp, and the callbacks `get_service` and `set_service`
-- of src/Middleware.cpp and src/Middleware.h.
use rt_mbms_mw.Prelude.{
  ℕ, Bool, true, false, List, [], ◌∷◌, ◌++◌, Option, none, some, if◌then◌else◌, length, ◌==◌,
}
use rt_mbms_mw.Prelude.Float.{Float}
use rt_mbms_mw.Prelude.Key.{Bytes, bytes_key, equal}
use rt_mbms_mw.Prelude.Map.{find, insert}
use rt_mbms_mw.Prelude.Result.{ok, standard}
use rt_mbms_mw.Announcement.{Item, add_service_announcement_items}
use rt_mbms_mw.Announcement.Action.{
  Action, Nothing, return, raise, ask, change, not_null, string_of, for_each, catching, ◌>>=◌, ◌>>◌,
}
use rt_mbms_mw.Announcement.Envelope.{set_items, handle_mbms_envelope}
use rt_mbms_mw.Announcement.Setup.{items}
use rt_mbms_mw.Announcement.Setup.Config.{setup_by_5gmag_config}
use rt_mbms_mw.Announcement.Setup.Legacy.{setup_by_5gmag_legacy_format}
use rt_mbms_mw.Announcement.Setup.Alternative.{setup_by_alternative_content_element}
use rt_mbms_mw.Announcement.World.{
  World, Setting, ask_service, change_service, read_service_manifest, set_services,
}
use rt_mbms_mw.Announcement.Xml.{
  first, bundle_description, name_element, lang, user_service_description, service_id, app_service,
  mime_type, app_service_description_uri, mbms_envelope, mbms_user_service_description,
  default_format, fiveg_mag_bc_uc, fiveg_mag_legacy,
}
use rt_mbms_mw.Backend.{Backend}
use rt_mbms_mw.Cache.{lookup_value}
use rt_mbms_mw.Seamless.{Uri, directory}
use rt_mbms_mw.Service.{service_init, add_name, set_delivery_protocol_from_mime_type}

-- `Middleware::get_service`
abbrev pub get_service : {F D : Type 0} → Bytes → Backend F D → Option ℕ
get_service id b = find id b.registry

-- `Middleware::set_service`
unfoldable pub set_service : {F D : Type 0} → Bytes → ℕ → Backend F D → Backend F D
set_service id place b = record b { registry = insert id place b.registry }

-- A path without the `/` at its front.
unfoldable pub relative_path : Bytes → Bytes
relative_path [] = []
relative_path (c ∷ s) = if c == b'/' then s else c ∷ s

module _ {F D : Type 0} where
  unfoldable pub read_name : ℕ → Option Bytes → Option Bytes → Action (World F D) Nothing
  read_name place (some name) (some language) = change_service (add_name name language) place
  read_name place none language = return tt
  read_name place (some name) none = return tt

  unfoldable pub parsed_uri : Option Uri → Action (World F D) Uri
  parsed_uri none = raise standard
  parsed_uri (some u) = return u

  -- `if (is_new_service && service->content_streams().size() > 0)`
  unfoldable pub publish : Bytes → ℕ → Bool → List (Bytes × ℕ) → Action (World F D) Nothing
  publish id place true (e ∷ es) =
      change (λ w. record w { backend = set_service id place w.backend })
  publish id place true [] = return tt
  publish id place false streams = return tt

  -- A round of the loops of `parse_bootstrap`.
  unfoldable pub if_type :
      Bytes → (Item → Action (World F D) Nothing) → Item → Action (World F D) Nothing
  if_type type handle i = if equal i.content_type type then handle i else return tt

-- `_addServiceAnnouncementItems`
unfoldable pub add_items : {E F D : Type 0} → Setting E D → Bytes → Action (World F D) Nothing
add_items g str =
    change (λ w. set_items (add_service_announcement_items (g.mime_parts str) w.self.items) w)

module _ {E F D : Type 0} (g : Setting E D) where
  -- The service, and whether it is new.
  unfoldable pub found_or_new : Option ℕ → Action (World F D) (ℕ × Bool)
  found_or_new (some place) w = (ok (place, false), w)
  found_or_new none w = (
    ok (length w.backend.services, true),
    set_services (w.backend.services ++ (service_init g.garbage_protocol ∷ [])) w,
  )

  -- `_registerService`
  unfoldable pub register_service : E → Bytes → Action (World F D) (ℕ × Bool)
  unfolding ◌>>=◌ ◌>>◌ for_each found_or_new read_name
  register_service usd id = do
    found ← ask (λ w. get_service id w.backend)
    service ← found_or_new found
    for_each (λ e. read_name service.0 (g.xml.get_text e) (g.xml.attribute lang e))
        (g.xml.children name_element usd)
    return service

  module _ ⦃float : Float D⦄ where
    unfoldable pub described : ℕ → Item → Action (World F D) Nothing
    unfolding ◌>>=◌ ◌>>◌ parsed_uri relative_path
    described service i = do
      uri ← parsed_uri (g.parse_uri i.uri)
      let base_path = relative_path (directory uri.path)
      read_service_manifest service i.content base_path
      change (λ w. record w { self = record (w.self) { base_path = base_path } })

    -- A round of the loop over the items.
    unfoldable pub app_service_item : E → ℕ → Item → Action (World F D) Nothing
    unfolding ◌>>=◌ described
    app_service_item app service i = do
      uri ← not_null (g.xml.attribute app_service_description_uri app)
      if equal i.uri uri then described service i else return tt

    -- `_handleAppService`; the element is null if there is none.
    unfoldable pub handle_app_service : Option E → ℕ → Action (World F D) E
    unfolding ◌>>=◌ ◌>>◌ for_each app_service_item
    handle_app_service element service = do
      app ← not_null element
      mime ← string_of (g.xml.attribute mime_type app)
      change_service (set_delivery_protocol_from_mime_type mime) service
      all ← items
      for_each (app_service_item app service) all
      return app

    -- The three formats.
    unfoldable pub setup : Bytes → E → ℕ → E → Action (World F D) Nothing
    setup format app service usd =
        if equal format fiveg_mag_bc_uc
        then setup_by_5gmag_config g service app usd
        else if equal format fiveg_mag_legacy
        then setup_by_5gmag_legacy_format g service usd
        else setup_by_alternative_content_element g service app usd

    -- A round of the loop over the descriptions.
    unfoldable pub user_service : Bytes → E → Action (World F D) Nothing
    unfolding ◌>>=◌ ◌>>◌ register_service handle_app_service setup publish
    user_service format usd = do
      id ← string_of (g.xml.attribute service_id usd)
      service ← register_service usd id
      app ← handle_app_service (first (g.xml.children app_service usd)) service.0
      setup format app service.0 usd
      streams ← ask_service (λ s. s.content_streams) service.0
      publish id service.0 service.1 streams

    -- `_handleMbmbsUserServiceDescriptionBundle`
    unfoldable pub handle_bundle : Item → Bytes → Action (World F D) Nothing
    unfolding ◌>>=◌ catching for_each user_service
    handle_bundle i format = catching (do
      bundle ← not_null (first (g.xml.children bundle_description (g.xml.parse i.content)))
      for_each (user_service format) (g.xml.children user_service_description bundle))

    -- `parse_bootstrap`
    unfoldable pub parse_bootstrap : Bytes → Action (World F D) Nothing
    unfolding ◌>>=◌ ◌>>◌ add_items for_each if_type handle_mbms_envelope handle_bundle
    parse_bootstrap str = do
      let format = lookup_value g.bootstrap_format default_format
      add_items g str
      all ← items
      for_each (if_type mbms_envelope (handle_mbms_envelope g)) all
      dated ← items
      for_each (if_type mbms_user_service_description (λ i. handle_bundle i format)) dated
