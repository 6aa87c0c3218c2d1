-- ===== src/Announcement/Announced/Application.antt =====
-- What `_handleAppService` makes of a service whose manifest is among the items.
use rt_mbms_mw.Prelude.{
  ℕ, true, false, List, [], ◌∷◌, ◌++◌, some, ◌≡◌, refl, ap, ◌∙◌, All-map, length, set,
}
use rt_mbms_mw.Prelude.Float.{Float}
use rt_mbms_mw.Prelude.Key.{Bytes}
use rt_mbms_mw.Prelude.Result.{ok}
use rt_mbms_mw.Announcement.{Item}
use rt_mbms_mw.Announcement.Action.{not_null, string_of, settle, for_each, continue, ◌>>=◌, ◌>>◌}
use rt_mbms_mw.Announcement.Announced.Steps.{
  Skips, for_each_one, IsOnly, Last, service_at-Last, change_service-Last, set-length,
}
use rt_mbms_mw.Announcement.Bundle.{
  described, app_service_item, handle_app_service, parsed_uri, relative_path,
}
use rt_mbms_mw.Announcement.Setup.{is_item}
use rt_mbms_mw.Announcement.World.{
  World, Setting, set_services, manifest_read, read_service_manifest,
}
use rt_mbms_mw.Announcement.Xml.{mime_type, app_service_description_uri}
use rt_mbms_mw.Cache.{CacheManagement}
use rt_mbms_mw.Seamless.{Uri, directory}
use rt_mbms_mw.Service.{
  Service, protocol_of, before_first, service_read_master_manifest,
  set_delivery_protocol_from_mime_type,
}
use rt_mbms_mw.Stream.{DeliveryProtocol}

-- The application service of a description: its type is that of the protocol, and its manifest is
-- the one item with its URI.
pub record IsApplication {E D : Type 0} (p : DeliveryProtocol) (g : Setting E D) (app : E)
    (items : List Item) : Type 0 where
  pub mime : Bytes
  pub mime_at : g.xml.attribute mime_type app ≡ some mime
  pub protocol_at : protocol_of (before_first b';' mime) ≡ p
  pub uri : Bytes
  pub uri_at : g.xml.attribute app_service_description_uri app ≡ some uri
  pub manifest : Item
  pub only : IsOnly (is_item uri) items manifest
  pub parsed : Uri
  pub parsed_ok : g.parse_uri manifest.uri ≡ some parsed

-- The directory of the manifest.
abbrev pub base_of : Uri → Bytes
base_of u = relative_path (directory u.path)

abbrev pub with_protocol : {D : Type 0} → DeliveryProtocol → Service D → Service D
with_protocol p s = record s { delivery_protocol = p }

module _ {F D : Type 0} where
  -- The objects behind the call, with what the service and the cache have become.
  abbrev pub described_world :
      List (Service D) → Service D → CacheManagement F → Uri → World F D → World F D
  described_world xs t c u w = record {
    self = record (w.self) { base_path = base_of u };
    backend = record (w.backend) { services = xs ++ (t ∷ []); cache = c };
  }

  module _ ⦃float : Float D⦄ where
    manifest-Last :
        (content base : Bytes) (xs : List (Service D)) (s t : Service D) (c : CacheManagement F)
        (w : World F D)
        → Last xs s w
        → service_read_master_manifest (length xs) content base s w.backend.cache ≡ ok (t, c)
        → read_service_manifest (length xs) content base w ≡ (
          ok tt,
          record w { backend = record (w.backend) { services = xs ++ (t ∷ []); cache = c } },
        )
    unfolding read_service_manifest manifest_read settle
    manifest-Last content base xs s t c w e h =
        rw (service_at-Last xs s w e, manifest_read, h, settle)
          (ap (λ l. (ok tt, record w { backend = record (w.backend) { services = l; cache = c } }))
            (ap (λ l. set l (length xs) t) e ∙ set-length xs s t))

    module _ {E : Type 0} (g : Setting E D) where
      described-Last :
          (i : Item) (u : Uri) (xs : List (Service D)) (s t : Service D) (c : CacheManagement F)
          (w : World F D)
          → g.parse_uri i.uri ≡ some u
          → Last xs s w
          → service_read_master_manifest (length xs) i.content (base_of u) s w.backend.cache
            ≡ ok (t, c)
          → described g (length xs) i w ≡ (ok tt, described_world xs t c u w)
      unfolding described parsed_uri ◌>>=◌ ◌>>◌ continue
      described-Last i u xs s t c w p e h =
          rw (p, parsed_uri, continue, manifest-Last i.content (base_of u) xs s t c w e h) refl

      item-Skips :
          (app : E) (uri : Bytes) (service : ℕ)
          → g.xml.attribute app_service_description_uri app ≡ some uri
          → (j : Item) → is_item uri j ≡ false
          → Skips {W = World F D} (app_service_item g app service) j
      unfolding app_service_item ◌>>=◌ continue not_null
      item-Skips app uri service a j n w = rw (a, not_null, continue, n) refl

      chosen_item :
          (app : E) (uri : Bytes) (i : Item) (service : ℕ) (w : World F D) {v : World F D}
          → g.xml.attribute app_service_description_uri app ≡ some uri
          → is_item uri i ≡ true
          → described g service i w ≡ (ok tt, v)
          → app_service_item g app service i w ≡ (ok tt, v)
      unfolding app_service_item ◌>>=◌ continue not_null
      chosen_item app uri i service w a y h = rw (a, not_null, continue, y) h

      items-Last :
          (p : DeliveryProtocol) (app : E) (xs : List (Service D)) (s t : Service D)
          (c : CacheManagement F) (items : List Item) (w : World F D)
          (d : IsApplication p g app items)
          → Last xs s w
          → service_read_master_manifest
              (length xs)
              d.manifest.content
              (base_of d.parsed)
              s
              w.backend.cache
            ≡ ok (t, c)
          → for_each (app_service_item g app (length xs)) items w
            ≡ (ok tt, described_world xs t c d.parsed w)
      items-Last p app xs s t c items w d e h =
          ap (λ l. for_each (app_service_item g app (length xs)) l w) d.only.split
          ∙ for_each_one (app_service_item g app (length xs)) d.only.before d.manifest d.only.after
              w _
              (All-map d.only.before (item-Skips app d.uri (length xs) d.uri_at) d.only.none_before)
              (All-map d.only.after (item-Skips app d.uri (length xs) d.uri_at) d.only.none_after)
              (chosen_item app d.uri d.manifest (length xs) w d.uri_at d.only.passes
                (described-Last d.manifest d.parsed xs s t c w d.parsed_ok e h))

      -- The last service gets the protocol and reads the manifest.
      pub handle_app_service-Last :
          (p : DeliveryProtocol) (app : E) (xs : List (Service D)) (s t : Service D)
          (c : CacheManagement F) (w : World F D) (d : IsApplication p g app w.self.items)
          → Last xs s w
          → service_read_master_manifest
              (length xs)
              d.manifest.content
              (base_of d.parsed)
              (with_protocol p s)
              w.backend.cache
            ≡ ok (t, c)
          → handle_app_service g (some app) (length xs) w
            ≡ (ok app, described_world xs t c d.parsed w)
      unfolding handle_app_service ◌>>=◌ ◌>>◌ continue not_null string_of
          set_delivery_protocol_from_mime_type
      handle_app_service-Last p app xs s t c w d e h =
          let v = set_services (xs ++ (with_protocol p s ∷ [])) w in
          rw
            (
              d.mime_at,
              string_of,
              continue,
              change_service-Last (set_delivery_protocol_from_mime_type d.mime) xs s w e,
              d.protocol_at,
              continue,
              items-Last p app xs (with_protocol p s) t c w.self.items v d refl h,
              continue,
            )
            refl
