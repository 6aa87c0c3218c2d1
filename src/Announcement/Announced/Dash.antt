-- ===== src/Announcement/Announced/Dash.antt =====
-- What `_handleAppService` makes of a DASH service.
use rt_mbms_mw.Prelude.{List, ◌++◌, some, ◌≡◌, refl, length}
use rt_mbms_mw.Prelude.Float.{Float}
use rt_mbms_mw.Prelude.Key.{Bytes}
use rt_mbms_mw.Prelude.Result.{ok}
use rt_mbms_mw.Prelude.Text.{codes}
use rt_mbms_mw.Announcement.Announced.Application.{
  IsApplication, base_of, described_world, handle_app_service-Last,
}
use rt_mbms_mw.Announcement.Announced.Steps.{Last}
use rt_mbms_mw.Announcement.Bundle.{handle_app_service}
use rt_mbms_mw.Announcement.World.{World, Setting}
use rt_mbms_mw.Cache.{CacheItem, service_manifest, add_item}
use rt_mbms_mw.Seamless.{Uri}
use rt_mbms_mw.Service.{Service, manifest_name, service_read_master_manifest}
use rt_mbms_mw.Stream.{dash}

abbrev pub manifest_path_of : Uri → Bytes
manifest_path_of u = base_of u ++ codes "manifest.mpd"

-- The service behind its manifest.
abbrev pub with_mpd : {D : Type 0} → Bytes → Uri → Service D → Service D
with_mpd content u s = record s {
  delivery_protocol = dash;
  dash_manifest = record { content = content; base_path = base_of u };
  manifest_path = manifest_path_of u;
}

module _ {F D : Type 0} where
  -- The objects behind the call.
  abbrev pub dash_world : List (Service D) → Service D → Bytes → Uri → World F D → World F D
  dash_world xs s content u w =
      described_world xs (with_mpd content u s)
        (add_item (CacheItem.playlist (manifest_path_of u) 0 (service_manifest (length xs)))
          w.backend.cache)
        u w

  -- The protocol, the manifest with its path, and the item for it in the cache.
  pub handle_app_service-dash :
      {E : Type 0} ⦃float : Float D⦄ (g : Setting E D) (app : E) (xs : List (Service D))
      (s : Service D) (w : World F D) (d : IsApplication dash g app w.self.items)
      → Last xs s w
      → handle_app_service g (some app) (length xs) w
        ≡ (ok app, dash_world xs s d.manifest.content d.parsed w)
  unfolding service_read_master_manifest manifest_name
  handle_app_service-dash g app xs s w d e =
      handle_app_service-Last g dash app xs s (with_mpd d.manifest.content d.parsed s) _ w d e refl
