-- ===== src/Announcement/Announced/Hls.antt =====
-- What `_handleAppService` makes of an HLS service.
use rt_mbms_mw.Prelude.{◌++◌, List, some, ◌≡◌, refl, length}
use rt_mbms_mw.Prelude.Float.{Float}
use rt_mbms_mw.Prelude.Key.{Bytes}
use rt_mbms_mw.Prelude.Result.{ok}
use rt_mbms_mw.Prelude.Text.{codes}
use rt_mbms_mw.Announcement.Announced.Application.{
  IsApplication, base_of, described_world, handle_app_service-Last,
}
use rt_mbms_mw.Announcement.Announced.Steps.{Last}
use rt_mbms_mw.Announcement.Bundle.{handle_app_service}
use rt_mbms_mw.Announcement.World.{World, Setting}
use rt_mbms_mw.Cache.{CacheItem, service_manifest, add_item}
use rt_mbms_mw.Hls.Primary.{HlsPrimaryPlaylist, primary_parse}
use rt_mbms_mw.Seamless.{Uri}
use rt_mbms_mw.Service.{Service, manifest_name, service_read_master_manifest}
use rt_mbms_mw.Stream.{hls}

abbrev pub playlist_path_of : Uri → Bytes
playlist_path_of u = base_of u ++ codes "manifest.m3u8"

-- The service behind its primary playlist.
abbrev pub with_primary : {D : Type 0} → HlsPrimaryPlaylist D → Uri → Service D → Service D
with_primary pl u s = record s {
  delivery_protocol = hls;
  hls_primary_playlist = pl;
  manifest_path = playlist_path_of u;
}

module _ {F D : Type 0} where
  -- The objects behind the call.
  abbrev pub hls_world :
      List (Service D) → Service D → HlsPrimaryPlaylist D → Uri → World F D → World F D
  hls_world xs s pl u w =
      described_world xs (with_primary pl u s)
        (add_item (CacheItem.playlist (playlist_path_of u) 0 (service_manifest (length xs)))
          w.backend.cache)
        u w

  pub handle_app_service-hls :
      {E : Type 0} ⦃float : Float D⦄ (g : Setting E D) (app : E) (xs : List (Service D))
      (s : Service D) (pl : HlsPrimaryPlaylist D) (w : World F D)
      (d : IsApplication hls g app w.self.items)
      → Last xs s w
      → primary_parse d.manifest.content (base_of d.parsed) ≡ ok pl
      → handle_app_service g (some app) (length xs) w ≡ (ok app, hls_world xs s pl d.parsed w)
  unfolding service_read_master_manifest manifest_name
  handle_app_service-hls g app xs s pl w d e h =
      handle_app_service-Last g hls app xs s (with_primary pl d.parsed s) _ w d e (rw h refl)
