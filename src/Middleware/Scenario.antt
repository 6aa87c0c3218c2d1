-- ===== src/Middleware/Scenario.antt =====
-- A description without a delivery method, and the theorem about what follows it.
use rt_mbms_mw.Prelude.{◌≡◌, refl}
use rt_mbms_mw.Prelude.Result.{ok, terminate}
use rt_mbms_mw.Prelude.Text.{codes}
use rt_mbms_mw.Announcement.Bundle.{user_service, relative_path}
use rt_mbms_mw.Announcement.Announced.Dash.{manifest_path_of}
use rt_mbms_mw.Announcement.World.{World}
use rt_mbms_mw.Announcement.Xml.{fiveg_mag_legacy}
use rt_mbms_mw.Flute.Tests.{TestFile, test_flute}
use rt_mbms_mw.Hls.Media.Tests.{text_float}
use rt_mbms_mw.Prelude.Key.{Bytes}
use rt_mbms_mw.Middleware.Tests.{test_json, silent, bare_config, bare}
use rt_mbms_mw.Middleware.Tick.{set_backend, tick_handler}
use rt_mbms_mw.Middleware.Unowned.{unowned-terminates}
use rt_mbms_mw.Rest.{rest_get}
use rt_mbms_mw.Rest.Scenario.{
  setting, dated, streamless, dated-IsSound, handler, no_server, request, request-IsFileRequest,
  application,
}
use rt_mbms_mw.Seamless.{directory}

manifest_at : codes "tv/manifest.mpd" ≡ manifest_path_of streamless.dash.parsed
unfolding streamless application relative_path directory
manifest_at = refl

unowned-terminates_example :
    (v : World TestFile Bytes) × (user_service setting fiveg_mag_legacy 33 dated ≡ (ok tt, v))
    × (rest_get handler no_server 9 (request (codes "manifest.mpd")) v.backend ≡ terminate)
    × (tick_handler test_json bare_config silent 9 (set_backend v.backend bare)
        ≡ (terminate, set_backend v.backend bare))
unowned-terminates_example =
    unowned-terminates setting test_json bare_config 33 dated streamless bare silent handler
      no_server 9 (request (codes "manifest.mpd")) dated-IsSound refl refl
      (request-IsFileRequest (codes "manifest.mpd")) manifest_at
