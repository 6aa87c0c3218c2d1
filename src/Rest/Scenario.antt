-- ===== src/Rest/Scenario.antt =====
-- A concrete announcement in the format `5gmag_legacy`, and the theorem about it.
use rt_mbms_mw.Announcement.Announced.Application.{IsApplication}
use rt_mbms_mw.Cache.{CacheItem, service_manifest}
use rt_mbms_mw.Backend.Sound.{IsSound}
use rt_mbms_mw.Announcement.Announced.Unowned.{IsStreamless, user_service-unowned}
use rt_mbms_mw.Prelude.Decimal.{atoi}
use rt_mbms_mw.Stream.Sdp.{sdp_line, stoul}
use rt_mbms_mw.Service.{protocol_of, before_first}
use rt_mbms_mw.Seamless.{directory}
use rt_mbms_mw.Prelude.Map.{find}
use rt_mbms_mw.Announcement.Announced.Dash.{manifest_path_of}
use rt_mbms_mw.Announcement.Envelope.{
  handle_mbms_envelope, envelope_element, envelope_items, envelope_item, update_item, write_item,
  read_date, to_version,
}
use rt_mbms_mw.Announcement.Action.{
  for_each, ◌>>◌, ◌>>=◌, continue, catching, handled, not_null, string_of,
}
use rt_mbms_mw.Prelude.{
  ℕ, true, false, [], ◌∷◌, ◌++◌, some, ◌≡◌, refl, ◌%◌, ◌^◌, take, none, ◌≢◌, All,
}
use rt_mbms_mw.Prelude.Int.{ℤ, pos}
use rt_mbms_mw.Prelude.Key.{Bytes, equal, bytes_key}
use rt_mbms_mw.Prelude.Result.{ok}
use rt_mbms_mw.Prelude.Text.{codes, trim_left, is_space, lines, contains, starts_with}
use rt_mbms_mw.Announcement.{Item, add_service_announcement_items, add_part}
use rt_mbms_mw.Announcement.Announced.{IsDashService}
use rt_mbms_mw.Announcement.Announced.Bootstrap.{IsAnnouncement, with_parts}
use rt_mbms_mw.Announcement.Bundle.{
  get_service, parse_bootstrap, if_type, relative_path, user_service,
}
use rt_mbms_mw.Announcement.Samples.{test_setting, test_world, part_of, test_parts}
use rt_mbms_mw.Announcement.World.{World, Setting}
use rt_mbms_mw.Announcement.Xml.{
  mbms_envelope, mbms_user_service_description, sdp_type, fiveg_mag_legacy,
}
use rt_mbms_mw.Backend.{Backend, stream_received}
use rt_mbms_mw.Cdn.{Http, http_exception}
use rt_mbms_mw.Flute.Tests.{TestFile, test_flute}
use rt_mbms_mw.Hls.Media.Tests.{text_float}
use rt_mbms_mw.Rest.{RestHandler, Request, file_reply, rest_get, is_authorized}
use rt_mbms_mw.Rest.Announced.{parse_bootstrap-served}
use rt_mbms_mw.Rest.Laws.{IsFileRequest}
use rt_mbms_mw.Stream.{
  ContentStream, configure_5gbc_delivery_from_sdp, configure_lines, configure_line, is_configured,
  start, stream_init, dash, cached_location,
}

abbrev sdp_text : Bytes
sdp_text = codes "c=IN IP4 239.0.0.1\nm=application 4000 FLUTE/UDP\na=flute-tsi:5\n"

abbrev pub item : Bytes → Bytes → ℤ → ℤ → ℕ → Bytes → Item
item type uri from until version content = record {
  content_type = type;
  uri = uri;
  valid_from = from;
  valid_until = until;
  version = version;
  content = content;
}

abbrev pub setting : Setting ℕ Bytes
setting = record test_setting {
  mime_parts = λ s.
      test_parts ++ (part_of (codes "application/dash+xml") (codes "x.mpd") (codes "<MPD/>") ∷ []);
  parse_uri = λ s. some (record { path = codes "/tv/" ++ s; query = []; base = s });
  bootstrap_format = some fiveg_mag_legacy;
}

-- The items behind the envelope, which dates the session description.
abbrev manifest_item : Item
manifest_item =
    item (codes "application/dash+xml") (codes "x.mpd") (pos 0) (pos 0) 0 (codes "<MPD/>")

abbrev pub usd_item : Item
usd_item = item mbms_user_service_description (codes "usd.xml") (pos 0) (pos 0) 0 (codes "<u/>")

abbrev pub dated_envelope : Item
dated_envelope = item mbms_envelope (codes "envelope.xml") (pos 0) (pos 0) 0 (codes "<e/>")

abbrev pub sdp_item : Item
sdp_item = item sdp_type (codes "a.sdp") (pos 4) (pos 5) 7 sdp_text

abbrev pub dated : World TestFile Bytes
dated = record test_world {
  self = record (test_world.self) {
    items = dated_envelope ∷ usd_item ∷ sdp_item ∷ manifest_item ∷ [];
    dates_read = 2;
  };
}

is_dated :
    for_each
      (if_type mbms_envelope (handle_mbms_envelope setting))
      (with_parts setting (codes "sa") test_world).self.items
      (with_parts setting (codes "sa") test_world)
    ≡ (ok tt, dated)
unfolding add_service_announcement_items add_part trim_left is_space equal for_each ◌>>◌ ◌>>=◌
    continue if_type handle_mbms_envelope catching handled not_null envelope_element envelope_items
    envelope_item update_item read_date string_of write_item to_version atoi
is_dated = refl

announcement : IsAnnouncement setting (codes "sa") test_world
unfolding equal
announcement = record {
  dated = dated;
  dated_ok = is_dated;
  item = usd_item;
  only = record {
    before = dated_envelope ∷ [];
    after = sdp_item ∷ manifest_item ∷ [];
    split = refl;
    passes = refl;
    none_before = (refl, tt);
    none_after = (refl, (refl, tt));
  };
  bundle = 1;
  bundles = [];
  bundle_at = refl;
  usd = 2;
  usd_at = refl;
}

abbrev new_stream : ContentStream Bytes
new_stream =
    record (stream_init (record { bandwidth = 0; frame_rate = [] }) (codes "http://bc/x")
      (codes "0.0.0.0") dash) {
        base_path = codes "tv/";
        stream_type = codes "FLUTE/UDP";
        stream_mcast_addr = codes "239.0.0.1";
        stream_mcast_port = codes "4000";
        stream_flute_tsi = 5;
      }

unfoldable pub application : IsApplication dash setting 4 dated.self.items
unfolding equal protocol_of before_first
application = record {
  mime = codes "application/dash+xml";
  mime_at = refl;
  protocol_at = refl;
  uri = codes "x.mpd";
  uri_at = refl;
  manifest = manifest_item;
  only = record {
    before = dated_envelope ∷ usd_item ∷ sdp_item ∷ [];
    after = [];
    split = refl;
    passes = refl;
    none_before = (refl, (refl, (refl, tt)));
    none_after = tt;
  };
  parsed = record { path = codes "/tv/x.mpd"; query = []; base = codes "x.mpd" };
  parsed_ok = refl;
}

service : IsDashService setting 2 dated
unfolding equal protocol_of before_first find relative_path directory
    configure_5gbc_delivery_from_sdp configure_lines configure_line is_configured sdp_line lines
    stoul start stream_init application
service = record {
  id = codes "s1";
  id_at = refl;
  is_new = refl;
  app = 4;
  apps = [];
  app_at = refl;
  dash = application;
  broadcast = record {
    method = 7;
    method_at = refl;
    sdp_uri = codes "a.sdp";
    sdp_uri_at = refl;
    element = 8;
    elements = [];
    element_at = refl;
    pattern = 9;
    pattern_at = refl;
    url = codes "http://bc/x";
    url_at = refl;
    sdp = sdp_item;
    only = record {
      before = dated_envelope ∷ usd_item ∷ [];
      after = manifest_item ∷ [];
      split = refl;
      passes = refl;
      none_before = (refl, (refl, tt));
      none_after = (refl, tt);
    };
  };
  started = record {
    stream = new_stream;
    complete = true;
    configured = refl;
    running = record new_stream { flute_thread = true };
    started_ok = refl;
  };
}

abbrev pub handler : RestHandler
handler = record { require_bearer_token = false; api_key = []; api_path = codes "mw-api" }

abbrev pub request : Bytes → Request
request file = record {
  relative_uri = codes "/tv/" ++ file;
  paths = codes "tv" ∷ file ∷ [];
  authorization = [];
}

pub request-IsFileRequest : (file : Bytes) → IsFileRequest handler (request file)
unfolding is_authorized equal
request-IsFileRequest file = record {
  authorized = refl;
  first = codes "tv";
  rest = file ∷ [];
  path = refl;
  no_api = refl;
}

abbrev pub no_server : Http
no_server base path = http_exception

abbrev media_file : TestFile
media_file = record { location = codes "1.mp4"; content = codes "frames"; time = 7 }

media_file_at :
    cached_location service.started.running (test_flute.content_location media_file)
    ≡ some (codes "tv/1.mp4")
unfolding cached_location contains equal starts_with stream_init service application
media_file_at = refl

manifest_at : codes "tv/manifest.mpd" ≡ manifest_path_of service.dash.parsed
unfolding relative_path directory service application
manifest_at = refl

parse_bootstrap-served_example :
    (v : World TestFile Bytes) × (parse_bootstrap setting (codes "sa") test_world ≡ (ok tt, v))
    × (get_service (codes "s1") v.backend ≡ some 0)
    × (rest_get handler no_server 9 (request (codes "manifest.mpd")) v.backend
        ≡ ok (file_reply (codes "GEN") (take (6 % 2 ^ 32) (codes "<MPD/>")), v.backend))
    × ((b : Backend TestFile Bytes) × (stream_received (pos 0) 0 media_file v.backend ≡ ok b)
        × (rest_get handler no_server 12 (request (codes "1.mp4")) b
            ≡ ok (file_reply (codes "5G-BC") (take (6 % 2 ^ 32) (codes "frames")), b)))
unfolding announcement service application
parse_bootstrap-served_example =
    parse_bootstrap-served setting (codes "sa") test_world announcement service handler no_server 9
      12 (request (codes "manifest.mpd")) (request (codes "1.mp4")) (pos 0) media_file refl
      (request-IsFileRequest (codes "manifest.mpd")) manifest_at
      (request-IsFileRequest (codes "1.mp4")) media_file_at

unfoldable pub streamless : IsStreamless setting 33 dated
unfolding equal find
streamless = record {
  id = codes "s2";
  id_at = refl;
  is_new = refl;
  app = 4;
  apps = [];
  app_at = refl;
  dash = application;
  no_method = refl;
}

pub dated-IsSound : IsSound dated.backend
dated-IsSound = record {
  cache_in = record { sorted = tt; entries = tt };
  streams_in = tt;
  services_in = tt;
  registry_sorted = tt;
  registered = tt;
}

user_service-unowned_example :
    (v : World TestFile Bytes) × (user_service setting fiveg_mag_legacy 33 dated ≡ (ok tt, v))
    × (find (codes "tv/manifest.mpd") v.backend.cache.cache_items
        ≡ some (CacheItem.playlist (codes "tv/manifest.mpd") 0 (service_manifest 0)))
    × (get_service (codes "s2") v.backend ≡ none)
    × All (λ e. e.1 ≢ 0) v.backend.registry
unfolding streamless application relative_path directory
user_service-unowned_example = user_service-unowned setting 33 dated streamless dated-IsSound
