-- ===== src/Rest/Remote.antt =====
-- A concrete announcement of a service that a CDN offers, and the theorem about it.
use rt_mbms_mw.Cache.{CacheItem, stream_playlist}
use rt_mbms_mw.Backend.Lifetime.{is_held}
use rt_mbms_mw.Prelude.{
  ℕ, zero, suc, true, [], ◌∷◌, ◌++◌, some, ◌≡◌, ◌≢◌, refl, arith, if◌then◌else◌, ◌==◌, ◌%◌, ◌^◌,
  All, take, length, get_elem?,
}
use rt_mbms_mw.Prelude.Decimal.{atoi}
use rt_mbms_mw.Prelude.Int.{ℤ, pos, negsuc}
use rt_mbms_mw.Prelude.Key.{Bytes, equal, bytes_key}
use rt_mbms_mw.Prelude.Map.{find}
use rt_mbms_mw.Prelude.Result.{ok}
use rt_mbms_mw.Prelude.Text.{codes, trim_left, is_space, lines, trim, starts_with, after_last}
use rt_mbms_mw.Announcement.{Item, announcement_init, add_service_announcement_items, add_part}
use rt_mbms_mw.Announcement.Action.{
  for_each, ◌>>◌, ◌>>=◌, continue, catching, handled, not_null, string_of,
}
use rt_mbms_mw.Announcement.Announced.Application.{IsApplication, base_of}
use rt_mbms_mw.Announcement.Announced.Bootstrap.{IsAnnouncement, with_parts}
use rt_mbms_mw.Announcement.Announced.Cdn.{IsCdnService}
use rt_mbms_mw.Announcement.Bundle.{get_service, parse_bootstrap, if_type, relative_path}
use rt_mbms_mw.Announcement.Envelope.{
  handle_mbms_envelope, envelope_element, envelope_items, envelope_item, update_item, write_item,
  read_date, to_version,
}
use rt_mbms_mw.Announcement.Samples.{test_setting, test_world, test_xml, test_parts, part_of}
use rt_mbms_mw.Announcement.World.{World, Setting}
use rt_mbms_mw.Announcement.Xml.{mbms_envelope}
use rt_mbms_mw.Backend.{store_state, stream_ticked}
use rt_mbms_mw.Cdn.{Http, response}
use rt_mbms_mw.Flute.Tests.{TestFile, test_flute}
use rt_mbms_mw.Hls.Media.{MediaSegment, media_to_string}
use rt_mbms_mw.Hls.Media.Tests.{text_float}
use rt_mbms_mw.Hls.Primary.{
  HlsPrimaryPlaylist, primary_parse, primary_lines, primary_line, read_parameters,
}
use rt_mbms_mw.Hls.Primary.Parameters.{parse_parameters}
use rt_mbms_mw.Rest.{Request, file_reply, rest_get, is_authorized}
use rt_mbms_mw.Rest.Laws.{IsFileRequest}
use rt_mbms_mw.Rest.Polled.{IsAnswer, IsPolling}
use rt_mbms_mw.Rest.Scenario.{handler, no_server, item, usd_item, dated_envelope, sdp_item}
use rt_mbms_mw.Rest.Unicast.{parse_bootstrap-polled, parse_bootstrap-IsPolling}
use rt_mbms_mw.Seamless.{StreamState, directory, listed, SeamlessContentStream}
use rt_mbms_mw.Seamless.Scenario.{name, distinct, text, playlist, parsed}
use rt_mbms_mw.Seamless.Served.{segment_item}
use rt_mbms_mw.Service.{protocol_of, before_first, seamless}
use rt_mbms_mw.Stream.{hls}

abbrev primary_text : Bytes
primary_text = codes "#EXTM3U\n#EXT-X-STREAM-INF:BANDWIDTH=800,RESOLUTION=1280x720\na/p.m3u8\n"

abbrev hls_type : Bytes
hls_type = codes "application/vnd.apple.mpegurl"

-- The description of the bundle is that of the service.
abbrev setting : Setting ℕ Bytes
setting = record test_setting {
  xml = record test_xml {
    children = λ child e. test_xml.children child (if e == 1 then 41 else e);
  };
  mime_parts = λ s. test_parts ++ (part_of hls_type (codes "x.m3u8") primary_text ∷ []);
  parse_uri = λ s. some (record { path = codes "/" ++ s; query = []; base = codes "http://cdn/" });
}

abbrev world : World TestFile Bytes
world = record test_world { self = announcement_init (codes "000001") 0 (codes "0.0.0.0") true }

abbrev manifest_item : Item
manifest_item = item hls_type (codes "x.m3u8") (pos 0) (pos 0) 0 primary_text

abbrev dated : World TestFile Bytes
dated = record world {
  self = record (world.self) {
    items = dated_envelope ∷ usd_item ∷ sdp_item ∷ manifest_item ∷ [];
    dates_read = 2;
  };
}

is_dated :
    for_each
      (if_type mbms_envelope (handle_mbms_envelope setting))
      (with_parts setting (codes "sa") world).self.items
      (with_parts setting (codes "sa") world)
    ≡ (ok tt, dated)
unfolding add_service_announcement_items add_part trim_left is_space equal for_each ◌>>◌ ◌>>=◌
    continue if_type handle_mbms_envelope catching handled not_null envelope_element envelope_items
    envelope_item update_item read_date string_of write_item to_version atoi
is_dated = refl

announcement : IsAnnouncement setting (codes "sa") world
unfolding equal
announcement = record {
  dated = dated;
  dated_ok = is_dated;
  item = usd_item;
  only = record {
    before = dated_envelope ∷ [];
    after = sdp_item ∷ manifest_item ∷ [];
    split = refl;
    passes = refl;
    none_before = (refl, tt);
    none_after = (refl, (refl, tt));
  };
  bundle = 1;
  bundles = [];
  bundle_at = refl;
  usd = 40;
  usd_at = refl;
}

application : IsApplication hls setting 42 dated.self.items
unfolding equal protocol_of before_first
application = record {
  mime = hls_type;
  mime_at = refl;
  protocol_at = refl;
  uri = codes "x.m3u8";
  uri_at = refl;
  manifest = manifest_item;
  only = record {
    before = dated_envelope ∷ usd_item ∷ sdp_item ∷ [];
    after = [];
    split = refl;
    passes = refl;
    none_before = (refl, (refl, (refl, tt)));
    none_after = tt;
  };
  parsed = record { path = codes "/x.m3u8"; query = []; base = codes "http://cdn/" };
  parsed_ok = refl;
}

abbrev primary : HlsPrimaryPlaylist Bytes
primary = record {
  version = negsuc 0;
  streams =
      record {
        uri = codes "a/p.m3u8";
        resolution = codes "1280x720";
        codecs = [];
        bandwidth = 800;
        frame_rate = codes "0";
      }
      ∷ [];
}

primary_read : primary_parse primary_text (base_of application.parsed) ≡ ok primary
unfolding application relative_path directory primary_parse equal lines trim primary_lines
    primary_line starts_with after_last read_parameters parse_parameters atoi
primary_read = refl

service : IsCdnService setting 40 dated
unfolding equal find application
service = record {
  id = codes "s3";
  id_at = refl;
  is_new = refl;
  app = 42;
  apps = [];
  app_at = refl;
  hls = application;
  primary = primary;
  primary_ok = primary_read;
  unicast = record {
    element = 43;
    elements = [];
    element_at = refl;
    pattern = 44;
    pattern_at = refl;
    url = codes "a/p.m3u8";
    url_at = refl;
    endpoint = record { path = codes "/a/p.m3u8"; query = []; base = codes "http://cdn/" };
    endpoint_ok = refl;
    accepted = refl;
    no_method = refl;
    wanted = refl;
  };
}

-- The CDN has the playlist.
abbrev cdn_server : Http
cdn_server base path = response 200 text

no_name : (i : ℤ) → codes "a/p.m3u8" ≢ name i
no_name (pos zero) e = ground arith
no_name (pos (suc n)) e = ground arith
no_name (negsuc n) e = ground arith

answer :
    IsAnswer Bytes cdn_server
      (pos 6)
      name
      (codes "http://cdn/")
      (codes "a/p.m3u8")
      (directory (codes "a/p.m3u8"))
unfolding directory
answer = record {
  body = text;
  answered = refl;
  playlist = playlist;
  parsed = parsed;
  named = (refl, (refl, (refl, tt)));
  distinct = distinct;
  other = no_name;
}

abbrev request : Request
request = record {
  relative_uri = codes "/a/p.m3u8";
  paths = codes "a" ∷ codes "p.m3u8" ∷ [];
  authorization = [];
}

request-IsFileRequest : IsFileRequest handler request
unfolding is_authorized equal
request-IsFileRequest = record {
  authorized = refl;
  first = codes "a";
  rest = codes "p.m3u8" ∷ [];
  path = refl;
  no_api = refl;
}

parse_bootstrap-polled_example :
    (u : World TestFile Bytes) × (parse_bootstrap setting (codes "sa") world ≡ (ok tt, u))
    × (get_service (codes "s3") u.backend ≡ some 0)
    × ((v : StreamState TestFile Bytes) × (stream_ticked cdn_server (pos 6) 0 u.backend
          ≡ ok (store_state 0 u.backend v))
        × (v.stream.playlist
            ≡ media_to_string (record {
              version = negsuc 0;
              targetduration = pos 6;
              segments = listed v.heap v.stream.segments;
            }))
        × All
            (λ (m : MediaSegment Bytes).
              (place : ℕ) × (find m.uri v.cache.cache_items ≡ some (segment_item m.uri place)))
            (listed v.heap v.stream.segments)
        × (rest_get handler no_server 9 request (store_state 0 u.backend v)
            ≡ ok (
              file_reply (codes "GEN") (take (length v.stream.playlist % 2 ^ 32) v.stream.playlist),
              store_state 0 u.backend v,
            )))
unfolding announcement service answer
parse_bootstrap-polled_example =
    parse_bootstrap-polled setting (codes "sa") world announcement service cdn_server (pos 6) name
      answer handler no_server 9 request refl request-IsFileRequest refl

parse_bootstrap_places :
    (u : World TestFile Bytes) × (parse_bootstrap setting (codes "sa") world ≡ (ok tt, u))
    × (get_service (codes "s3") u.backend ≡ some 0)
    × ((s : SeamlessContentStream TestFile Bytes) × (get_elem? u.backend.streams 0
          ≡ some (seamless s))
        × IsPolling (codes "http://cdn/") (codes "a/p.m3u8") (directory (codes "a/p.m3u8")) s)
    × (is_held u.backend (stream_playlist 0) ≡ true)
    × (find (codes "a/p.m3u8") u.backend.cache.cache_items
        ≡ some (CacheItem.playlist (codes "a/p.m3u8") 0 (stream_playlist 0)))
unfolding announcement service
parse_bootstrap_places =
    parse_bootstrap-IsPolling setting (codes "sa") world announcement service refl
