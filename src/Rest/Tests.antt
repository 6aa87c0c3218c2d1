-- ===== src/Rest/Tests.antt =====
-- Runs of the REST interface, and its theorems at concrete requests.
use rt_mbms_mw.Backend.Lifetime.{is_held}
use rt_mbms_mw.Hls.Media.Tests.{text_float}
use rt_mbms_mw.Rest.Delivered.{stream_received-served}
use rt_mbms_mw.Backend.{Backend, stream_received}
use rt_mbms_mw.Prelude.{
  ◌%◌, ◌^◌, true, false, [], ◌∷◌, ◌++◌, none, some, ◌≡◌, refl, length, take, List, arith, ◌≢◌,
}
use rt_mbms_mw.Prelude.Int.{pos}
use rt_mbms_mw.Prelude.Key.{Bytes, bytes_key, equal}
use rt_mbms_mw.Prelude.Map.{find}
use rt_mbms_mw.Prelude.Result.{ok}
use rt_mbms_mw.Prelude.Text.{codes, contains, starts_with}
use rt_mbms_mw.Cache.{CacheItem, stream_playlist}
use rt_mbms_mw.Cdn.{Http, response}
use rt_mbms_mw.Flute.Tests.{TestFile, test_flute}
use rt_mbms_mw.Seamless.{SeamlessContentStream, seamless_init}
use rt_mbms_mw.Segment.{Segment, segment_init, set_cdn_client, data_source, unavailable}
use rt_mbms_mw.Service.{seamless, service_init, basic}
use rt_mbms_mw.Stream.{rtp, hls, stream_init, ContentStream, dash, cached_location}
use rt_mbms_mw.Announcement.Samples.{empty_backend}
use rt_mbms_mw.Backend.Sound.{IsSound}
use rt_mbms_mw.Rest.Listed.{IsServicesRequest, IsListed, rest_get-services}
use rt_mbms_mw.Rest.Rows.{ServiceRow}
use rt_mbms_mw.Rest.{
  services_reply, RestHandler, Request, unauthorized, not_found, file_reply, is_authorized,
  rest_get, rest_put,
}
use rt_mbms_mw.Rest.Laws.{rest_get_refused, IsFileRequest, rest_get-playlist, rest_get_retry}

abbrev open_handler : RestHandler
open_handler = record { require_bearer_token = false; api_key = []; api_path = codes "mw-api" }

abbrev closed_handler : RestHandler
closed_handler = record {
  require_bearer_token = true;
  api_key = codes "key";
  api_path = codes "mw-api";
}

abbrev server : Http
server base path = response 200 (codes "media")

abbrev segment : Segment TestFile Bytes
segment =
    set_cdn_client (record { base_url = codes "http://cdn" })
      (segment_init (codes "a/1.ts") (pos 1) (codes "2.0"))

abbrev stream : SeamlessContentStream TestFile Bytes
stream = seamless_init (stream_init (record { bandwidth = 0; frame_rate = [] }) [] [] hls) none none

abbrev backend : Backend TestFile Bytes
backend = record {
  cache = record {
    cache_items =
        (codes "a/1.ts", CacheItem.segment (codes "a/1.ts") 0 0)
        ∷ (codes "a/p.m3u8", CacheItem.playlist (codes "a/p.m3u8") 0 (stream_playlist 0))
        ∷ [];
    max_cache_size = 100;
    max_cache_file_age = 30;
  };
  segments = segment ∷ [];
  streams = seamless stream ∷ [];
  services = record (service_init rtp) { content_streams = (codes "a/p.m3u8", 0) ∷ [] } ∷ [];
  registry = (codes "s1", 0) ∷ [];
  announcement = none;
}

abbrev request : Bytes → Request
request file = record {
  relative_uri = codes "/a/" ++ file;
  paths = codes "a" ∷ file ∷ [];
  authorization = [];
}

request-IsFileRequest : (file : Bytes) → IsFileRequest open_handler (request file)
unfolding is_authorized equal
request-IsFileRequest file = record {
  authorized = refl;
  first = codes "a";
  rest = file ∷ [];
  path = refl;
  no_api = refl;
}

rest_get_refused_example :
    (rest_get closed_handler server 9 (request (codes "1.ts")) backend ≡ ok (unauthorized, backend))
    × (rest_put {D = Bytes} closed_handler (request (codes "1.ts")) ≡ unauthorized)
rest_get_refused_example =
    rest_get_refused closed_handler server 9 (request (codes "1.ts")) backend refl (λ e. cc)

playlist_found :
    find (codes "a/p.m3u8") backend.cache.cache_items
    ≡ some (CacheItem.playlist (codes "a/p.m3u8") 0 (stream_playlist 0))
unfolding find equal
playlist_found = refl

stream_is_held : is_held backend (stream_playlist 0) ≡ true
unfolding is_held
stream_is_held = refl

rest_get-playlist_example :
    rest_get open_handler server 9 (request (codes "p.m3u8")) backend
    ≡ ok
        (file_reply (codes "GEN") (take (length stream.playlist % 2 ^ 32) stream.playlist), backend)
rest_get-playlist_example =
    rest_get-playlist open_handler server 9 (request (codes "p.m3u8")) backend 0 0
      (codes "a/p.m3u8") stream (request-IsFileRequest (codes "p.m3u8")) playlist_found refl
      stream_is_held

segment_found :
    find (codes "a/1.ts") backend.cache.cache_items ≡ some (CacheItem.segment (codes "a/1.ts") 0 0)
unfolding find equal
segment_found = refl

no_source : data_source segment ≡ unavailable
unfolding data_source
no_source = refl

rest_get_retry_example :
    (b' : Backend TestFile Bytes) × (rest_get open_handler server 9 (request (codes "1.ts")) backend
      ≡ ok (not_found, b'))
    × (rest_get open_handler server 12 (request (codes "1.ts")) b'
        ≡ ok (file_reply (codes "CDN") (codes "media"), b'))
rest_get_retry_example =
    rest_get_retry open_handler server 9 12 (request (codes "1.ts")) backend 0 0 (codes "a/1.ts")
      (codes "media") segment _ (request-IsFileRequest (codes "1.ts")) segment_found refl no_source
      refl refl

abbrev list_request : Request
list_request = record {
  relative_uri = codes "/mw-api/services";
  paths = codes "mw-api" ∷ codes "services" ∷ [];
  authorization = [];
}

abbrev listed_stream : SeamlessContentStream TestFile Bytes
listed_stream = stream

abbrev listed_backend : Backend TestFile Bytes
listed_backend = record empty_backend {
  streams = seamless listed_stream ∷ [];
  services = record (service_init rtp) { content_streams = (codes "p", 0) ∷ [] } ∷ [];
  registry = (codes "s1", 0) ∷ [];
}

listed_backend-IsSound : IsSound listed_backend
unfolding seamless_init
listed_backend-IsSound = record {
  cache_in = record { sorted = tt; entries = tt };
  streams_in = (tt, tt);
  services_in = (((tt, tt), (omega arith, tt)), tt);
  registry_sorted = (tt, tt);
  registered = (record { service = _; at_place = refl; ne_nil = λ e. cc }, tt);
}

list_request-IsServicesRequest : IsServicesRequest open_handler list_request
unfolding is_authorized
list_request-IsServicesRequest = record { authorized = refl; rest = []; path = refl }

rest_get-services_example :
    (rows : List (ServiceRow Bytes)) × (rest_get open_handler server 5 list_request listed_backend
      ≡ ok (services_reply rows, listed_backend))
    × IsListed listed_backend listed_backend.registry rows
rest_get-services_example =
    rest_get-services open_handler server 5 list_request listed_backend
      list_request-IsServicesRequest listed_backend-IsSound

abbrev dash_stream : ContentStream Bytes
dash_stream = record (stream_init (record { bandwidth = 0; frame_rate = [] }) [] [] dash) {
  base_path = codes "a/";
}

abbrev dash_backend : Backend TestFile Bytes
dash_backend = record backend { streams = seamless stream ∷ basic dash_stream ∷ [] }

abbrev media_file : TestFile
media_file = record { location = codes "1.ts"; content = codes "frames"; time = 7 }

media_file_at :
    cached_location dash_stream (test_flute.content_location media_file) ≡ some (codes "a/1.ts")
unfolding cached_location contains equal starts_with stream_init
media_file_at = refl

stream_received-served_example :
    (b' : Backend TestFile Bytes) × (stream_received (pos 0) 1 media_file dash_backend ≡ ok b')
    × (rest_get open_handler server 9 (request (codes "1.ts")) b'
        ≡ ok (file_reply (codes "5G-BC") (take (6 % 2 ^ 32) (codes "frames")), b'))
    × ((q : Bytes)
        → q ≢ codes "a/1.ts"
        → find q b'.cache.cache_items ≡ find q dash_backend.cache.cache_items)
stream_received-served_example =
    stream_received-served open_handler server (pos 0) 1 9 (request (codes "1.ts")) media_file
      dash_backend dash_stream refl media_file_at (request-IsFileRequest (codes "1.ts"))
