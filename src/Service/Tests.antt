-- ===== src/Service/Tests.antt =====
-- Runs of a service, and its theorems at concrete services.
use rt_mbms_mw.Hls.Primary.Tests.{hd, hd-IsPrintableStream}
use rt_mbms_mw.Prelude.{List, [], ◌∷◌, ◌++◌, some, ◌≡◌, refl, All, map}
use rt_mbms_mw.Prelude.Int.{pos}
use rt_mbms_mw.Prelude.Key.{Bytes, bytes_key, equal}
use rt_mbms_mw.Prelude.Map.{find, insert}
use rt_mbms_mw.Prelude.Result.{Result, ok, terminate}
use rt_mbms_mw.Prelude.Text.{codes, has-Lacks, has, is_solid}
use rt_mbms_mw.Flute.Tests.{TestFile}
use rt_mbms_mw.Hls.Media.Tests.{text_float}
use rt_mbms_mw.Hls.Primary.{PrimaryStream, primary_parse}
use rt_mbms_mw.Hls.Primary.RoundTrip.{IsPrintableStream, reread}
use rt_mbms_mw.Stream.{ContentStream, hls, rtp, stream_init, start}
use rt_mbms_mw.Service.{
  Service, AnyStream, basic, service_init, set_delivery_protocol_from_mime_type, protocol_of,
  match_streams, listed_streams, add_and_start_content_stream,
}
use rt_mbms_mw.Service.Matching.{
  set_delivery_protocol_profile, match_streams-last, last_with, with_found,
}
use rt_mbms_mw.Service.Adding.{add_and_start-manifest, add_and_start_twice}

abbrev dash_type : Bytes
dash_type = codes "application/dash+xml"

abbrev profile : Bytes
profile = codes "profiles=urn:3GPP"

profile_left_out :
    (set_delivery_protocol_from_mime_type
        (dash_type ++ (b';' ∷ profile))
        (service_init {D = Bytes} rtp)
      ≡ set_delivery_protocol_from_mime_type dash_type (service_init rtp))
    × ((set_delivery_protocol_from_mime_type dash_type
          (service_init {D = Bytes} rtp)).delivery_protocol
        ≡ protocol_of dash_type)
profile_left_out =
    set_delivery_protocol_profile dash_type profile (service_init rtp)
      (has-Lacks b';' dash_type (unfold has in refl))

-- An entry of the primary playlist; the new manifest puts `/` before the path.
abbrev entry : Bytes → PrimaryStream Bytes
entry resolution = record hd { uri = codes "hd/index.m3u8"; resolution = resolution }

-- A stream for FLUTE.
abbrev tuned : ContentStream Bytes
tuned = record (stream_init (record { bandwidth = 0; frame_rate = [] }) [] [] hls) {
  playlist_path = codes "hd/index.m3u8";
  stream_type = codes "FLUTE/UDP";
}

match_streams-last_example :
    match_streams (entry (codes "1x1") ∷ entry (codes "1280x720") ∷ []) tuned
    ≡ with_found
        (last_with tuned.playlist_path (entry (codes "1x1") ∷ entry (codes "1280x720") ∷ []))
        tuned
match_streams-last_example =
    match_streams-last (entry (codes "1x1") ∷ entry (codes "1280x720") ∷ []) tuned

abbrev service : Service Bytes
service = record (service_init hls) {
  hls_primary_playlist = record { version = pos 3; streams = entry (codes "1280x720") ∷ [] };
}

abbrev place_of :
    Result (Service Bytes × List (AnyStream TestFile Bytes))
    → Service Bytes × List (AnyStream TestFile Bytes)
place_of (ok r) = r
place_of _ = (service, [])

abbrev after : Service Bytes × List (AnyStream TestFile Bytes)
after = place_of (add_and_start_content_stream 0 (basic tuned ∷ []) service)

after_ok : add_and_start_content_stream 0 (basic tuned ∷ []) service ≡ ok (after.0, after.1)
unfolding add_and_start_content_stream start match_streams equal stream_init
after_ok = refl

add_and_start_twice_example : add_and_start_content_stream 0 after.1 service ≡ terminate
add_and_start_twice_example =
    add_and_start_twice 0 (basic tuned) service after.0 service (basic tuned ∷ []) after.1 refl refl
      after_ok

after_printable : All IsPrintableStream (listed_streams after.1 after.0.content_streams)
unfolding add_and_start_content_stream start match_streams equal stream_init listed_streams insert
    is_solid has
after_printable = (hd-IsPrintableStream, tt)

add_and_start-manifest_example :
    (find tuned.playlist_path after.0.content_streams ≡ some 0)
    × (primary_parse after.0.manifest []
        ≡ ok (record {
          version = pos 3;
          streams = map (reread []) (listed_streams after.1 after.0.content_streams);
        }))
add_and_start-manifest_example =
    add_and_start-manifest 0 (basic tuned) service after.0 (basic tuned ∷ []) after.1 refl refl
      after_ok after_printable
