-- ===== src/Announcement/Tests.antt =====
-- The items of a concrete announcement.
use rt_mbms_mw.Announcement.Setup.Alternative.{setup_by_alternative_content_element}
use rt_mbms_mw.Prelude.{List, [], ◌∷◌, ◌++◌, none, some, ◌≡◌, ◌≢◌, refl, map, true, false}
use rt_mbms_mw.Announcement.Address.{start_flute_receiver-split}
use rt_mbms_mw.Announcement.Caught.{parse_bootstrap-caught}
use rt_mbms_mw.Announcement.Missing.{
  IsAnonymous, missing_element, IsUnicastOnly, setup-unicast_only,
}
use rt_mbms_mw.Announcement.Known.{renamed, register_service-known}
use rt_mbms_mw.Announcement.Receiver.{start_flute_receiver}
use rt_mbms_mw.Announcement.Setup.{replace_sdp}
use rt_mbms_mw.Announcement.Setup.Config.{config_method}
use rt_mbms_mw.Announcement.Setup.Names.{replace_sdp-stem}
use rt_mbms_mw.Announcement.Setup.Restart.{IsBare, config_method_restarts}
use rt_mbms_mw.Announcement.Updates.{
  Metadata, HasMetadata, dated, calls, with_dates, envelope_element-dated,
}
use rt_mbms_mw.Announcement.Laws.{located, add_service_announcement_items-located}
use rt_mbms_mw.Prelude.Key.{Bytes, bytes_key, equal}
use rt_mbms_mw.Prelude.Decimal.{atoi}
use rt_mbms_mw.Prelude.Map.{find}
use rt_mbms_mw.Prelude.Text.{codes, trim_left, is_space, has, has-Lacks, contains, starts_with}
use rt_mbms_mw.Prelude.Int.{pos}
use rt_mbms_mw.Announcement.{Item, MimePart, add_service_announcement_items, add_part}
use rt_mbms_mw.Announcement.Action.{◌>>◌, ◌>>=◌, continue, not_null, string_of}
use rt_mbms_mw.Announcement.Bundle.{get_service, parse_bootstrap, handle_bundle, register_service}
use rt_mbms_mw.Announcement.Envelope.{
  handle_mbms_envelope, envelope_element, envelope_items, envelope_item, update_item, write_item,
  read_date, to_version, set_items,
}
use rt_mbms_mw.Announcement.Samples.{
  test_setting, test_world, test_xml, test_parts, empty_backend, fresh,
}
use rt_mbms_mw.Announcement.World.{World}
use rt_mbms_mw.Flute.Tests.{TestFile}
use rt_mbms_mw.Hls.Media.Tests.{text_float}
use rt_mbms_mw.Prelude.Result.{ok, throw, terminate, standard}
use rt_mbms_mw.Service.{basic, service_init}
use rt_mbms_mw.Stream.{rtp, ContentStream, stream_init}
use rt_mbms_mw.Stream.Sdp.{is_dot}

abbrev parts : List MimePart
parts =
    record { mime_type = codes "multipart/related"; location = none; text = [] }
    ∷ record {
      mime_type = codes "application/sdp";
      location = some (codes "a.sdp");
      text = codes " v=0";
    }
    ∷ []

one_item : map (λ i. i.content) (add_service_announcement_items parts []) ≡ codes "v=0" ∷ []
unfolding add_service_announcement_items add_part equal trim_left
one_item = refl

add_service_announcement_items-located_example :
    add_service_announcement_items parts (add_service_announcement_items parts [])
    ≡ add_service_announcement_items parts [] ++ located parts
add_service_announcement_items-located_example =
    add_service_announcement_items-located parts (add_service_announcement_items parts [])

parse_bootstrap-caught_example : (parse_bootstrap test_setting [] test_world).0 ≢ throw standard
parse_bootstrap-caught_example = parse_bootstrap-caught test_setting [] test_world

abbrev metadata : Metadata
metadata = record {
  uri = codes "a.sdp";
  from = codes "2022";
  until = codes "20223";
  version_text = codes "7";
}

metadata-HasMetadata : HasMetadata test_setting.xml 11 metadata
unfolding equal
metadata-HasMetadata = record { uri_at = refl; from_at = refl; until_at = refl; version_at = refl }

abbrev item_world : World TestFile Bytes
item_world = set_items (add_service_announcement_items test_parts []) test_world

envelope_element-dated_example : envelope_element test_setting 11 item_world ≡ (
  ok tt,
  with_dates test_setting
      (calls test_setting 0 metadata item_world.self.items)
      (dated test_setting 0 metadata item_world.self.items)
      item_world,
)
envelope_element-dated_example =
    envelope_element-dated test_setting 11 metadata metadata-HasMetadata item_world

versions :
    map (λ i. i.version) (envelope_element test_setting 11 item_world).1.self.items ≡ 0 ∷ 0 ∷ 7 ∷ []
unfolding envelope_element envelope_items envelope_item update_item read_date write_item to_version
    equal add_service_announcement_items add_part trim_left is_space ◌>>◌ ◌>>=◌ continue not_null
    string_of atoi
versions = refl

abbrev known_world : World TestFile Bytes
known_world = record test_world {
  backend = record empty_backend {
    services = service_init rtp ∷ [];
    registry = (codes "s1", 0) ∷ [];
  };
}

known_found : get_service (codes "s1") known_world.backend ≡ some 0
unfolding find equal
known_found = refl

register_service-known_example :
    (names : List (Bytes × Bytes)) × (register_service test_setting 2 (codes "s1") known_world
      ≡ (ok (0, false), renamed 0 (service_init rtp) names known_world))
register_service-known_example =
    register_service-known test_setting 2 (codes "s1") 0 (service_init rtp) known_world known_found
      refl

start_flute_receiver_parts :
    (start_flute_receiver (codes "239.0.0.1" ++ (b':' ∷ codes "4000")) fresh ≡ (
      ok tt,
      record fresh {
        mcast_addr = codes "239.0.0.1";
        mcast_port = codes "4000";
        flute_thread = true;
      },
    ))
    × (start_flute_receiver (codes "239.0.0.1") fresh ≡ (ok tt, fresh))
start_flute_receiver_parts =
    start_flute_receiver-split (codes "239.0.0.1") (codes "4000") (codes "239.0.0.1") fresh
      (has-Lacks b':' (codes "239.0.0.1") (unfold has in refl)) (unfold has in refl) refl

replace_sdp_news :
    replace_sdp (codes ".m3u8") (codes "http://bc/news" ++ codes ".sdp")
    ≡ codes "http://bc/news" ++ codes ".m3u8"
replace_sdp_news =
    replace_sdp-stem (codes ".m3u8") (codes "http://bc/news")
      (unfold contains in unfold starts_with in refl)

-- The dot of the expression stands for any character.
replaced_inside : replace_sdp (codes ".m3u8") (codes "tasdps.sdp") ≡ codes "t.m3u8s.m3u8"
unfolding replace_sdp starts_with is_dot
replaced_inside = refl

abbrev running : ContentStream Bytes
running = record (stream_init (record { bandwidth = 0; frame_rate = [] }) [] [] rtp) {
  stream_type = codes "FLUTE/UDP";
  flute_thread = true;
}

abbrev running_world : World TestFile Bytes
running_world = record known_world {
  backend = record (known_world.backend) { streams = basic running ∷ [] };
}

IsBare-method : IsBare test_xml 12
unfolding equal
IsBare-method = record {
  uri = codes "b.sdp";
  uri_at = refl;
  no_broadcast = refl;
  no_unicast = refl;
}

config_method_restarts_example :
    config_method test_setting 0 4 12 (record { broadcast = 0 ∷ []; unicast = [] }) running_world
    ≡ (terminate, running_world)
config_method_restarts_example =
    config_method_restarts test_setting 0 (service_init rtp) 4 12 0 [] running_world IsBare-method
      refl (record { any = basic running; at_place = refl; flute = refl; thread = refl })

abbrev item : Bytes → Item
item content = record {
  content_type = [];
  uri = [];
  valid_from = pos 0;
  valid_until = pos 0;
  version = 0;
  content = content;
}

anonymous : IsAnonymous test_setting (codes "<anon/>")
unfolding equal
anonymous = record {
  bundle = 31;
  others = [];
  bundle_at = refl;
  usd = 32;
  rest = [];
  usd_at = refl;
  no_id = refl;
}

missing_element_example :
    (handle_mbms_envelope test_setting (item (codes "<none/>")) test_world
      ≡ (terminate, test_world))
    × (handle_bundle test_setting (item (codes "<none/>")) (codes "default") test_world
        ≡ (terminate, test_world))
    × (handle_bundle test_setting (item (codes "<anon/>")) (codes "default") test_world
        ≡ (ok tt, test_world))
missing_element_example =
    missing_element test_setting (item (codes "<none/>")) (item (codes "<none/>"))
      (item (codes "<anon/>")) (codes "default") test_world (unfold equal in refl)
      (unfold equal in refl) anonymous

unicast_only : IsUnicastOnly test_setting 42 45
unfolding equal
unicast_only = record {
  element = 43;
  elements = [];
  element_at = refl;
  pattern = 44;
  patterns = [];
  pattern_at = refl;
  url = codes "a/p.m3u8";
  url_at = refl;
  method = 46;
  methods = [];
  method_at = refl;
  no_broadcast = refl;
}

-- A service is registered.
abbrev served_world : World TestFile Bytes
served_world = record test_world {
  backend = record empty_backend { services = service_init rtp ∷ [] };
}

setup-unicast_only_example :
    (v : World TestFile Bytes) × (setup_by_alternative_content_element test_setting 0 42 45
        served_world
      ≡ (terminate, v))
setup-unicast_only_example =
    setup-unicast_only test_setting 0 42 45 (service_init rtp) served_world unicast_only refl
