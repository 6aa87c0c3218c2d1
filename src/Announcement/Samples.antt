-- ===== src/Announcement/Samples.antt =====
-- A concrete announcement: its elements are numbered, and tables hold their children, attributes and
-- texts.
use rt_mbms_mw.Prelude.{
  ℕ, true, false, ◌&&◌, List, [], ◌∷◌, Option, none, some, if◌then◌else◌, ◌==◌, length,
}
use rt_mbms_mw.Prelude.Int.{pos}
use rt_mbms_mw.Prelude.Key.{Bytes, equal}
use rt_mbms_mw.Prelude.Text.{codes}
use rt_mbms_mw.Announcement.{MimePart, ServiceAnnouncement, announcement_init}
use rt_mbms_mw.Announcement.World.{World, Setting}
use rt_mbms_mw.Announcement.Xml.{
  Xml, bundle_description, name_element, lang, user_service_description, service_id, app_service,
  delivery_method, session_description_uri, base_pattern, broadcast_app_service,
  alternative_content, mime_type, metadata_envelope, metadata_uri, item_element, version,
  valid_from, valid_until, mbms_envelope, mbms_user_service_description, sdp_type,
  app_service_description_uri,
}
use rt_mbms_mw.Backend.{Backend}
use rt_mbms_mw.Flute.Tests.{TestFile}
use rt_mbms_mw.Stream.{rtp}

abbrev look {ℓ} : {A : Type ℓ} → A → Bytes → ℕ → List (ℕ × Bytes × A) → A
look default name e [] = default
look default name e ((d, n, a) ∷ rows) =
    if d == e && equal n name then a else look default name e rows

abbrev child_table : List (ℕ × Bytes × List ℕ)
child_table =
    (0, bundle_description, 1 ∷ [])
    ∷ (0, metadata_envelope, 10 ∷ [])
    ∷ (1, user_service_description, 2 ∷ [])
    ∷ (2, name_element, 3 ∷ [])
    ∷ (2, app_service, 4 ∷ [])
    ∷ (2, delivery_method, 7 ∷ [])
    ∷ (4, alternative_content, 5 ∷ [])
    ∷ (5, base_pattern, 6 ∷ [])
    ∷ (7, broadcast_app_service, 8 ∷ [])
    ∷ (8, base_pattern, 9 ∷ [])
    ∷ (10, item_element, 11 ∷ [])
    ∷ (30, bundle_description, 31 ∷ [])
    ∷ (31, user_service_description, 32 ∷ [])
    ∷ (33, app_service, 4 ∷ [])
    ∷ (40, app_service, 42 ∷ [])
    ∷ (41, user_service_description, 40 ∷ [])
    ∷ (42, alternative_content, 43 ∷ [])
    ∷ (43, base_pattern, 44 ∷ [])
    ∷ (45, delivery_method, 46 ∷ [])
    ∷ []

abbrev attribute_table : List (ℕ × Bytes × Option Bytes)
attribute_table =
    (2, service_id, some (codes "s1"))
    ∷ (3, lang, some (codes "en"))
    ∷ (4, mime_type, some (codes "application/dash+xml"))
    ∷ (4, app_service_description_uri, some (codes "x.mpd"))
    ∷ (7, session_description_uri, some (codes "a.sdp"))
    ∷ (11, metadata_uri, some (codes "a.sdp"))
    ∷ (11, valid_from, some (codes "2022"))
    ∷ (11, valid_until, some (codes "20223"))
    ∷ (11, version, some (codes "7"))
    ∷ (12, session_description_uri, some (codes "b.sdp"))
    ∷ (33, service_id, some (codes "s2"))
    ∷ (40, service_id, some (codes "s3"))
    ∷ (42, mime_type, some (codes "application/vnd.apple.mpegurl"))
    ∷ (42, app_service_description_uri, some (codes "x.m3u8"))
    ∷ []

abbrev text_table : List (ℕ × Bytes × Option Bytes)
text_table =
    (3, [], some (codes "News"))
    ∷ (6, [], some (codes "http://bc/x"))
    ∷ (9, [], some (codes "http://bc/x"))
    ∷ (44, [], some (codes "a/p.m3u8"))
    ∷ []

-- Two documents are special: one is empty, and in one a description has no id.
abbrev document : Bytes → ℕ
document s = if equal s (codes "<none/>") then 20 else if equal s (codes "<anon/>") then 30 else 0

abbrev pub test_xml : Xml ℕ
test_xml = record {
  parse = document;
  children = λ name e. look [] name e child_table;
  attribute = λ name e. look none name e attribute_table;
  get_text = λ e. look none [] e text_table;
}

abbrev pub part_of : Bytes → Bytes → Bytes → MimePart
part_of type location content = record {
  mime_type = type;
  location = some location;
  text = content;
}

abbrev pub test_parts : List MimePart
test_parts =
    part_of mbms_envelope (codes "envelope.xml") (codes "<e/>")
    ∷ part_of mbms_user_service_description (codes "usd.xml") (codes "<u/>")
    ∷ part_of sdp_type (codes "a.sdp")
        (codes "c=IN IP4 239.0.0.1\nm=application 4000 FLUTE/UDP\na=flute-tsi:5\n")
    ∷ []

abbrev pub test_setting : Setting ℕ Bytes
test_setting = record {
  xml = test_xml;
  mime_parts = λ s. test_parts;
  parse_uri = λ s. some (record { path = s; query = []; base = s });
  http_client = λ s. true;
  read_time = λ n s. pos (length s);
  gzip_decompress = λ s. some s;
  bootstrap_format = none;
  max_segments_per_stream = none;
  truncate_cdn_playlist_segments = none;
  garbage = record { bandwidth = 0; frame_rate = [] };
  garbage_protocol = rtp;
}

abbrev pub empty_backend : Backend TestFile Bytes
empty_backend = record {
  cache = record { cache_items = []; max_cache_size = 100; max_cache_file_age = 30 };
  segments = [];
  streams = [];
  services = [];
  registry = [];
  announcement = none;
}

abbrev pub fresh : ServiceAnnouncement
fresh = announcement_init (codes "000001") 0 (codes "0.0.0.0") false

abbrev pub test_world : World TestFile Bytes
test_world = record { self = fresh; backend = empty_backend }
