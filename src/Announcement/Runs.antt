-- ===== src/Announcement/Runs.antt =====
-- Runs of the parser of an announcement.
use rt_mbms_mw.Prelude.{ℕ, [], ◌∷◌, ◌≡◌, refl, map}
use rt_mbms_mw.Prelude.Key.{Bytes, bytes_key, equal, less}
use rt_mbms_mw.Prelude.Map.{find, insert}
use rt_mbms_mw.Prelude.Text.{codes, trim_left, is_space, lines}
use rt_mbms_mw.Cache.{CacheItem, service_manifest}
use rt_mbms_mw.Announcement.Xml.{mbms_user_service_description}
use rt_mbms_mw.Announcement.{add_service_announcement_items, add_part}
use rt_mbms_mw.Announcement.Action.{
  for_each, ◌>>◌, ◌>>=◌, continue, catching, handled, not_null, string_of, fold_each, settle,
}
use rt_mbms_mw.Announcement.Bundle.{
  parse_bootstrap, add_items, if_type, handle_bundle, user_service, register_service, found_or_new,
  read_name, handle_app_service, app_service_item, setup, publish, set_service,
}
use rt_mbms_mw.Announcement.Envelope.{
  handle_mbms_envelope, envelope_element, envelope_items, envelope_item, update_item, write_item,
  read_date, to_version,
}
use rt_mbms_mw.Announcement.Samples.{test_setting, test_world, part_of}
use rt_mbms_mw.Announcement.Setup.Alternative.{
  setup_by_alternative_content_element, alternative_patterns, alternative_pattern,
  alternative_method, alternative_item, configure_item, find_endpoint,
}
use rt_mbms_mw.Announcement.World.{
  World, Setting, change_service, ask_service, make_stream, make_shared, read_stream_manifest,
  configure_stream, on_stream, store_stream, stream_call_at, add_stream, stream_added,
}
use rt_mbms_mw.Flute.Tests.{TestFile}
use rt_mbms_mw.Hls.Media.Tests.{text_float}
use rt_mbms_mw.Service.{
  add_name, set_delivery_protocol_from_mime_type, before_first, protocol_of,
  add_and_start_content_stream,
}
use rt_mbms_mw.Stream.{
  stream_init, configure_5gbc_delivery_from_sdp, configure_lines, configure_line, is_configured,
  start,
}
use rt_mbms_mw.Stream.Sdp.{sdp_line, stoul}
use rt_mbms_mw.Announcement.Bundle.{described, relative_path, parsed_uri}
use rt_mbms_mw.Announcement.World.{read_service_manifest, manifest_read}
use rt_mbms_mw.Seamless.{directory}
use rt_mbms_mw.Service.{service_read_master_manifest, manifest_name}
use rt_mbms_mw.Cache.{add_item}

-- The announcement of the samples makes one service, with one stream that receives.
abbrev parsed : World TestFile Bytes
parsed = (parse_bootstrap test_setting [] test_world).1

parsed_service : parsed.backend.registry ≡ (codes "s1", 0) ∷ []
unfolding parse_bootstrap add_items add_service_announcement_items add_part trim_left is_space equal
    for_each ◌>>◌ ◌>>=◌ continue if_type handle_mbms_envelope handle_bundle catching handled
    not_null envelope_element envelope_items envelope_item update_item read_date string_of
    write_item to_version user_service register_service found_or_new read_name change_service
    ask_service add_name insert less handle_app_service set_delivery_protocol_from_mime_type
    before_first protocol_of app_service_item setup setup_by_alternative_content_element
    alternative_patterns alternative_pattern make_stream make_shared stream_init fold_each
    alternative_method alternative_item read_stream_manifest configure_stream on_stream store_stream
    stream_call_at configure_item configure_5gbc_delivery_from_sdp configure_lines configure_line
    is_configured sdp_line lines find_endpoint add_stream stream_added settle
    add_and_start_content_stream start publish set_service find stoul
parsed_service = refl

-- Without a session description the service has no stream and is not registered, but the cache has
-- an item that reads its manifest.
abbrev unregistered_setting : Setting ℕ Bytes
unregistered_setting = record test_setting {
  mime_parts = λ s.
      part_of mbms_user_service_description (codes "usd.xml") (codes "<u/>")
      ∷ part_of (codes "application/dash+xml") (codes "x.mpd") (codes "<MPD/>")
      ∷ [];
}

abbrev unregistered : World TestFile Bytes
unregistered = (parse_bootstrap unregistered_setting [] test_world).1

manifest_left :
    (unregistered.backend.registry ≡ [])
    × (map (λ e. e.1) unregistered.backend.cache.cache_items
        ≡ CacheItem.playlist (codes "manifest.mpd") 0 (service_manifest 0) ∷ [])
unfolding parse_bootstrap add_items add_service_announcement_items add_part trim_left is_space equal
    for_each ◌>>◌ ◌>>=◌ continue if_type handle_mbms_envelope handle_bundle catching handled
    not_null envelope_element envelope_items envelope_item update_item read_date string_of
    write_item to_version user_service register_service found_or_new read_name change_service
    ask_service add_name insert less handle_app_service set_delivery_protocol_from_mime_type
    before_first protocol_of app_service_item setup setup_by_alternative_content_element
    alternative_patterns alternative_pattern make_stream make_shared stream_init fold_each
    alternative_method alternative_item read_stream_manifest configure_stream on_stream store_stream
    stream_call_at configure_item configure_5gbc_delivery_from_sdp configure_lines configure_line
    is_configured sdp_line lines find_endpoint add_stream stream_added settle
    add_and_start_content_stream start publish set_service find stoul described relative_path
    directory parsed_uri read_service_manifest manifest_read service_read_master_manifest
    manifest_name add_item
manifest_left = (refl, refl)
