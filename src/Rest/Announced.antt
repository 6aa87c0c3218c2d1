-- ===== src/Rest/Announced.antt =====
-- From an announcement to the answers of the REST interface: src/ServiceAnnouncement.cpp,
-- src/Service.cpp, src/ContentStream.cpp and src/RestHandler.cpp together.
use rt_mbms_mw.Backend.Lifetime.{item_held, is_held, leads_to-insert}
use rt_mbms_mw.Prelude.{
  ℕ, ◌%◌, ◌^◌, some, ◌≡◌, refl, ap, ◌∙◌, take, length, get_elem?, get_elem?-length, true,
}
use rt_mbms_mw.Prelude.Float.{Float}
use rt_mbms_mw.Prelude.Int.{ℤ}
use rt_mbms_mw.Prelude.Key.{Bytes, bytes_key}
use rt_mbms_mw.Prelude.Map.{find, find-insert_self}
use rt_mbms_mw.Prelude.Result.{ok}
use rt_mbms_mw.Prelude.Text.{codes}
use rt_mbms_mw.Announcement.Announced.{
  IsDashService, announced_service, announced_world, user_service-announced,
}
use rt_mbms_mw.Announcement.Announced.Bootstrap.{IsAnnouncement, parse_bootstrap-ok}
use rt_mbms_mw.Announcement.Announced.Dash.{manifest_path_of}
use rt_mbms_mw.Announcement.Bundle.{get_service, set_service, parse_bootstrap}
use rt_mbms_mw.Announcement.World.{World, Setting}
use rt_mbms_mw.Announcement.Xml.{default_format, fiveg_mag_legacy}
use rt_mbms_mw.Backend.{Backend, stream_received}
use rt_mbms_mw.Cache.{
  CacheItem, service_manifest, add_item, content_length, item_source, source_string, lookup_value,
}
use rt_mbms_mw.Cdn.{Http}
use rt_mbms_mw.Flute.{Flute}
use rt_mbms_mw.Rest.{
  RestHandler, Request, file_reply, rest_get, serve_item, tested_reply, body_reply, item_buffer,
}
use rt_mbms_mw.Rest.Delivered.{stream_received-served}
use rt_mbms_mw.Rest.Laws.{IsFileRequest, rest_get-file, serve_file-item}
use rt_mbms_mw.Rest.Rows.{callback_text}
use rt_mbms_mw.Seamless.{erase_first}
use rt_mbms_mw.Service.{Service, basic}
use rt_mbms_mw.Stream.{cached_location}

module _ {F D : Type 0} ⦃flute : Flute F⦄ where
  callback_text_manifest :
      (b : Backend F D) (place : ℕ) (s : Service D)
      → get_elem? b.services place ≡ some s
      → callback_text b (service_manifest place) ≡ s.manifest
  unfolding callback_text
  callback_text_manifest b place s g = rw (g, callback_text) refl

  pub rest_get-manifest :
      (r : RestHandler) (http : Http) (now : ℕ) (m : Request) (b : Backend F D) (place t : ℕ)
      (l : Bytes) (s : Service D)
      → IsFileRequest r m
      → find (erase_first m.relative_uri) b.cache.cache_items
        ≡ some (CacheItem.playlist l t (service_manifest place))
      → get_elem? b.services place ≡ some s
      → is_held b (service_manifest place) ≡ true
      → rest_get r http now m b
        ≡ ok (file_reply (codes "GEN") (take (length s.manifest % 2 ^ 32) s.manifest), b)
  unfolding serve_item tested_reply body_reply item_buffer content_length item_source source_string
      item_held
  rest_get-manifest r http now m b place t l s f e g h =
      rest_get-file r http now m b f
      ∙ serve_file-item http now _ _ b e h
      ∙ ap ok (rw (callback_text_manifest b place s g) refl)

module _ {E F D : Type 0} ⦃flute : Flute F⦄ ⦃float : Float D⦄ (g : Setting E D) where
  -- Take an announcement in the format `5gmag_legacy`, whose envelopes are handled, and which has one
  -- bundle of one description: of a new DASH service, whose manifest and session description are
  -- among the items, and whose stream can be configured and started. The parser returns, and the
  -- service is registered. A request for `manifest.mpd` in the directory of the manifest, which is
  -- authorized and not for the API, is answered with the manifest (the first bytes, as many as its
  -- length modulo 2^32). And when the stream that was made receives a file that it puts at the
  -- location of such a request, the file is stored, and the request answered with it in the same
  -- way.
  pub parse_bootstrap-served :
      (str : Bytes) (w : World F D) (a : IsAnnouncement g str w) (d : IsDashService g a.usd a.dated)
      (r : RestHandler) (http : Http) (now later : ℕ) (m q : Request) (garbage : ℤ) (file : F)
      → lookup_value g.bootstrap_format default_format ≡ fiveg_mag_legacy
      → IsFileRequest r m
      → erase_first m.relative_uri ≡ manifest_path_of d.dash.parsed
      → IsFileRequest r q
      → cached_location d.started.running (flute.content_location file)
        ≡ some (erase_first q.relative_uri)
      → (v : World F D) × (parse_bootstrap g str w ≡ (ok tt, v))
        × (get_service d.id v.backend ≡ some (length a.dated.backend.services))
        × (rest_get r http now m v.backend
            ≡ ok (
              file_reply
                  (codes "GEN")
                  (take (length d.dash.manifest.content % 2 ^ 32) d.dash.manifest.content),
              v.backend,
            ))
        × ((b : Backend F D) × (stream_received garbage
                (length a.dated.backend.streams)
                file
                v.backend
              ≡ ok b)
            × (rest_get r http later q b
                ≡ ok (
                  file_reply
                      (codes "5G-BC")
                      (take (flute.length file % 2 ^ 32) (flute.buffer file)),
                  b,
                )))
  unfolding set_service add_item is_held
  parse_bootstrap-served str w a d r http now later m q garbage file e f p h c =
      let (names, done) = user_service-announced g a.usd a.dated d in
      let v = announced_world g a.usd a.dated d names in
      let services = a.dated.backend.services in
      let streams = a.dated.backend.streams in
      let (b, stored, answered, others) =
        stream_received-served r http garbage (length streams) later q file v.backend
          d.started.running (get_elem?-length streams (basic d.started.running)) c h in
      (
        v,
        parse_bootstrap-ok g str w v a (rw e done),
        find-insert_self d.id (length services) a.dated.backend.registry,
        rest_get-manifest r http now m v.backend (length services) 0
            (manifest_path_of d.dash.parsed) (announced_service g a.usd a.dated d names) f
            (rw p (
              find-insert_self (manifest_path_of d.dash.parsed) _
                a.dated.backend.cache.cache_items))
            (get_elem?-length services (announced_service g a.usd a.dated d names))
            (leads_to-insert d.id (length services) a.dated.backend.registry),
        (b, stored, answered),
      )
