-- ===== src/Rest/Unicast.antt =====
-- From the announcement of a service that a CDN offers to the playlist of its stream:
-- src/ServiceAnnouncement.cpp, src/seamless/SeamlessContentStream.cpp, src/seamless/CdnClient.cpp
-- and src/RestHandler.cpp together.
use rt_mbms_mw.Backend.Lifetime.{is_held, leads_to, leads_to-insert, stream_held-insert}
use rt_mbms_mw.Rest.Polled.{IsAnswer, IsPolling, stream_ticked-served}
use rt_mbms_mw.Announcement.Announced.Steps.{named}
use rt_mbms_mw.Announcement.Announced.Hls.{hls_world}
use rt_mbms_mw.Service.Adding.{matched-session, matched, with_started-streams}
use rt_mbms_mw.Announcement.Xml.{default_format}
use rt_mbms_mw.Announcement.Bundle.{get_service, set_service, parse_bootstrap}
use rt_mbms_mw.Announcement.Announced.Bootstrap.{IsAnnouncement, parse_bootstrap-ok}
use rt_mbms_mw.Announcement.Announced.Unicast.{taken_stream, unicast_service}
use rt_mbms_mw.Announcement.Announced.Cdn.{
  IsCdnService, described_service, cdn_stream, cdn_world, user_service-cdn,
}
use rt_mbms_mw.Announcement.World.{World, Setting}
use rt_mbms_mw.Prelude.{
  ℕ, ◌%◌, ◌^◌, ◌++◌, some, ◌≡◌, refl, All, take, length, get_elem?-length, List, ap, ◌∙◌, ◌∷◌, [],
  true, get_elem?,
}
use rt_mbms_mw.Prelude.Float.{Float}
use rt_mbms_mw.Prelude.Int.{ℤ, negsuc}
use rt_mbms_mw.Prelude.Key.{Bytes, bytes_key, int_key}
use rt_mbms_mw.Prelude.Map.{find, find-insert_self, insert}
use rt_mbms_mw.Prelude.Result.{ok}
use rt_mbms_mw.Prelude.Text.{codes}
use rt_mbms_mw.Backend.{Backend, stream_state, store_state, stream_ticked}
use rt_mbms_mw.Cache.{CacheItem, stream_playlist, add_item, lookup_value}
use rt_mbms_mw.Cdn.{Http}
use rt_mbms_mw.Flute.{Flute}
use rt_mbms_mw.Hls.Media.{MediaSegment, media_to_string}
use rt_mbms_mw.Rest.{RestHandler, Request, file_reply, rest_get}
use rt_mbms_mw.Rest.Laws.{IsFileRequest}
use rt_mbms_mw.Seamless.{
  SeamlessContentStream, StreamState, erase_first, listed, Uri, query_suffix, directory,
  endpoint_stream, seamless_init,
}
use rt_mbms_mw.Seamless.Served.{IsServed, segment_item}
use rt_mbms_mw.Service.{seamless, Service, service_init}

-- The path of the playlist at an endpoint.
abbrev pub endpoint_path : Uri → Bytes
endpoint_path u = erase_first u.path ++ query_suffix u.query

module _ {E F D : Type 0} ⦃float : Float D⦄ (g : Setting E D) (usd : E) (w : World F D)
    (d : IsCdnService g usd w) (names : List (Bytes × Bytes)) where
  -- The new stream, as it is in the service.
  abbrev polling_stream : SeamlessContentStream F D
  polling_stream = taken_stream (cdn_stream g usd w d) (described_service g usd w d names)

  polling_stream-IsPolling :
      IsPolling d.unicast.endpoint.base
        (endpoint_path d.unicast.endpoint)
        (directory (endpoint_path d.unicast.endpoint))
        polling_stream
  unfolding endpoint_stream seamless_init
  polling_stream-IsPolling = record {
    runs = refl;
    client = refl;
    path_at =
        (matched-session (seamless (cdn_stream g usd w d)) (described_service g usd w d names)).2;
    dir_at = refl;
  }

  -- It has no segments.
  polling_stream-IsServed :
      (name : ℤ → Bytes) (b : Backend F D) → IsServed name (stream_state polling_stream b)
  unfolding endpoint_stream seamless_init
  polling_stream-IsServed name b = record { sorted = tt; entries = tt }

  polling_stream-cached :
      find (endpoint_path d.unicast.endpoint) (cdn_world g usd w d names).backend.cache.cache_items
      ≡ some (
          CacheItem.playlist
            (endpoint_path d.unicast.endpoint)
            0
            (stream_playlist (length w.backend.streams)))
  unfolding add_item endpoint_stream seamless_init set_service insert
  polling_stream-cached =
      let s : Service D = named names (service_init g.garbage_protocol) in
      let v = hls_world w.backend.services s d.primary d.hls.parsed w in
      find-insert_self (endpoint_path d.unicast.endpoint)
        (CacheItem.playlist (endpoint_path d.unicast.endpoint) 0
          (stream_playlist (length w.backend.streams)))
        v.backend.cache.cache_items

  -- The service, which is registered, has it.
  polling_stream-held :
      is_held (cdn_world g usd w d names).backend (stream_playlist (length w.backend.streams))
      ≡ true
  unfolding is_held set_service
  polling_stream-held =
      let t = described_service g usd w d names in
      let any = seamless (cdn_stream g usd w d) in
      let place = length w.backend.streams in
      stream_held-insert (cdn_world g usd w d names).backend.services d.id
        (length w.backend.services) place
        (unicast_service w.backend.streams (cdn_stream g usd w d) t) w.backend.registry
        (get_elem?-length w.backend.services
          (unicast_service w.backend.streams (cdn_stream g usd w d) t))
        (ap (leads_to place) (
            with_started-streams place any (matched any t) (w.backend.streams ++ (any ∷ [])) t refl)
          ∙ leads_to-insert (matched any t).playlist_path place t.content_streams)

module _ {E F D : Type 0} ⦃flute : Flute F⦄ ⦃float : Float D⦄ (g : Setting E D) where
  -- Take an announcement in the default format, whose envelopes are handled, and which has one
  -- bundle of one description: of a new HLS service whose primary playlist is among the items and can
  -- be read, with one alternative base pattern that the URI library can read and whose base the HTTP
  -- library takes, and no delivery method, while seamless switching is on. The parser returns, and
  -- the service is registered. The stream that was made is at its place, asks the CDN at the base for
  -- the playlist at the path of the URI, and is held by the service; and the cache leads from this
  -- path to the playlist of the stream.
  pub parse_bootstrap-IsPolling :
      (str : Bytes) (w : World F D) (a : IsAnnouncement g str w) (d : IsCdnService g a.usd a.dated)
      → lookup_value g.bootstrap_format default_format ≡ default_format
      → (u : World F D) × (parse_bootstrap g str w ≡ (ok tt, u))
        × (get_service d.id u.backend ≡ some (length a.dated.backend.services))
        × ((s : SeamlessContentStream F D) × (get_elem? u.backend.streams
                (length a.dated.backend.streams)
              ≡ some (seamless s))
            × IsPolling d.unicast.endpoint.base
                (endpoint_path d.unicast.endpoint)
                (directory (endpoint_path d.unicast.endpoint))
                s)
        × (is_held u.backend (stream_playlist (length a.dated.backend.streams)) ≡ true)
        × (find (endpoint_path d.unicast.endpoint) u.backend.cache.cache_items
            ≡ some (
                CacheItem.playlist
                  (endpoint_path d.unicast.endpoint)
                  0
                  (stream_playlist (length a.dated.backend.streams))))
  unfolding set_service
  parse_bootstrap-IsPolling str w a d e =
      let (names, done) = user_service-cdn g a.usd a.dated d in
      let s = polling_stream g a.usd a.dated d names in
      (
        cdn_world g a.usd a.dated d names,
        parse_bootstrap-ok g str w (cdn_world g a.usd a.dated d names) a (rw e done),
        find-insert_self d.id (length a.dated.backend.services) a.dated.backend.registry,
        (
          s,
          get_elem?-length a.dated.backend.streams (seamless s),
          polling_stream-IsPolling g a.usd a.dated d names,
        ),
        polling_stream-held g a.usd a.dated d names,
        polling_stream-cached g a.usd a.dated d names,
      )

  -- Take an announcement in the default format, whose envelopes are handled, and which has one
  -- bundle of one description: of a new HLS service whose primary playlist is among the items and can
  -- be read, with one alternative base pattern that the URI library can read and whose base the HTTP
  -- library takes, and no delivery method, while seamless switching is on. Let the CDN at that base
  -- answer, for the path of the URI, with a playlist that is parsed, in which the URI of each entry,
  -- behind the directory, is the name of its number, where different numbers have different names
  -- and none has that of the playlist. And take a request for this path, which is authorized and not
  -- for the API. Then the parser returns, and the service is registered; the next tick of the new
  -- stream stores what it makes of the playlist; the request is answered with this text (the first
  -- bytes, as many as its length modulo 2^32); and the cache has the item of a segment for each of
  -- the entries written.
  pub parse_bootstrap-polled :
      (str : Bytes) (w : World F D) (a : IsAnnouncement g str w) (d : IsCdnService g a.usd a.dated)
      (http : Http) (garbage : ℤ) (name : ℤ → Bytes)
      (c : IsAnswer D http garbage name d.unicast.endpoint.base
        (endpoint_path d.unicast.endpoint)
        (directory (endpoint_path d.unicast.endpoint)))
      (r : RestHandler) (server : Http) (now : ℕ) (m : Request)
      → lookup_value g.bootstrap_format default_format ≡ default_format
      → IsFileRequest r m
      → erase_first m.relative_uri ≡ endpoint_path d.unicast.endpoint
      → (u : World F D) × (parse_bootstrap g str w ≡ (ok tt, u))
        × (get_service d.id u.backend ≡ some (length a.dated.backend.services))
        × ((v : StreamState F D) × (stream_ticked http garbage
                (length a.dated.backend.streams)
                u.backend
              ≡ ok (store_state (length a.dated.backend.streams) u.backend v))
            × (v.stream.playlist
                ≡ media_to_string (record {
                  version = negsuc 0;
                  targetduration = c.playlist.targetduration;
                  segments = listed v.heap v.stream.segments;
                }))
            × All
                (λ (m : MediaSegment D).
                  (place : ℕ) × (find m.uri v.cache.cache_items ≡ some (segment_item m.uri place)))
                (listed v.heap v.stream.segments)
            × (rest_get r server now m (store_state (length a.dated.backend.streams) u.backend v)
                ≡ ok (
                  file_reply
                      (codes "GEN")
                      (take (length v.stream.playlist % 2 ^ 32) v.stream.playlist),
                  store_state (length a.dated.backend.streams) u.backend v,
                )))
  unfolding set_service
  parse_bootstrap-polled str w a d http garbage name c r server now m e q f =
      let (names, done) = user_service-cdn g a.usd a.dated d in
      let u = cdn_world g a.usd a.dated d names in
      let streams = a.dated.backend.streams in
      let path = endpoint_path d.unicast.endpoint in
      let s = polling_stream g a.usd a.dated d names in
      (
        u,
        parse_bootstrap-ok g str w u a (rw e done),
        find-insert_self d.id (length a.dated.backend.services) a.dated.backend.registry,
        stream_ticked-served http garbage name d.unicast.endpoint.base path (directory path)
            (length streams) 0 path u.backend s c (polling_stream-IsPolling g a.usd a.dated d names)
            (get_elem?-length streams (seamless s)) (polling_stream-cached g a.usd a.dated d names)
            (polling_stream-IsServed g a.usd a.dated d names name u.backend)
            (polling_stream-held g a.usd a.dated d names) r server now m q f,
      )
