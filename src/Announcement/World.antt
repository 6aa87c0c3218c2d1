-- ===== src/Announcement/World.antt =====
-- What a service announcement works on (src/ServiceAnnouncement.h), and the calls of
-- src/ServiceAnnouncement.cpp to the streams and services.
use rt_mbms_mw.Prelude.{
  ℕ, Bool, List, [], ◌∷◌, ◌++◌, Option, none, some, if◌then◌else◌, length, get_elem?, set,
}
use rt_mbms_mw.Prelude.Float.{Float}
use rt_mbms_mw.Prelude.Int.{ℤ}
use rt_mbms_mw.Prelude.Key.{Bytes}
use rt_mbms_mw.Prelude.Result.{Result, Result_map, terminate, ok}
use rt_mbms_mw.Announcement.{MimePart, ServiceAnnouncement}
use rt_mbms_mw.Announcement.Action.{Action, Nothing, return, ask, change, not_null, settle, ◌>>=◌}
use rt_mbms_mw.Announcement.Xml.{Xml}
use rt_mbms_mw.Backend.{Backend, stream_state, store_state}
use rt_mbms_mw.Cache.{CacheManagement}
use rt_mbms_mw.Seamless.{StreamState, UriParser, seamless_init, set_cdn_endpoint}
use rt_mbms_mw.Service.{
  Service, AnyStream, basic, seamless, content_stream, with_content_stream,
  service_read_master_manifest, add_and_start_content_stream,
}
use rt_mbms_mw.Stream.{
  Garbage, ContentStream, DeliveryProtocol, stream_init, read_master_manifest,
  configure_5gbc_delivery_from_sdp,
}

-- The announcement, apart from the rest of the middleware.
pub record World (F D : Type 0) : Type 0 where
  pub self : ServiceAnnouncement
  pub backend : Backend F D

-- The libraries and the settings of the configuration; `read_time` is `std::get_time` with `mktime`,
-- and the memory of members without initializer is that of `garbage`.
pub record Setting (E D : Type 0) : Type 0 where
  pub xml : Xml E
  pub mime_parts : Bytes → List MimePart
  pub parse_uri : UriParser
  -- whether the constructor of `http_client` takes the base URL; it throws if not
  pub http_client : Bytes → Bool
  pub read_time : ℕ → Bytes → ℤ
  -- `none` where it throws
  pub gzip_decompress : Bytes → Option Bytes
  pub bootstrap_format : Option Bytes
  pub max_segments_per_stream : Option ℤ
  pub truncate_cdn_playlist_segments : Option ℤ
  pub garbage : Garbage D
  pub garbage_protocol : DeliveryProtocol

-- `ContentStream::set_base_path`
unfoldable pub set_base_path : {D : Type 0} → Bytes → ContentStream D → ContentStream D
set_base_path path s = record s { base_path = path }

module _ {F D : Type 0} where
  abbrev pub stream_at : ℕ → World F D → Option (AnyStream F D)
  stream_at place w = get_elem? w.backend.streams place

  abbrev pub service_at : ℕ → World F D → Option (Service D)
  service_at place w = get_elem? w.backend.services place

  abbrev pub set_streams : List (AnyStream F D) → World F D → World F D
  set_streams streams w = record w { backend = record (w.backend) { streams = streams } }

  abbrev pub set_services : List (Service D) → World F D → World F D
  set_services services w = record w { backend = record (w.backend) { services = services } }

  -- `std::make_shared` of a stream, at the next place.
  unfoldable pub make_shared : AnyStream F D → Action (World F D) ℕ
  make_shared s w = (ok (length w.backend.streams), set_streams (w.backend.streams ++ (s ∷ [])) w)

  -- A new stream of the kind that the flag asks for.
  unfoldable pub make_stream :
      {E : Type 0} → Setting E D → Bool → Bytes → DeliveryProtocol → Action (World F D) ℕ
  unfolding make_shared
  make_stream g seamless_wanted base protocol w =
      let s = stream_init g.garbage base w.self.iface protocol in
      make_shared
        (if seamless_wanted
          then seamless (seamless_init s g.max_segments_per_stream g.truncate_cdn_playlist_segments)
          else basic s)
        w

  unfoldable pub stream_call_at :
      {X : Type 0}
      → ℕ
      → (ContentStream D → Result (ContentStream D × X))
      → Option (AnyStream F D)
      → World F D
      → Result (AnyStream F D × X)
  stream_call_at place f none w = terminate
  stream_call_at place f (some any) w =
      Result_map (λ r. (with_content_stream r.0 any, r.1)) (f (content_stream any))

  unfoldable pub store_stream :
      {X : Type 0} → ℕ → World F D → Result (AnyStream F D × X) → Result X × World F D
  store_stream place w (ok (any, x)) = (ok x, set_streams (set w.backend.streams place any) w)
  store_stream place w (Result.throw e) = (Result.throw e, w)
  store_stream place w terminate = (terminate, w)

  -- A call on a stream. After an exception nothing reaches the stream, so its changes do not count.
  unfoldable pub on_stream :
      {X : Type 0} → ℕ → (ContentStream D → Result (ContentStream D × X)) → Action (World F D) X
  unfolding stream_call_at store_stream
  on_stream place f w = store_stream place w (stream_call_at place f (stream_at place w) w)

  unfoldable pub read_stream_manifest : ⦃float : Float D⦄ → ℕ → Bytes → Action (World F D) Nothing
  unfolding on_stream
  read_stream_manifest place content =
      on_stream place (λ s. Result_map (λ t. (t, tt)) (read_master_manifest content s))

  unfoldable pub configure_stream : ℕ → Bytes → Action (World F D) Bool
  unfolding on_stream
  configure_stream place sdp = on_stream place (configure_5gbc_delivery_from_sdp sdp)

  unfoldable pub set_stream_base_path : ℕ → Bytes → Action (World F D) Nothing
  unfolding on_stream set_base_path
  set_stream_base_path place path = on_stream place (λ s. ok (set_base_path path s, tt))

  -- What a call on a stream has written is stored, also behind an exception.
  abbrev pub with_endpoint :
      ℕ → World F D → Result Nothing × StreamState F D → Result Nothing × World F D
  with_endpoint place w r = (r.0, record w { backend = store_state place w.backend r.1 })

  unfoldable pub endpoint_state :
      {E : Type 0}
      → Setting E D
      → ℕ
      → Bytes
      → Option (AnyStream F D)
      → World F D
      → Result Nothing × World F D
  endpoint_state g place url none w = (terminate, w)
  endpoint_state g place url (some (basic s)) w = (terminate, w)
  endpoint_state g place url (some (seamless s)) w =
      with_endpoint place w
        (set_cdn_endpoint g.parse_uri g.http_client place url (stream_state s w.backend))

  -- `set_cdn_endpoint`; the dynamic cast of another stream would be a null pointer.
  unfoldable pub set_stream_endpoint :
      {E : Type 0} → Setting E D → ℕ → Bytes → Action (World F D) Nothing
  unfolding endpoint_state
  set_stream_endpoint g place url w = endpoint_state g place url (stream_at place w) w

  -- A member of a service that is read.
  unfoldable pub ask_service : {X : Type 0} → (Service D → X) → ℕ → Action (World F D) X
  unfolding ◌>>=◌ not_null
  ask_service f place = (ask (service_at place) >>= not_null) >>= λ s. return (f s)

  -- A call that changes a service only.
  unfoldable pub change_service : (Service D → Service D) → ℕ → Action (World F D) Nothing
  unfolding ask_service ◌>>=◌
  change_service f place =
      ask_service f place >>= λ s. change (λ w. set_services (set w.backend.services place s) w)

  -- The service at `place` and the cache behind a manifest.
  abbrev pub with_manifest : ℕ → World F D → Service D × CacheManagement F → World F D
  with_manifest place w r = record w {
    backend = record (w.backend) { services = set w.backend.services place r.0; cache = r.1 };
  }

  -- The service at `place` and the streams behind a new stream.
  abbrev pub with_stream : ℕ → World F D → Service D × List (AnyStream F D) → World F D
  with_stream place w r = record w {
    backend = record (w.backend) { services = set w.backend.services place r.0; streams = r.1 };
  }

  module _ ⦃float : Float D⦄ where
    unfoldable pub manifest_read :
        ℕ → Bytes → Bytes → Option (Service D) → World F D → Result (World F D)
    manifest_read place content path none w = terminate
    manifest_read place content path (some s) w =
        Result_map (with_manifest place w)
          (service_read_master_manifest place content path s w.backend.cache)

    unfoldable pub read_service_manifest : ℕ → Bytes → Bytes → Action (World F D) Nothing
    unfolding manifest_read
    read_service_manifest place content path w =
        settle (manifest_read place content path (service_at place w) w) (λ v. v) w

    unfoldable pub stream_added : ℕ → ℕ → Option (Service D) → World F D → Result (World F D)
    stream_added place stream none w = terminate
    stream_added place stream (some s) w =
        Result_map (with_stream place w) (add_and_start_content_stream stream w.backend.streams s)

    -- `add_and_start_content_stream` of the service at `place`, for the stream at `stream`
    unfoldable pub add_stream : ℕ → ℕ → Action (World F D) Nothing
    unfolding stream_added
    add_stream place stream w = settle (stream_added place stream (service_at place w) w) (λ v. v) w
