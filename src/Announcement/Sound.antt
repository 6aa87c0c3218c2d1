-- ===== src/Announcement/Sound.antt =====
-- What an announcement does keeps the shared state sound: the calls to the streams and services.
pub mod Setup
pub mod Bundle
use rt_mbms_mw.Prelude.{
  ℕ, Bool, true, false, List, [], ◌∷◌, ◌++◌, Option, none, some, ◌≡◌, ◌≢◌, refl, subst, sym, ap,
  ◌∙◌, inl, inr, arith, All, All-set, All-get_elem?, length, get_elem?, get_elem?-lt, get_elem?-set,
  set, Option-cases, if◌then◌else◌,
}
use rt_mbms_mw.Prelude.Float.{Float}
use rt_mbms_mw.Prelude.Key.{Bytes, bytes_key}
use rt_mbms_mw.Prelude.Map.{insert, insert-All, insert-IsSorted, insert-ne-nil}
use rt_mbms_mw.Prelude.Result.{
  Result, ok, throw, terminate, Result_map, WhenOk, WhenOk-map, WhenOk-map-all, WhenOk-all,
  WhenOk-eq, WhenOk-map-eq,
}
use rt_mbms_mw.Announcement.Action.{Action, Nothing, settle}
use rt_mbms_mw.Announcement.Keeps.{Keeps, settle-kept}
use rt_mbms_mw.Announcement.World.{
  World, Setting, stream_at, service_at, set_streams, set_services, make_shared, make_stream,
  stream_call_at, store_stream, on_stream, set_stream_endpoint, endpoint_state, change_service,
  ask_service, manifest_read, read_service_manifest, stream_added, add_stream, with_stream,
  with_manifest,
}
use rt_mbms_mw.Backend.{Backend, stream_state, store_state}
use rt_mbms_mw.Backend.Services.{
  StreamIn-with, set_stream-IsSound, new_stream-IsSound, set_service-IsSound,
}
use rt_mbms_mw.Backend.Sound.{Room, CacheIn, StreamIn, ServiceIn, room, IsSound}
use rt_mbms_mw.Backend.Streams.{stream_state-StateIn, store_state-IsSound, with_cache-IsSound}
use rt_mbms_mw.Seamless.{seamless_init, set_cdn_endpoint, StreamState}
use rt_mbms_mw.Service.{
  Service, AnyStream, basic, seamless, content_stream, with_content_stream,
  service_read_master_manifest, add_and_start_content_stream,
}
use rt_mbms_mw.Backend.Adding.{add-IsSound}
use rt_mbms_mw.Seamless.Sound.{CacheIn-add, set_cdn_endpoint-le, set_cdn_endpoint-StateIn}
use rt_mbms_mw.Service.Written.{manifest-written}
use rt_mbms_mw.Stream.{ContentStream, DeliveryProtocol, stream_init}

-- The shared state beside the announcement is sound.
abbrev pub SoundWorld : {F D : Type 0} → World F D → Type 0
SoundWorld w = IsSound w.backend

module _ {F D : Type 0} where
  make_shared-kept :
      (any : AnyStream F D) (w : World F D)
      → StreamIn (length w.backend.segments) any
      → SoundWorld w
      → SoundWorld (make_shared any w).1
  unfolding make_shared
  make_shared-kept any w k h = new_stream-IsSound w.backend any k h

  pub make_stream-Keeps :
      {E : Type 0} (g : Setting E D) (wanted : Bool) (base : Bytes) (p : DeliveryProtocol)
      → Keeps (SoundWorld {F = F} {D = D}) (make_stream g wanted base p)
  unfolding make_stream seamless_init
  make_stream-Keeps g true base p = record { at = λ w h. make_shared-kept _ w tt h }
  make_stream-Keeps g false base p = record { at = λ w h. make_shared-kept _ w tt h }

  module _ {X : Type 0} where
    store_stream-kept :
        (place : ℕ) (w : World F D) (r : Result (AnyStream F D × X))
        → WhenOk (λ x. StreamIn (length w.backend.segments) x.0) r
        → SoundWorld w
        → SoundWorld (store_stream place w r).1
    unfolding store_stream
    store_stream-kept place w terminate k h = h
    store_stream-kept place w (throw e) k h = h
    store_stream-kept place w (ok (any, x)) k h = set_stream-IsSound w.backend place any k h

    stream_call-in :
        (place n : ℕ) (f : ContentStream D → Result (ContentStream D × X))
        (streams : List (AnyStream F D)) (w : World F D)
        → All (StreamIn n) streams
        → WhenOk
            (λ (x : AnyStream F D × X). StreamIn n x.0)
            (stream_call_at place f (get_elem? streams place) w)
    unfolding stream_call_at
    stream_call-in place n f streams w h = elim (Option-cases (get_elem? streams place)) [
      | inl absent ↦ rw (absent, stream_call_at) tt
      | inr (any, present) ↦
          rw (present, stream_call_at)
            (WhenOk-map-all _ _ (f (content_stream any))
              λ r. StreamIn-with n r.0 any (All-get_elem? (StreamIn n) streams place h present))
    ]

    pub on_stream-Keeps :
        (place : ℕ) (f : ContentStream D → Result (ContentStream D × X))
        → Keeps (SoundWorld {F = F} {D = D}) (on_stream place f)
    unfolding on_stream
    on_stream-Keeps place f = record {
      at = λ w h.
          store_stream-kept place w _
            (stream_call-in place (length w.backend.segments) f w.backend.streams w h.streams_in) h;
    }

  endpoint-kept :
      {E : Type 0} (g : Setting E D) (place : ℕ) (url : Bytes) (o : Option (AnyStream F D))
      (w : World F D)
      → stream_at place w ≡ o
      → SoundWorld w
      → SoundWorld (endpoint_state g place url o w).1
  unfolding endpoint_state
  endpoint-kept g place url none w e h = h
  endpoint-kept g place url (some (basic s)) w e h = h
  endpoint-kept g place url (some (seamless s)) w e h =
      let state = stream_state s w.backend in
      store_state-IsSound w.backend place
        (set_cdn_endpoint g.parse_uri g.http_client place url state).1
        (set_cdn_endpoint-le g.parse_uri g.http_client place url state)
        (set_cdn_endpoint-StateIn (length w.backend.streams) (length w.backend.services) g.parse_uri
          g.http_client place url state (get_elem?-lt w.backend.streams place e)
          (stream_state-StateIn w.backend place s e h))
        h

  pub set_stream_endpoint-Keeps :
      {E : Type 0} (g : Setting E D) (place : ℕ) (url : Bytes)
      → Keeps (SoundWorld {F = F} {D = D}) (set_stream_endpoint g place url)
  unfolding set_stream_endpoint
  set_stream_endpoint-Keeps g place url = record {
    at = λ w h. endpoint-kept g place url (stream_at place w) w refl h;
  }

  manifest-kept :
      ⦃float : Float D⦄ (place : ℕ) (content path : Bytes) (o : Option (Service D)) (w : World F D)
      → service_at place w ≡ o
      → SoundWorld w
      → WhenOk (SoundWorld {F = F} {D = D}) (manifest_read place content path o w)
  unfolding manifest_read
  manifest-kept place content path none w e h = tt
  manifest-kept place content path (some s) w e h =
      WhenOk-map-eq SoundWorld (with_manifest place w)
        (service_read_master_manifest place content path s w.backend.cache)
        λ r done.
          let (kept, (written, cached)) =
            manifest-written place content path s w.backend.cache r done in
          let t =
            All-get_elem? (ServiceIn (length w.backend.streams)) w.backend.services place
              h.services_in e in
          let stored =
            set_service-IsSound w.backend place s r.0 e (λ ne. rw kept ne) (rw kept t) h in
          with_cache-IsSound _ r.1
            (subst (CacheIn _) cached (
              CacheIn-add _ _ w.backend.cache
                (get_elem?-lt (set w.backend.services place r.0) place
                  (get_elem?-set w.backend.services place r.0 e))
                stored.cache_in))
            stored

  pub read_service_manifest-Keeps :
      ⦃float : Float D⦄ (place : ℕ) (content path : Bytes)
      → Keeps (SoundWorld {F = F} {D = D}) (read_service_manifest place content path)
  unfolding read_service_manifest
  read_service_manifest-Keeps place content path = record {
    at = λ w h.
        settle-kept (SoundWorld {F = F} {D = D}) _ _ w h
          (manifest-kept place content path (service_at place w) w refl h);
  }

  added-kept :
      ⦃float : Float D⦄ (place stream : ℕ) (o : Option (Service D)) (w : World F D)
      → service_at place w ≡ o
      → SoundWorld w
      → WhenOk (SoundWorld {F = F} {D = D}) (stream_added place stream o w)
  unfolding stream_added
  added-kept place stream none w e h = tt
  added-kept place stream (some s) w e h =
      WhenOk-map-eq SoundWorld (with_stream place w)
        (add_and_start_content_stream stream w.backend.streams s)
        λ r done. add-IsSound w.backend place stream s r.0 r.1 e done h

  pub add_stream-Keeps :
      ⦃float : Float D⦄ (place stream : ℕ)
      → Keeps (SoundWorld {F = F} {D = D}) (add_stream place stream)
  unfolding add_stream
  add_stream-Keeps place stream = record {
    at = λ w h.
        settle-kept (SoundWorld {F = F} {D = D}) _ _ w h
          (added-kept place stream (service_at place w) w refl h);
  }
