-- ===== src/Service/Written.antt =====
-- What `add_and_start_content_stream` writes.
use rt_mbms_mw.Prelude.{
  ℕ, List, none, some, ◌≡◌, refl, sym, ap, ◌∙◌, inl, inr, get_elem?, set, Option-cases,
}
use rt_mbms_mw.Prelude.Float.{Float}
use rt_mbms_mw.Prelude.Key.{Bytes, bytes_key}
use rt_mbms_mw.Prelude.Map.{insert}
use rt_mbms_mw.Prelude.Result.{ok, ok_inj, Result_map-eq-ok}
use rt_mbms_mw.Cache.{CacheItem, CacheManagement, service_manifest, add_item}
use rt_mbms_mw.Hls.Primary.{primary_parse}
use rt_mbms_mw.Service.{
  Service, AnyStream, with_content_stream, recreate_manifest, add_and_start_content_stream,
  keep_manifest, service_read_master_manifest,
}
use rt_mbms_mw.Service.Adding.{add-Added, matched}
use rt_mbms_mw.Stream.{DeliveryProtocol, hls, dash, rtp, ContentStream}

module _ {F D : Type 0} where
  -- The stream is written at its place, and becomes one of the service.
  pub record Written (place : ℕ) (s s' : Service D) (streams streams' : List (AnyStream F D))
      : Type 0 where
    pub before : AnyStream F D
    pub stream : ContentStream D
    pub path : Bytes
    pub found : get_elem? streams place ≡ some before
    pub streams_set : set streams place (with_content_stream stream before) ≡ streams'
    pub entered : insert path place s.content_streams ≡ s'.content_streams

  module _ ⦃float : Float D⦄ where
    recreate_manifest-content_streams :
        (streams : List (AnyStream F D)) (s : Service D) (p : DeliveryProtocol)
        → (recreate_manifest streams s p).content_streams ≡ s.content_streams
    unfolding recreate_manifest
    recreate_manifest-content_streams streams s hls = refl
    recreate_manifest-content_streams streams s dash = refl
    recreate_manifest-content_streams streams s rtp = refl

    missing :
        (place : ℕ) (s s' : Service D) (streams streams' : List (AnyStream F D))
        → get_elem? streams place ≡ none
        → add_and_start_content_stream place streams s ≡ ok (s', streams')
        → Written place s s' streams streams'
    unfolding add_and_start_content_stream
    missing place s s' streams streams' g = rw (g, add_and_start_content_stream) (λ e. cc)

    pub add-Written :
        (place : ℕ) (s s' : Service D) (streams streams' : List (AnyStream F D))
        → add_and_start_content_stream place streams s ≡ ok (s', streams')
        → Written place s s' streams streams'
    add-Written place s s' streams streams' e = elim (Option-cases (get_elem? streams place)) [
      | inl absent ↦ missing place s s' streams streams' absent e
      | inr (any, present) ↦
          let a = add-Added place any s s' streams streams' present e in
          record {
            before = any;
            stream = a.stream;
            path = (matched any s).playlist_path;
            found = present;
            streams_set = a.streams_set;
            entered =
                sym (recreate_manifest-content_streams _ _ s.delivery_protocol)
                ∙ ap (λ (r : Service D). r.content_streams) a.service_set;
          }
    ]

module _ {D : Type 0} ⦃float : Float D⦄ where
  keep_manifest-content_streams :
      (manifest base_path : Bytes) (s t : Service D) (p : DeliveryProtocol)
      → keep_manifest manifest base_path s p ≡ ok t
      → t.content_streams ≡ s.content_streams
  unfolding keep_manifest
  keep_manifest-content_streams manifest base_path s t hls e =
      let (pl, p, q) = Result_map-eq-ok _ (primary_parse manifest base_path) e in
      ap (λ (r : Service D). r.content_streams) (sym q)
  keep_manifest-content_streams manifest base_path s t dash e =
      ap (λ (r : Service D). r.content_streams) (sym (ok_inj e))
  keep_manifest-content_streams manifest base_path s t rtp e =
      ap (λ (r : Service D). r.content_streams) (sym (ok_inj e))

  -- The service keeps its streams, and the cache takes an item that leads to it.
  pub manifest-written :
      {F : Type 0} (self : ℕ) (manifest base_path : Bytes) (s : Service D) (c : CacheManagement F)
      (r : Service D × CacheManagement F)
      → service_read_master_manifest self manifest base_path s c ≡ ok r
      → (r.0.content_streams ≡ s.content_streams)
        × ((path : Bytes) × (add_item (CacheItem.playlist path 0 (service_manifest self)) c ≡ r.1))
  unfolding service_read_master_manifest
  manifest-written self manifest base_path s c r e =
      let (t, p, q) =
        Result_map-eq-ok _ (keep_manifest manifest base_path s s.delivery_protocol) e in
      (
        ap (λ (x : Service D × CacheManagement _). x.0.content_streams) (sym q)
            ∙ keep_manifest-content_streams manifest base_path s t s.delivery_protocol p,
        (_, ap (λ (x : Service D × CacheManagement _). x.1) q),
      )
