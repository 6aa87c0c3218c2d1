-- ===== src/Backend/Services.antt =====
-- What may be written to the streams, the services and the registry.
use rt_mbms_mw.Prelude.{
  ℕ, ◌≤◌, List, [], ◌∷◌, ◌++◌, some, ◌≡◌, ◌≢◌, arith, All, All-append, All-map, All-set, length,
  length-set, length-append, get_elem?, set,
}
use rt_mbms_mw.Prelude.Key.{Bytes, bytes_key}
use rt_mbms_mw.Prelude.Map.{insert, insert-All, insert-IsSorted}
use rt_mbms_mw.Backend.{Backend}
use rt_mbms_mw.Backend.Sound.{
  StreamIn, ServiceIn, HasStream, HasStream-set, HasStream-append, IsSound, CacheIn-Grows,
  services-le,
}
use rt_mbms_mw.Service.{Service, AnyStream, basic, seamless, with_content_stream}
use rt_mbms_mw.Stream.{ContentStream}

module _ {F D : Type 0} where
  pub StreamIn-with :
      (n : ℕ) (t : ContentStream D) (any : AnyStream F D)
      → StreamIn n any
      → StreamIn n (with_content_stream t any)
  StreamIn-with n t (basic s) h = tt
  StreamIn-with n t (seamless s) h = h

  -- The streams may be replaced by as many or more.
  pub with_streams-IsSound :
      (b : Backend F D) (streams : List (AnyStream F D))
      → length b.streams ≤ length streams
      → All (StreamIn (length b.segments)) streams
      → IsSound b
      → IsSound (record b { streams = streams })
  with_streams-IsSound b streams le k h = record {
    cache_in =
        CacheIn-Grows (record { segments = omega arith; streams = le; services = omega arith })
          h.cache_in;
    streams_in = k;
    services_in = services-le b.services le h.services_in;
    registry_sorted = h.registry_sorted;
    registered = h.registered;
  }

  pub set_stream-IsSound :
      (b : Backend F D) (place : ℕ) (any : AnyStream F D)
      → StreamIn (length b.segments) any
      → IsSound b
      → IsSound (record b { streams = set b.streams place any })
  set_stream-IsSound b place any k h =
      with_streams-IsSound b (set b.streams place any)
        (omega (arith, length-set b.streams place any))
        (All-set _ b.streams place any k h.streams_in) h

  pub new_stream-IsSound :
      (b : Backend F D) (any : AnyStream F D)
      → StreamIn (length b.segments) any
      → IsSound b
      → IsSound (record b { streams = b.streams ++ (any ∷ []) })
  new_stream-IsSound b any k h =
      with_streams-IsSound b (b.streams ++ (any ∷ []))
        (omega (arith, length-append b.streams (any ∷ [])))
        (All-append _ b.streams (any ∷ []) h.streams_in (k, tt)) h

  -- A service may be replaced by one that has streams if it had.
  pub set_service-IsSound :
      (b : Backend F D) (place : ℕ) (s t : Service D)
      → get_elem? b.services place ≡ some s
      → (s.content_streams ≢ [] → t.content_streams ≢ [])
      → ServiceIn (length b.streams) t
      → IsSound b
      → IsSound (record b { services = set b.services place t })
  set_service-IsSound b place s t e f k h = record {
    cache_in =
        CacheIn-Grows
          (record {
            segments = omega arith;
            streams = omega arith;
            services = omega (arith, length-set b.services place t);
          })
          h.cache_in;
    streams_in = h.streams_in;
    services_in = All-set _ b.services place t k h.services_in;
    registry_sorted = h.registry_sorted;
    registered =
        All-map b.registry (λ q r. HasStream-set b.services place q.1 s t e f r) h.registered;
  }

  pub new_service-IsSound :
      (b : Backend F D) (s : Service D)
      → s.content_streams ≡ []
      → IsSound b
      → IsSound (record b { services = b.services ++ (s ∷ []) })
  new_service-IsSound b s e h = record {
    cache_in =
        CacheIn-Grows
          (record {
            segments = omega arith;
            streams = omega arith;
            services = omega (arith, length-append b.services (s ∷ []));
          })
          h.cache_in;
    streams_in = h.streams_in;
    services_in = All-append _ b.services (s ∷ []) h.services_in (rw e (tt, tt), tt);
    registry_sorted = h.registry_sorted;
    registered =
        All-map b.registry (λ q r. HasStream-append b.services (s ∷ []) q.1 r) h.registered;
  }

  pub registered-IsSound :
      (b : Backend F D) (id : Bytes) (place : ℕ)
      → HasStream b.services place
      → IsSound b
      → IsSound (record b { registry = insert id place b.registry })
  registered-IsSound b id place k h = record {
    cache_in = h.cache_in;
    streams_in = h.streams_in;
    services_in = h.services_in;
    registry_sorted = insert-IsSorted id place b.registry h.registry_sorted;
    registered = insert-All (λ e. HasStream b.services e.1) id place b.registry k h.registered;
  }
