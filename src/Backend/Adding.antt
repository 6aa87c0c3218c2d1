-- ===== src/Backend/Adding.antt =====
-- Streams that are added to services, and manifests that are read, keep the shared state sound.
use rt_mbms_mw.Prelude.{
  ℕ, ◌<◌, List, some, ◌≡◌, ◌≢◌, subst, All, All-get_elem?, length, length-set, get_elem?,
  get_elem?-lt, set, [],
}
use rt_mbms_mw.Prelude.Float.{Float}
use rt_mbms_mw.Prelude.Key.{Bytes, bytes_key}
use rt_mbms_mw.Prelude.Map.{IsSorted, insert-All, insert-IsSorted, insert-ne-nil}
use rt_mbms_mw.Prelude.Result.{ok}
use rt_mbms_mw.Backend.{Backend}
use rt_mbms_mw.Backend.Services.{StreamIn-with, set_stream-IsSound, set_service-IsSound}
use rt_mbms_mw.Backend.Sound.{StreamIn, ServiceIn, IsSound}
use rt_mbms_mw.Service.{Service, AnyStream, with_content_stream, add_and_start_content_stream}
use rt_mbms_mw.Service.Written.{Written, add-Written}

module _ {F D : Type 0} where
  Written-ServiceIn :
      (n place : ℕ) (s s' : Service D) (streams streams' : List (AnyStream F D))
      → Written place s s' streams streams'
      → place < n
      → ServiceIn n s
      → ServiceIn n s' × (s'.content_streams ≢ [])
  Written-ServiceIn n place s s' streams streams' a lt (sorted, places) =
      subst (λ m. (IsSorted m × All (λ (e : Bytes × ℕ). e.1 < n) m) × (m ≢ [])) a.entered
        (
          (
            insert-IsSorted a.path place s.content_streams sorted,
            insert-All (λ (e : Bytes × ℕ). e.1 < n) a.path place s.content_streams lt places,
          ),
          insert-ne-nil a.path place s.content_streams,
        )

  pub add-IsSound :
      ⦃float : Float D⦄ (b : Backend F D) (place stream : ℕ) (s s' : Service D)
      (streams' : List (AnyStream F D))
      → get_elem? b.services place ≡ some s
      → add_and_start_content_stream stream b.streams s ≡ ok (s', streams')
      → IsSound b
      → IsSound (record b { services = set b.services place s'; streams = streams' })
  add-IsSound b place stream s s' streams' e done h =
      let a = add-Written stream s s' b.streams streams' done in
      let lt = get_elem?-lt b.streams stream a.found in
      let now = with_content_stream a.stream a.before in
      let (entered, ne) =
        Written-ServiceIn (length b.streams) stream s s' b.streams streams' a lt
          (All-get_elem? (ServiceIn (length b.streams)) b.services place h.services_in e) in
      let length_same = length-set b.streams stream now in
      let first =
        set_stream-IsSound b stream now
          (StreamIn-with (length b.segments) a.stream a.before
            (All-get_elem? (StreamIn (length b.segments)) b.streams stream h.streams_in a.found))
          h in
      subst (λ l. IsSound (record b { services = set b.services place s'; streams = l }))
        a.streams_set
        (set_service-IsSound (record b { streams = set b.streams stream now }) place s s' e
          (λ _. ne) (entered.0, rw length_same entered.1) first)
