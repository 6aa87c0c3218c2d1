-- ===== src/Backend/Sound.antt =====
-- The invariant of the shared state: no place is empty, and every service that is registered has a
-- stream.
use rt_mbms_mw.Prelude.{
  ℕ, ◌≤◌, ◌<◌, false, List, [], ◌++◌, some, ◌≡◌, ◌≢◌, subst, ◌∙◌, inl, inr, arith, All, All-map,
  length, get_elem?, get_elem?-set, get_elem?-set_other, get_elem?-append, get_elem?-lt, set,
  Bool-cases, ◌==◌, ==_iff,
}
use rt_mbms_mw.Prelude.Key.{Bytes, bytes_key}
use rt_mbms_mw.Prelude.Map.{IsSorted}
use rt_mbms_mw.Backend.{Backend}
use rt_mbms_mw.Cache.{
  CacheItem, CacheManagement, Callback, stream_playlist, service_manifest, content_location,
}
use rt_mbms_mw.Service.{Service, AnyStream, basic, seamless}

-- How many objects of each kind there are.
pub record Room : Type 0 where
  pub segments : ℕ
  pub streams : ℕ
  pub services : ℕ

abbrev pub CallbackIn : Room → Callback → Type 0
CallbackIn r (stream_playlist place) = place < r.streams
CallbackIn r (service_manifest place) = place < r.services

abbrev pub ItemIn : {F : Type 0} → Room → CacheItem F → Type 0
ItemIn r (CacheItem.file l t f) = Unit
ItemIn r (CacheItem.segment l t place) = place < r.segments
ItemIn r (CacheItem.playlist l t cb) = CallbackIn r cb
ItemIn r (CacheItem.manifest l t cb) = CallbackIn r cb

-- An entry of the cache stands under its location, and leads to an object.
abbrev pub EntryIn : {F : Type 0} → Room → Bytes × CacheItem F → Type 0
EntryIn r e = (e.0 ≡ content_location e.1) × ItemIn r e.1

abbrev pub StreamIn : {F D : Type 0} → ℕ → AnyStream F D → Type 0
StreamIn segments (basic s) = Unit
StreamIn segments (seamless s) = All (λ e. e.1 < segments) s.segments

abbrev pub ServiceIn : {D : Type 0} → ℕ → Service D → Type 0
ServiceIn streams s = IsSorted s.content_streams × All (λ e. e.1 < streams) s.content_streams

-- The place has a service with a stream.
pub record HasStream {D : Type 0} (services : List (Service D)) (place : ℕ) : Type 0 where
  pub service : Service D
  pub at_place : get_elem? services place ≡ some service
  pub ne_nil : service.content_streams ≢ []

pub record CacheIn {F : Type 0} (r : Room) (c : CacheManagement F) : Type 0 where
  pub sorted : IsSorted c.cache_items
  pub entries : All (EntryIn r) c.cache_items

abbrev pub room : {F D : Type 0} → Backend F D → Room
room b = record {
  segments = length b.segments;
  streams = length b.streams;
  services = length b.services;
}

pub record IsSound {F D : Type 0} (b : Backend F D) : Type 0 where
  pub cache_in : CacheIn (room b) b.cache
  pub streams_in : All (StreamIn (length b.segments)) b.streams
  pub services_in : All (ServiceIn (length b.streams)) b.services
  pub registry_sorted : IsSorted b.registry
  pub registered : All (λ e. HasStream b.services e.1) b.registry

-- There is more room in `q`.
pub record Grows (r q : Room) : Type 0 where
  pub segments : r.segments ≤ q.segments
  pub streams : r.streams ≤ q.streams
  pub services : r.services ≤ q.services

CallbackIn-Grows : (r q : Room) (cb : Callback) → Grows r q → CallbackIn r cb → CallbackIn q cb
CallbackIn-Grows r q (stream_playlist place) g h = omega (arith, g.streams)
CallbackIn-Grows r q (service_manifest place) g h = omega (arith, g.services)

module _ {F : Type 0} where
  ItemIn-Grows : (r q : Room) (i : CacheItem F) → Grows r q → ItemIn r i → ItemIn q i
  ItemIn-Grows r q (CacheItem.file l t f) g h = tt
  ItemIn-Grows r q (CacheItem.segment l t place) g h = omega (arith, g.segments)
  ItemIn-Grows r q (CacheItem.playlist l t cb) g h = CallbackIn-Grows r q cb g h
  ItemIn-Grows r q (CacheItem.manifest l t cb) g h = CallbackIn-Grows r q cb g h

  pub CacheIn-Grows : {r q : Room} {c : CacheManagement F} → Grows r q → CacheIn r c → CacheIn q c
  CacheIn-Grows {r} {q} {c} g h = record {
    sorted = h.sorted;
    entries = All-map c.cache_items (λ e i. (i.0, ItemIn-Grows r q e.1 g i.1)) h.entries;
  }

module _ {F D : Type 0} where
  StreamIn-le : {m n : ℕ} (s : AnyStream F D) → m ≤ n → StreamIn m s → StreamIn n s
  StreamIn-le (basic s) le h = tt
  StreamIn-le (seamless s) le h = All-map s.segments (λ e lt. omega arith) h

  pub streams-le :
      {m n : ℕ} (l : List (AnyStream F D)) → m ≤ n → All (StreamIn m) l → All (StreamIn n) l
  streams-le l le = All-map l (λ s h. StreamIn-le s le h)

module _ {D : Type 0} where
  pub services-le :
      {m n : ℕ} (l : List (Service D)) → m ≤ n → All (ServiceIn m) l → All (ServiceIn n) l
  services-le l le = All-map l (λ s h. (h.0, All-map s.content_streams (λ e lt. omega arith) h.1))

  -- A service that keeps its streams may be written.
  pub HasStream-set :
      (services : List (Service D)) (place q : ℕ) (s t : Service D)
      → get_elem? services place ≡ some s
      → (s.content_streams ≢ [] → t.content_streams ≢ [])
      → HasStream services q
      → HasStream (set services place t) q
  HasStream-set services place q s t e f h = elim (Bool-cases (place == q)) [
    | inl same ↦
        let at : place ≡ q = (==_iff place q).0 same in
        record {
          service = t;
          at_place =
              subst (λ j. get_elem? (set services place t) j ≡ some t) at
                (get_elem?-set services place t e);
          ne_nil = f (
              subst (λ (u : Service D). u.content_streams ≢ [])
                (found services place q h.service s h.at_place e at) h.ne_nil);
        }
    | inr other ↦ record {
      service = h.service;
      at_place = get_elem?-set_other services place q t (differ place q other) ∙ h.at_place;
      ne_nil = h.ne_nil;
    }
  ]
    where
      differ : (i j : ℕ) → (i == j) ≡ false → i ≢ j
      differ i j d = ground arith

      found :
          (l : List (Service D)) (i j : ℕ) (u v : Service D)
          → get_elem? l j ≡ some u
          → get_elem? l i ≡ some v
          → i ≡ j
          → u ≡ v
      found l i j u v a c d = cc

  pub HasStream-append :
      (services more : List (Service D)) (q : ℕ)
      → HasStream services q
      → HasStream (services ++ more) q
  HasStream-append services more q h = record {
    service = h.service;
    at_place = get_elem?-append services more q (get_elem?-lt services q h.at_place) ∙ h.at_place;
    ne_nil = h.ne_nil;
  }
