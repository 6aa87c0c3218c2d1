-- ===== src/Backend/Lifetime.antt =====
-- Which services and streams the program holds: `_services` of src/Middleware.h holds services, and
-- `_content_streams` of src/Service.h their streams. A closure of the cache keeps a reference to its
-- object, and does not hold it (src/Service.cpp, src/seamless/SeamlessContentStream.cpp).
use rt_mbms_mw.Prelude.Map.{insert, find}
use rt_mbms_mw.Prelude.{
  ℕ, Bool, true, false, ◌&&◌, ◌||◌, List, [], ◌∷◌, Option, none, some, ◌==◌, get_elem?, ◌≡◌, refl,
  arith, All, ◌≢◌,
}
use rt_mbms_mw.Prelude.Key.{Bytes, bytes_key}
use rt_mbms_mw.Backend.{Backend}
use rt_mbms_mw.Cache.{CacheItem, Callback, stream_playlist, service_manifest}
use rt_mbms_mw.Service.{Service}

-- An entry of the map leads to the place.
unfoldable pub leads_to : ℕ → List (Bytes × ℕ) → Bool
leads_to r [] = false
leads_to r ((k, p) ∷ m) = (p == r) || leads_to r m

module _ {D : Type 0} where
  unfoldable pub has_stream : ℕ → Option (Service D) → Bool
  unfolding leads_to
  has_stream r none = false
  has_stream r (some s) = leads_to r s.content_streams

  -- A registered service has the stream.
  unfoldable pub stream_held : List (Service D) → ℕ → List (Bytes × ℕ) → Bool
  unfolding has_stream
  stream_held services r [] = false
  stream_held services r ((id, p) ∷ m) =
      has_stream r (get_elem? services p) || stream_held services r m

module _ {F D : Type 0} where
  -- The object that a closure reads is held, and not destroyed.
  unfoldable pub is_held : Backend F D → Callback → Bool
  unfolding leads_to stream_held
  is_held b (service_manifest r) = leads_to r b.registry
  is_held b (stream_playlist r) = stream_held b.services r b.registry

  -- A file and a segment are held by their item.
  unfoldable pub item_held : Backend F D → CacheItem F → Bool
  unfolding is_held
  item_held b (CacheItem.file _ _ _) = true
  item_held b (CacheItem.segment _ _ _) = true
  item_held b (CacheItem.playlist _ _ cb) = is_held b cb
  item_held b (CacheItem.manifest _ _ cb) = is_held b cb

  unfoldable pub items_held : Backend F D → List (Bytes × CacheItem F) → Bool
  unfolding item_held
  items_held b [] = true
  items_held b ((k, i) ∷ m) = item_held b i && items_held b m

  -- The objects of all closures in the cache are held.
  unfoldable pub all_held : Backend F D → Bool
  unfolding items_held
  all_held b = items_held b b.cache.cache_items

-- A new entry leads to its place.
pub leads_to-insert : (k : Bytes) (r : ℕ) (m : List (Bytes × ℕ)) → leads_to r (insert k r m) ≡ true
unfolding leads_to insert
leads_to-insert k r [] = ground arith
leads_to-insert k r ((j, p) ∷ m) = ground (arith, leads_to-insert k r m)

-- A service at the place of a new entry that has the stream.
pub stream_held-insert :
    {D : Type 0} (services : List (Service D)) (k : Bytes) (place r : ℕ) (s : Service D)
    (m : List (Bytes × ℕ))
    → get_elem? services place ≡ some s
    → leads_to r s.content_streams ≡ true
    → stream_held services r (insert k place m) ≡ true
unfolding stream_held has_stream insert
stream_held-insert services k place r s [] g h = rw (g, has_stream, h) refl
stream_held-insert services k place r s ((j, p) ∷ m) g h =
    let rest = stream_held-insert services k place r s m g h in
    let here : has_stream r (get_elem? services place) ≡ true = rw (g, has_stream) h in
    ground (arith, rest, here)

pub leads_to-All : (r : ℕ) (m : List (Bytes × ℕ)) → All (λ e. e.1 ≢ r) m → leads_to r m ≡ false
unfolding leads_to
leads_to-All r [] h = refl
leads_to-All r ((k, p) ∷ m) (n, h) = ground (arith, leads_to-All r m h)

-- One item with a destroyed object is enough.
pub items_held-find :
    {F D : Type 0} (b : Backend F D) (k : Bytes) (i : CacheItem F) (m : List (Bytes × CacheItem F))
    → find k m ≡ some i
    → item_held b i ≡ false
    → items_held b m ≡ false
unfolding items_held find
items_held-find b k i [] e h = cc
items_held-find b k i ((j, x) ∷ m) e h = ground (arith, items_held-find b k i m, h)
