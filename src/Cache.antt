-- ===== src/Cache.antt =====
-- src/CacheItems.h, src/CacheManagement.cpp and src/CacheManagement.h.
pub mod Expiry
pub mod Size
pub mod Laws
pub mod Kept
pub mod Tests
use rt_mbms_mw.Prelude.{
  ℕ, ◌+◌, ◌-◌, ◌*◌, ◌%◌, ◌^◌, Bool, true, false, List, [], ◌∷◌, Option, none, some, if◌then◌else◌,
  ltb, ◌==◌, length,
}
use rt_mbms_mw.Prelude.Key.{Bytes, bytes_key}
use rt_mbms_mw.Prelude.Map.{find, insert, erase}
use rt_mbms_mw.Prelude.Result.{Result, ok, throw, terminate, ◌>>=◌, Result_map}
use rt_mbms_mw.Prelude.Text.{codes}
use rt_mbms_mw.Flute.{Flute}
use rt_mbms_mw.Prelude.{get_elem?}
use rt_mbms_mw.Segment.{
  Segment, ItemSource, broadcast, cdn, generated, unavailable, segment_content_length, data_source,
}

-- The closures that make the text of a generated item: each reads a member of one object, the
-- `_playlist` of a stream or the `_manifest` of a service.
pub data Callback : Type 0 where
  stream_playlist service_manifest : ℕ → Callback

-- `CachedFile`, `CachedSegment`, `CachedPlaylist` and `CachedManifest`, each with the location and
-- the time of the base class. A segment is shared with its stream, and is named by its place.
pub data CacheItem (F : Type 0) : Type 0 where
  file : Bytes → ℕ → F → CacheItem F
  segment : Bytes → ℕ → ℕ → CacheItem F
  playlist : Bytes → ℕ → Callback → CacheItem F
  manifest : Bytes → ℕ → Callback → CacheItem F

pub data ItemType : Type 0 where
  file segment playlist manifest : ItemType

-- What the shared pointers of the items lead to.
pub record Heap (F D : Type 0) : Type 0 where
  pub segments : List (Segment F D)
  pub text : Callback → Bytes

abbrev pub content_location : {F : Type 0} → CacheItem F → Bytes
content_location (CacheItem.file l _ _) = l
content_location (CacheItem.segment l _ _) = l
content_location (CacheItem.playlist l _ _) = l
content_location (CacheItem.manifest l _ _) = l

abbrev pub item_type : {F : Type 0} → CacheItem F → ItemType
item_type (CacheItem.file _ _ _) = ItemType.file
item_type (CacheItem.segment _ _ _) = ItemType.segment
item_type (CacheItem.playlist _ _ _) = ItemType.playlist
item_type (CacheItem.manifest _ _ _) = ItemType.manifest

-- `item_source_as_string`
unfoldable pub source_string : ItemSource → Bytes
source_string broadcast = codes "5G-BC"
source_string cdn = codes "CDN"
source_string generated = codes "GEN"
source_string unavailable = codes "-"

-- A place that was never filled holds no segment.
option_or {ℓ} : {A B : Type ℓ} → B → (A → B) → Option A → B
option_or b f none = b
option_or b f (some a) = f a

module _ {F D : Type 0} ⦃flute : Flute F⦄ where
  -- `received_at` at the time `now`: a generated item is always new.
  unfoldable pub received_at : Heap F D → ℕ → CacheItem F → ℕ
  unfolding option_or
  received_at h now (CacheItem.file _ t _) = t
  received_at h now (CacheItem.segment _ _ r) =
      option_or 0 (λ s. s.content_received_at) (get_elem? h.segments r)
  received_at h now (CacheItem.playlist _ _ _) = now
  received_at h now (CacheItem.manifest _ _ _) = now

  unfoldable pub content_length : Heap F D → CacheItem F → ℕ
  unfolding option_or
  content_length h (CacheItem.file _ _ f) = flute.length f % 2 ^ 32
  content_length h (CacheItem.segment _ _ r) =
      option_or 0 segment_content_length (get_elem? h.segments r)
  content_length h (CacheItem.playlist _ _ cb) = length (h.text cb) % 2 ^ 32
  content_length h (CacheItem.manifest _ _ cb) = length (h.text cb) % 2 ^ 32

  unfoldable pub item_source : Heap F D → CacheItem F → ItemSource
  unfolding option_or
  item_source h (CacheItem.file _ _ _) = broadcast
  item_source h (CacheItem.segment _ _ r) =
      option_or unavailable data_source (get_elem? h.segments r)
  item_source h (CacheItem.playlist _ _ _) = generated
  item_source h (CacheItem.manifest _ _ _) = generated

pub record CacheManagement (F : Type 0) : Type 0 where
  pub cache_items : List (Bytes × CacheItem F)
  pub max_cache_size : ℕ
  pub max_cache_file_age : ℕ

-- `lookupValue` leaves the variable alone if the setting is missing.
abbrev pub lookup_value {ℓ} : {A : Type ℓ} → Option A → A → A
lookup_value none old = old
lookup_value (some a) old = a

-- The constructor, from `mw.cache.max_total_size` in megabytes and `mw.cache.max_file_age`. The size
-- is an `unsigned`, and wraps.
unfoldable pub cache_init : {F : Type 0} → Option ℕ → Option ℕ → CacheManagement F
cache_init max_total_size max_file_age = record {
  cache_items = [];
  max_cache_size = lookup_value max_total_size 512 * (1024 * 1024) % 2 ^ 32;
  max_cache_file_age = lookup_value max_file_age 30;
}

unfoldable pub add_item : {F : Type 0} → CacheItem F → CacheManagement F → CacheManagement F
add_item item c = record c { cache_items = insert (content_location item) item c.cache_items }

unfoldable pub remove_item : {F : Type 0} → Bytes → CacheManagement F → CacheManagement F
remove_item location c = record c { cache_items = erase location c.cache_items }

-- `std::multimap<unsigned, std::string>::insert`: behind the entries with an equal key.
unfoldable pub insert_age : ℕ → Bytes → List (ℕ × Bytes) → List (ℕ × Bytes)
insert_age a k [] = (a, k) ∷ []
insert_age a k ((b, j) ∷ m) = if ltb a b then (a, k) ∷ (b, j) ∷ m else (b, j) ∷ insert_age a k m

-- What the first loop finds of an item.
pub data Verdict : Type 0 where
  untracked expired : Verdict
  aged : ℕ → Verdict

-- The age is a difference of 64-bit words, which wraps for a time in the future.
unfoldable pub age_of : ℕ → ℕ → ℕ
age_of now received = (now % 2 ^ 64 + 2 ^ 64 - received % 2 ^ 64) % 2 ^ 64

unfoldable pub judge : ℕ → ℕ → ℕ → Verdict
judge max_age now received =
    if received == 0
    then untracked
    else if ltb max_age (age_of now received)
    then expired
    else aged (age_of now received)

module _ {F D : Type 0} ⦃flute : Flute F⦄ (h : Heap F D) (now : ℕ) where
  abbrev pub verdict : ℕ → CacheItem F → Verdict
  verdict max_age item = judge max_age now (received_at h now item)

abbrev pub note_age : Verdict → Bytes → List (ℕ × Bytes) → List (ℕ × Bytes)
note_age (aged a) k ages = insert_age a k ages
note_age untracked k ages = ages
note_age expired k ages = ages

abbrev pub keep_entry {ℓ} : {A : Type ℓ} → Verdict → A → List A → List A
keep_entry expired e rest = rest
keep_entry untracked e rest = e ∷ rest
keep_entry (aged a) e rest = e ∷ rest

module _ {F : Type 0} (judged : CacheItem F → Verdict) where
  -- The first loop: the items that stay, and `items_by_age`.
  unfoldable pub expire_loop :
      List (Bytes × CacheItem F) → List (ℕ × Bytes) → List (Bytes × CacheItem F) × List (ℕ × Bytes)
  expire_loop [] ages = ([], ages)
  expire_loop ((k, item) ∷ m) ages =
      let rest = expire_loop m (note_age (judged item) k ages) in
      (keep_entry (judged item) (k, item) rest.0, rest.1)

module _ {F : Type 0} (size_of : CacheItem F → ℕ) (max_size : ℕ) where
  -- The second loop. `total` is a `uint32_t`; an item that is missing would be a null pointer.
  unfoldable pub size_loop :
      ℕ → List (ℕ × Bytes) → List (Bytes × CacheItem F) → Result (List (Bytes × CacheItem F))
  size_loop total [] items = ok items
  size_loop total ((a, k) ∷ ages) items = elim (find k items) [
    | none ↦ terminate
    | some item ↦
        let total' = (total + size_of item) % 2 ^ 32 in
        size_loop total' ages (if ltb max_size total' then erase k items else items)
  ]

-- `check_file_expiry_and_cache_size` at the time `now`
unfoldable pub check_file_expiry_and_cache_size :
    {F D : Type 0} ⦃flute : Flute F⦄ → Heap F D → ℕ → CacheManagement F → Result (CacheManagement F)
check_file_expiry_and_cache_size h now c =
    let scanned = expire_loop (verdict h now c.max_cache_file_age) c.cache_items [] in
    Result_map (λ items. record c { cache_items = items })
      (size_loop (content_length h) c.max_cache_size 0 scanned.1 scanned.0)
