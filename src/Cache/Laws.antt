-- ===== src/Cache/Laws.antt =====
-- What `check_file_expiry_and_cache_size` does to a cache.
use rt_mbms_mw.Prelude.{
  ℕ, ◌≤◌, ◌<◌, ◌^◌, List, [], Option, none, some, ◌≡◌, refl, ap, ◌⊎◌, arith, subst, ◌==◌, ltb,
  if◌then◌else◌, ◌+◌, All, ◌-◌, Bool-cases, inl, inr,
}
use rt_mbms_mw.Prelude.Key.{Bytes, bytes_key}
use rt_mbms_mw.Prelude.Map.{find, IsSorted, insert-IsSorted, erase-IsSorted, find-All}
use rt_mbms_mw.Prelude.Result.{ok, Result_map, Result_map-eq-ok}
use rt_mbms_mw.Flute.{Flute}
use rt_mbms_mw.Cache.{
  CacheItem, CacheManagement, Heap, Verdict, untracked, expired, aged, verdict, content_length,
  add_item, remove_item, expire_loop, size_loop, check_file_expiry_and_cache_size, judge, age_of,
  received_at,
}
use rt_mbms_mw.Cache.Expiry.{unexpired?, expire_loop-Ready, find-expire_loop}
use rt_mbms_mw.Cache.Size.{
  tracked_size, size_loop-Shrunk, size_loop_bound, size_loop_fits, expire_loop-tracked_size,
}

-- The keys of the map rise, as those of a `std::map` do.
pub record IsValid {F : Type 0} (c : CacheManagement F) : Type 0 where
  pub sorted : IsSorted c.cache_items

pub add_item-IsValid :
    {F : Type 0} (i : CacheItem F) (c : CacheManagement F) → IsValid c → IsValid (add_item i c)
unfolding add_item
add_item-IsValid i c v = record { sorted = insert-IsSorted _ i c.cache_items v.sorted }

pub remove_item-IsValid :
    {F : Type 0} (l : Bytes) (c : CacheManagement F) → IsValid c → IsValid (remove_item l c)
unfolding remove_item
remove_item-IsValid l c v = record { sorted = erase-IsSorted l c.cache_items v.sorted }

-- What the age of an item asks for.
pub data Wanted : Type 0 where
  kept removed kept_or_removed : Wanted

-- An item with the time 0 stays; one that is older than the limit goes.
unfoldable pub wanted : ℕ → ℕ → ℕ → Wanted
wanted max_age now received =
    if received == 0
    then kept
    else if ltb (received + max_age) now
    then removed
    else kept_or_removed

-- What may be found of an item afterwards.
abbrev pub Fate : {A : Type 0} → Wanted → A → Option A → Type 0
Fate kept i o = o ≡ some i
Fate removed i o = o ≡ none
Fate kept_or_removed i o = (o ≡ some i) ⊎ (o ≡ none)

module _ {F D : Type 0} ⦃flute : Flute F⦄ (h : Heap F D) (now : ℕ) where
  abbrev VerdictFate : Verdict → CacheItem F → Option (CacheItem F) → Type 0
  VerdictFate expired i o = o ≡ none
  VerdictFate untracked i o = o ≡ some i
  VerdictFate (aged a) i o = (o ≡ some i) ⊎ (o ≡ none)

  abbrev VerdictFateOf : ℕ → Option (CacheItem F) → Option (CacheItem F) → Type 0
  VerdictFateOf max_age none o = o ≡ none
  VerdictFateOf max_age (some i) o = VerdictFate (verdict h now max_age i) i o

  VerdictFate-cases :
      (judged : CacheItem F → Verdict) (v : Verdict) (i : CacheItem F) (o p : Option (CacheItem F))
      → judged i ≡ v
      → p ≡ unexpired? judged (some i)
      → (o ≡ p) ⊎ ((o ≡ none) × ((j : CacheItem F) × (a : ℕ) × (p ≡ some j) × (judged j ≡ aged a)))
      → VerdictFate v i o
  VerdictFate-cases judged untracked i o p e f c = ground arith
  VerdictFate-cases judged expired i o p e f c = ground arith
  VerdictFate-cases judged (aged a) i o p e f c = ground arith

  VerdictFateOf-cases :
      (max_age : ℕ) (before o p : Option (CacheItem F))
      → p ≡ unexpired? (verdict h now max_age) before
      → (o ≡ p)
        ⊎ ((o ≡ none)
            × ((j : CacheItem F) × (a : ℕ) × (p ≡ some j) × (verdict h now max_age j ≡ aged a)))
      → VerdictFateOf max_age before o
  VerdictFateOf-cases max_age none o p f c = ground arith
  VerdictFateOf-cases max_age (some i) o p f c =
      VerdictFate-cases (verdict h now max_age) (verdict h now max_age i) i o p refl f c

  check-VerdictFateOf :
      (c : CacheManagement F)
      → IsValid c
      → (c' : CacheManagement F) × (check_file_expiry_and_cache_size h now c ≡ ok c')
        × IsValid c'
        × (c'.max_cache_size ≡ c.max_cache_size)
        × (c'.max_cache_file_age ≡ c.max_cache_file_age)
        × ((q : Bytes)
            → VerdictFateOf c.max_cache_file_age (find q c.cache_items) (find q c'.cache_items))
  unfolding check_file_expiry_and_cache_size
  check-VerdictFateOf c v =
      let judged = verdict h now c.max_cache_file_age in
      let ready = expire_loop-Ready judged c.cache_items v.sorted in
      let scanned = expire_loop judged c.cache_items [] in
      let (items, e, s) =
        size_loop-Shrunk judged (content_length h) c.max_cache_size 0 scanned.1 scanned.0 ready in
      (
        record c { cache_items = items },
        ap (Result_map (λ (m : List (Bytes × CacheItem F)). record c { cache_items = m })) e,
        record { sorted = s.sorted },
        refl,
        refl,
        λ q.
            VerdictFateOf-cases c.max_cache_file_age (find q c.cache_items) (find q items)
              (find q scanned.0) (find-expire_loop judged q c.cache_items [] v.sorted)
              (s.entries q),
      )

  pub check_returns :
      (c : CacheManagement F)
      → IsValid c
      → (c' : CacheManagement F) × (check_file_expiry_and_cache_size h now c ≡ ok c') × IsValid c'
  check_returns c v = let (c', e, w, _, _, _) = check-VerdictFateOf c v in (c', e, w)

  age_test :
      (max_age received : ℕ)
      → received ≤ now
      → now < 2 ^ 64
      → ltb max_age (age_of now received) ≡ ltb (received + max_age) now
  age_test max_age received le lt =
      let age : age_of now received ≡ now - received = unfold age_of in omega arith in
      rw age (ltb_shift max_age received now le)
    where
      ltb_shift : (m r n : ℕ) → r ≤ n → ltb m (n - r) ≡ ltb (r + m) n
      ltb_shift m r n h = ground arith

  judged-Fate :
      (max_age received : ℕ) (i : CacheItem F) (o : Option (CacheItem F))
      → received ≤ now
      → now < 2 ^ 64
      → VerdictFate (judge max_age now received) i o
      → Fate (wanted max_age now received) i o
  unfolding judge wanted
  judged-Fate max_age received i o le lt = elim (Bool-cases (received == 0)) [
    | inl fresh ↦ rw fresh (λ f. f)
    | inr timed ↦ elim (Bool-cases (ltb (received + max_age) now)) [
      | inl over ↦ rw (timed, age_test max_age received le lt, over) (λ f. f)
      | inr under ↦ rw (timed, age_test max_age received le lt, under) (λ f. f)
    ]
  ]

  -- What may be found afterwards under a key.
  abbrev pub FateOf : ℕ → Option (CacheItem F) → Option (CacheItem F) → Type 0
  FateOf max_age none o = o ≡ none
  FateOf max_age (some i) o = Fate (wanted max_age now (received_at h now i)) i o

  verdict-FateOf :
      (max_age : ℕ) (before o : Option (CacheItem F))
      → ((i : CacheItem F) → before ≡ some i → received_at h now i ≤ now)
      → now < 2 ^ 64
      → VerdictFateOf max_age before o
      → FateOf max_age before o
  verdict-FateOf max_age none o past lt f = f
  verdict-FateOf max_age (some i) o past lt f =
      judged-Fate max_age (received_at h now i) i o (past i refl) lt f

  -- The check of a valid cache at a time below 2^64, if none of its items is from the future,
  -- succeeds: it dereferences no missing item, keeps the cache valid and its limits, adds and
  -- changes no item, keeps every item with the time 0, removes every other item that is older than
  -- the limit, and keeps or removes the rest.
  pub check-FateOf :
      (c : CacheManagement F)
      → IsValid c
      → All (λ e. received_at h now e.1 ≤ now) c.cache_items
      → now < 2 ^ 64
      → (c' : CacheManagement F) × (check_file_expiry_and_cache_size h now c ≡ ok c')
        × IsValid c'
        × (c'.max_cache_size ≡ c.max_cache_size)
        × (c'.max_cache_file_age ≡ c.max_cache_file_age)
        × ((q : Bytes) → FateOf c.max_cache_file_age (find q c.cache_items) (find q c'.cache_items))
  check-FateOf c v past lt =
      let (c', e, v', s, a, fates) = check-VerdictFateOf c v in
      (
        c',
        e,
        v',
        s,
        a,
        λ q.
            verdict-FateOf c.max_cache_file_age (find q c.cache_items) (find q c'.cache_items)
              (find-All (λ i. received_at h now i ≤ now) q c.cache_items past) lt (fates q),
      )

  -- The items that are left when the first loop is done.
  abbrev pub unexpired_items : CacheManagement F → List (Bytes × CacheItem F)
  unexpired_items c = (expire_loop (verdict h now c.max_cache_file_age) c.cache_items []).0

  -- The length of all items with a time other than 0 that are not expired.
  abbrev pub tracked_length : CacheManagement F → List (Bytes × CacheItem F) → ℕ
  tracked_length c = tracked_size (verdict h now c.max_cache_file_age) (content_length h)

  -- If in a valid cache the lengths of the unexpired items with a time other than 0 sum up to less
  -- than 2^32, and the check returns, the lengths of those that it leaves sum up to the limit at
  -- most.
  pub check-tracked_length-le :
      (c c' : CacheManagement F)
      → IsValid c
      → tracked_length c (unexpired_items c) < 2 ^ 32
      → check_file_expiry_and_cache_size h now c ≡ ok c'
      → tracked_length c c'.cache_items ≤ c.max_cache_size
  unfolding check_file_expiry_and_cache_size
  check-tracked_length-le c c' v w e =
      let judged = verdict h now c.max_cache_file_age in
      let ready = expire_loop-Ready judged c.cache_items v.sorted in
      let scanned = expire_loop judged c.cache_items [] in
      let weigh = expire_loop-tracked_size judged (content_length h) c.cache_items v.sorted in
      let (items, f, g) =
        Result_map-eq-ok (λ (m : List (Bytes × CacheItem F)). record c { cache_items = m })
          (size_loop (content_length h) c.max_cache_size 0 scanned.1 scanned.0) e in
      let bound : tracked_length c items ≤ c.max_cache_size =
        size_loop_bound judged (content_length h) c.max_cache_size 0 scanned.1 scanned.0 0 ready
          (omega (arith, weigh)) (omega arith) (λ l. omega arith) (omega (arith, weigh)) items f in
      subst (λ m. tracked_length c m ≤ c.max_cache_size)
        (ap (λ (d : CacheManagement F). d.cache_items) g) bound

  -- If in a valid cache the lengths of the unexpired items with a time other than 0 sum up to the
  -- limit at most, and that is below 2^32, the check returns and only expired items go.
  pub check_fits :
      (c : CacheManagement F)
      → IsValid c
      → tracked_length c (unexpired_items c) ≤ c.max_cache_size
      → c.max_cache_size < 2 ^ 32
      → check_file_expiry_and_cache_size h now c ≡ ok (record c { cache_items = unexpired_items c })
  unfolding check_file_expiry_and_cache_size
  check_fits c v w m =
      let judged = verdict h now c.max_cache_file_age in
      let ready = expire_loop-Ready judged c.cache_items v.sorted in
      let scanned = expire_loop judged c.cache_items [] in
      let weigh = expire_loop-tracked_size judged (content_length h) c.cache_items v.sorted in
      ap (Result_map (λ (m : List (Bytes × CacheItem F)). record c { cache_items = m })) (
        size_loop_fits judged (content_length h) c.max_cache_size 0 scanned.1 scanned.0 ready
          (omega (arith, weigh)) m)
