-- ===== src/Cache/Size.antt =====
-- The second loop of `check_file_expiry_and_cache_size`.
use Prim.Native.Nat.add
use rt_mbms_mw.Prelude.{
  ℕ, ◌+◌, ◌%◌, ◌^◌, ◌≤◌, ◌<◌, false, List, [], ◌∷◌, none, some, ◌≡◌, refl, sym, ◌∙◌, ◌⊎◌, inl, inr,
  arith, ltb, if◌then◌else◌, All, Bool-cases, ltb→lt, ltb→ge, ge→ltb,
}
use rt_mbms_mw.Prelude.Key.{Bytes, bytes_key, equal, equal_iff, less_irrefl}
use rt_mbms_mw.Prelude.Map.{find, erase, find-erase, Above, IsSorted, erase-IsSorted, find-entries}
use rt_mbms_mw.Prelude.Result.{Result, ok, ok_inj}
use rt_mbms_mw.Cache.{CacheItem, Verdict, aged, size_loop, expire_loop}
use rt_mbms_mw.Cache.Expiry.{
  Fresh, total_weight, tracked_weight, Tracks, Ready, expire_loop-IsSorted,
  expire_loop-total_weight, tracked_weight_congr,
}

module _ {F : Type 0} (judged : CacheItem F → Verdict) (size_of : CacheItem F → ℕ) where
  -- The length of the item under a key.
  abbrev pub size_at : List (Bytes × CacheItem F) → Bytes → ℕ
  size_at items k = elim (find k items) [ none ↦ 0 | some i ↦ size_of i ]

  abbrev pub tracked_size : List (Bytes × CacheItem F) → ℕ
  tracked_size = tracked_weight judged (λ e. size_of e.1)

  Tracks-erase :
      (k : Bytes) (items : List (Bytes × CacheItem F)) (ages : List (ℕ × Bytes))
      → Fresh k ages
      → All (Tracks judged items) ages
      → All (Tracks judged (erase k items)) ages
  Tracks-erase k items [] f h = tt
  Tracks-erase k items ((a, j) ∷ ages) (g, f) ((i, e, v), h) = (
    (i, ground (arith, find-erase k j items, equal_iff k j, equal_iff j k), v),
    Tracks-erase k items ages f h,
  )

  -- A round that keeps the item, and a round that erases it.
  pub Ready-keep :
      (e : ℕ × Bytes) (ages : List (ℕ × Bytes)) (items : List (Bytes × CacheItem F))
      → Ready judged items (e ∷ ages)
      → Ready judged items ages
  Ready-keep e ages items r = record {
    sorted = r.sorted;
    distinct = r.distinct.1;
    tracks = r.tracks.1;
  }

  pub Ready-erase :
      (e : ℕ × Bytes) (ages : List (ℕ × Bytes)) (items : List (Bytes × CacheItem F))
      → Ready judged items (e ∷ ages)
      → Ready judged (erase e.1 items) ages
  Ready-erase e ages items r = record {
    sorted = erase-IsSorted e.1 items r.sorted;
    distinct = r.distinct.1;
    tracks = Tracks-erase e.1 items ages r.distinct.0 r.tracks.1;
  }

  erase_absent :
      (k : Bytes) (items : List (Bytes × CacheItem F)) → Above k items → erase k items ≡ items
  unfolding erase
  erase_absent k [] a = refl
  erase_absent k ((j, i) ∷ m) (l, a) =
      ground (arith, equal_iff k j, less_irrefl k, erase_absent k m a)

  -- The size of what is left and of what was erased add up.
  tracked_size-erase :
      (k : Bytes) (a : ℕ) (i : CacheItem F) (items : List (Bytes × CacheItem F))
      → IsSorted items
      → find k items ≡ some i
      → judged i ≡ aged a
      → tracked_size (erase k items) + size_of i ≡ tracked_size items
  unfolding erase find
  tracked_size-erase k a i [] s e v = cc
  tracked_size-erase k a i ((j, h) ∷ m) (b, s) e v = elim (Bool-cases (equal k j)) [
    | inl same ↦ ground (arith, equal_iff k j, erase_absent k m, rw (← (equal_iff k j).0 same) at b)
    | inr other ↦ ground (arith, tracked_size-erase k a i m s)
  ]

  total_weight-erase :
      (k : Bytes) (items : List (Bytes × CacheItem F)) (ages : List (ℕ × Bytes))
      → Fresh k ages
      → total_weight (size_at (erase k items)) ages ≡ total_weight (size_at items) ages
  total_weight-erase k items [] f = refl
  total_weight-erase k items ((a, j) ∷ ages) (g, f) =
      ground (
        arith,
        find-erase k j items,
        equal_iff k j,
        equal_iff j k,
        total_weight-erase k items ages f,
      )

  -- How the map changes: an entry is as before, or it was tracked and is gone.
  abbrev pub KeptOrEvicted :
      List (Bytes × CacheItem F) → List (Bytes × CacheItem F) → Bytes → Type 0
  KeptOrEvicted items items' q =
      (find q items' ≡ find q items)
      ⊎ ((find q items' ≡ none)
          × ((i : CacheItem F) × (a : ℕ) × (find q items ≡ some i) × (judged i ≡ aged a)))

  pub record Shrunk (items items' : List (Bytes × CacheItem F)) : Type 0 where
    pub sorted : IsSorted items'
    pub entries : (q : Bytes) → KeptOrEvicted items items' q

  Shrunk-refl : (items : List (Bytes × CacheItem F)) → IsSorted items → Shrunk items items
  Shrunk-refl items s = record { sorted = s; entries = λ q. inl refl }

  KeptOrEvicted-erase :
      (e : ℕ × Bytes) (items items' : List (Bytes × CacheItem F)) (q : Bytes)
      → Tracks judged items e
      → KeptOrEvicted (erase e.1 items) items' q
      → KeptOrEvicted items items' q
  KeptOrEvicted-erase (a, k) items items' q (i, f, v) h = elim (Bool-cases (equal q k)) [
    | inl same ↦
        let gone : find q (erase k items) ≡ none = ground (arith, find-erase k q items) in
        inr (ground (arith, gone), (i, a, rw ((equal_iff q k).0 same) f, v))
    | inr other ↦ rw (find-erase k q items, other) at h
  ]

  Shrunk-erase :
      (e : ℕ × Bytes) (items items' : List (Bytes × CacheItem F))
      → Tracks judged items e
      → Shrunk (erase e.1 items) items'
      → Shrunk items items'
  Shrunk-erase e items items' t s = record {
    sorted = s.sorted;
    entries = λ q. KeptOrEvicted-erase e items items' q t (s.entries q);
  }

  module _ (max_size : ℕ) where
    abbrev loop :
        ℕ → List (ℕ × Bytes) → List (Bytes × CacheItem F) → Result (List (Bytes × CacheItem F))
    loop = size_loop size_of max_size

    -- The items after a round that brings the total to `t`.
    abbrev after_round : ℕ → Bytes → List (Bytes × CacheItem F) → List (Bytes × CacheItem F)
    after_round t k items = if ltb max_size t then erase k items else items

    size_loop_round :
        (total a : ℕ) (k : Bytes) (ages : List (ℕ × Bytes)) (items : List (Bytes × CacheItem F))
        → (i : CacheItem F) → find k items ≡ some i
        → loop total ((a, k) ∷ ages) items
          ≡ (let t = (total + size_of i) % 2 ^ 32 in loop t ages (after_round t k items))
    unfolding size_loop
    size_loop_round total a k ages items i e = rw (e, size_loop)

    Ready-after_round :
        (t : ℕ) (e : ℕ × Bytes) (ages : List (ℕ × Bytes)) (items : List (Bytes × CacheItem F))
        → Ready judged items (e ∷ ages)
        → Ready judged (after_round t e.1 items) ages
    Ready-after_round t e ages items r = elim (Bool-cases (ltb max_size t)) [
      | inl full ↦ rw full (Ready-erase e ages items r)
      | inr fits ↦ rw fits (Ready-keep e ages items r)
    ]

    Shrunk-after_round :
        (t : ℕ) (e : ℕ × Bytes) (items items' : List (Bytes × CacheItem F))
        → Tracks judged items e
        → Shrunk (after_round t e.1 items) items'
        → Shrunk items items'
    Shrunk-after_round t e items items' k = elim (Bool-cases (ltb max_size t)) [
      | inl full ↦ rw full (λ s. Shrunk-erase e items items' k s)
      | inr fits ↦ rw fits (λ s. s)
    ]

    -- The loop meets no null pointer, and shrinks the map.
    pub size_loop-Shrunk :
        (total : ℕ) (ages : List (ℕ × Bytes)) (items : List (Bytes × CacheItem F))
        → Ready judged items ages
        → (items' : List (Bytes × CacheItem F)) × (loop total ages items ≡ ok items')
          × Shrunk items items'
    size_loop-Shrunk total [] items r =
        (items, unfold size_loop in refl, Shrunk-refl items r.sorted)
    size_loop-Shrunk total ((a, k) ∷ ages) items r =
        let (i, f, v) = r.tracks.0 in
        let t = (total + size_of i) % 2 ^ 32 in
        let (items', e, s) =
          size_loop-Shrunk t ages (after_round t k items)
            (Ready-after_round t (a, k) ages items r) in
        (
          items',
          size_loop_round total a k ages items i f ∙ e,
          Shrunk-after_round t (a, k) items items' r.tracks.0 s,
        )

    -- If all sizes together stay below 2^32 the items that are left fit.
    pub size_loop_bound :
        (total : ℕ) (ages : List (ℕ × Bytes)) (items : List (Bytes × CacheItem F)) (kept : ℕ)
        → Ready judged items ages
        → tracked_size items ≡ kept + total_weight (size_at items) ages
        → kept ≤ max_size
        → (total ≤ max_size → kept ≤ total)
        → total + total_weight (size_at items) ages < 2 ^ 32
        → (items' : List (Bytes × CacheItem F)) → loop total ages items ≡ ok items'
        → tracked_size items' ≤ max_size
    size_loop_bound total [] items kept r w u v h items' e =
        unfold size_loop in rw (← ok_inj e) (omega arith)
    size_loop_bound total ((a, k) ∷ ages) items kept r w u v h items' e =
        let (i, f, j) = r.tracks.0 in
        let t = (total + size_of i) % 2 ^ 32 in
        let here : size_at items k ≡ size_of i = rw (f, size_at) in
        let gone = tracked_size-erase k a i items r.sorted f j in
        let rest = total_weight-erase k items ages r.distinct.0 in
        let later : loop t ages (after_round t k items) ≡ ok items' =
          sym (size_loop_round total a k ages items i f) ∙ e in
        elim (Bool-cases (ltb max_size t)) [
          | inl full ↦
              size_loop_bound t ages (erase k items) kept (Ready-erase (a, k) ages items r)
                (omega arith) u (λ l. omega (arith, ltb→lt max_size t full)) (omega arith) items'
                (rw full at later)
          | inr fits ↦
              size_loop_bound t ages items (kept + size_of i) (Ready-keep (a, k) ages items r)
                (omega arith) (omega (arith, ltb→ge max_size t fits))
                (λ l. omega (arith, ltb→ge max_size t fits)) (omega arith) items' (rw fits at later)
        ]

    -- If all sizes together fit, no item goes.
    pub size_loop_fits :
        (total : ℕ) (ages : List (ℕ × Bytes)) (items : List (Bytes × CacheItem F))
        → Ready judged items ages
        → total + total_weight (size_at items) ages ≤ max_size
        → max_size < 2 ^ 32
        → loop total ages items ≡ ok items
    size_loop_fits total [] items r h m = unfold size_loop in refl
    size_loop_fits total ((a, k) ∷ ages) items r h m =
        let (i, f, j) = r.tracks.0 in
        let t = (total + size_of i) % 2 ^ 32 in
        let here : size_at items k ≡ size_of i = rw (f, size_at) in
        let fits : ltb max_size t ≡ false = ge→ltb max_size t (omega arith) in
        size_loop_round total a k ages items i f
        ∙ rw fits (size_loop_fits t ages items (Ready-keep (a, k) ages items r) (omega arith) m)

  size_at-entries :
      (items m : List (Bytes × CacheItem F))
      → All (λ e. find e.0 items ≡ some e.1) m
      → All (λ e. size_at items e.0 ≡ size_of e.1) m
  size_at-entries items [] h = tt
  size_at-entries items (e ∷ m) (f, h) = (rw (f, size_at), size_at-entries items m h)

  -- What the first loop noted weighs as much as the items that it left.
  pub expire_loop-tracked_size :
      (m : List (Bytes × CacheItem F))
      → IsSorted m
      → let scanned = expire_loop judged m [] in
        total_weight (size_at scanned.0) scanned.1 ≡ tracked_size scanned.0
  expire_loop-tracked_size m s =
      let kept = (expire_loop judged m []).0 in
      let entries = find-entries kept (expire_loop-IsSorted judged m [] s) in
      expire_loop-total_weight judged (size_at kept) m []
      ∙ add.zero _
      ∙ tracked_weight_congr judged (λ e. size_at kept e.0) (λ e. size_of e.1) kept
          (size_at-entries kept kept entries)
