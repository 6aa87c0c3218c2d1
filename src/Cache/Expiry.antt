-- ===== src/Cache/Expiry.antt =====
-- The first loop of `check_file_expiry_and_cache_size`: what it keeps, and what it notes.
use rt_mbms_mw.Prelude.{
  ℕ, ◌+◌, false, List, [], ◌∷◌, Option, none, some, ◌≡◌, refl, ap, ◌∙◌, arith, All,
}
use rt_mbms_mw.Prelude.Key.{Bytes, bytes_key, equal, equal_iff, less_irrefl}
use rt_mbms_mw.Prelude.Map.{find, Above, IsSorted, find-entries, find_below}
use rt_mbms_mw.Cache.{
  CacheItem, Verdict, untracked, expired, aged, insert_age, note_age, expire_loop,
}

-- No entry has the key.
abbrev pub Fresh : Bytes → List (ℕ × Bytes) → Type 0
Fresh k = All (λ e. equal k e.1 ≡ false)

abbrev pub Distinct : List (ℕ × Bytes) → Type 0
Distinct [] = Unit
Distinct (e ∷ m) = Fresh e.1 m × Distinct m

-- The sum of a weight over the noted entries.
abbrev pub total_weight : (Bytes → ℕ) → List (ℕ × Bytes) → ℕ
total_weight w [] = 0
total_weight w (e ∷ m) = w e.1 + total_weight w m

insert_age-All :
    (P : ℕ × Bytes → Type 0) (a : ℕ) (k : Bytes) (m : List (ℕ × Bytes))
    → P (a, k)
    → All P m
    → All P (insert_age a k m)
unfolding insert_age
insert_age-All P a k [] p h = (p, tt)
insert_age-All P a k ((b, j) ∷ m) p (q, h) = ground (arith, insert_age-All P a k m p h)

insert_age-Distinct :
    (a : ℕ) (k : Bytes) (m : List (ℕ × Bytes))
    → Fresh k m
    → Distinct m
    → Distinct (insert_age a k m)
unfolding insert_age
insert_age-Distinct a k [] f d = (tt, tt)
insert_age-Distinct a k ((b, j) ∷ m) (e, f) (g, d) = ground (
  arith,
  insert_age-Distinct a k m f d,
  insert_age-All (λ e. equal j e.1 ≡ false) a k m,
  equal_iff k j,
  equal_iff j k,
)

insert_age-total_weight :
    (w : Bytes → ℕ) (a : ℕ) (k : Bytes) (m : List (ℕ × Bytes))
    → total_weight w (insert_age a k m) ≡ w k + total_weight w m
unfolding insert_age
insert_age-total_weight w a k [] = omega arith
insert_age-total_weight w a k ((b, j) ∷ m) = ground (arith, insert_age-total_weight w a k m)

note_age-Distinct :
    (v : Verdict) (k : Bytes) (m : List (ℕ × Bytes))
    → Fresh k m
    → Distinct m
    → Distinct (note_age v k m)
note_age-Distinct (aged a) k m f d = insert_age-Distinct a k m f d
note_age-Distinct untracked k m f d = d
note_age-Distinct expired k m f d = d

module _ {F : Type 0} (judged : CacheItem F → Verdict) where
  abbrev loop :
      List (Bytes × CacheItem F) → List (ℕ × Bytes) → List (Bytes × CacheItem F) × List (ℕ × Bytes)
  loop = expire_loop judged

  -- The items that stay do not depend on the ages noted before.
  expire_loop-Above :
      (j : Bytes) (m : List (Bytes × CacheItem F)) (ages : List (ℕ × Bytes))
      → Above j m
      → Above j (loop m ages).0
  unfolding expire_loop
  expire_loop-Above j [] ages a = tt
  expire_loop-Above j ((k, i) ∷ m) ages (b, a) =
      ground (arith, expire_loop-Above j m (note_age (judged i) k ages) a)

  pub expire_loop-IsSorted :
      (m : List (Bytes × CacheItem F)) (ages : List (ℕ × Bytes))
      → IsSorted m
      → IsSorted (loop m ages).0
  unfolding expire_loop
  expire_loop-IsSorted [] ages s = tt
  expire_loop-IsSorted ((k, i) ∷ m) ages (a, s) =
      let ages' = note_age (judged i) k ages in
      ground (arith, expire_loop-IsSorted m ages' s, expire_loop-Above k m ages' a)

  -- What becomes of an item that was found.
  abbrev pub unexpired : Verdict → CacheItem F → Option (CacheItem F)
  unexpired expired i = none
  unexpired untracked i = some i
  unexpired (aged a) i = some i

  abbrev pub unexpired? : Option (CacheItem F) → Option (CacheItem F)
  unexpired? none = none
  unexpired? (some i) = unexpired (judged i) i

  -- An item stays exactly if it is not expired.
  pub find-expire_loop :
      (q : Bytes) (m : List (Bytes × CacheItem F)) (ages : List (ℕ × Bytes))
      → IsSorted m
      → find q (loop m ages).0 ≡ unexpired? (find q m)
  unfolding expire_loop find
  find-expire_loop q [] ages s = refl
  find-expire_loop q ((k, i) ∷ m) ages (a, s) =
      ground (
        arith,
        find-expire_loop q m (note_age (judged i) k ages) s,
        equal_iff q k,
        find_below k m a,
      )

  -- A property of the noted entries.
  expire_loop-All :
      (P : ℕ × Bytes → Type 0) (m : List (Bytes × CacheItem F)) (ages : List (ℕ × Bytes))
      → All (λ e. (a : ℕ) → judged e.1 ≡ aged a → P (a, e.0)) m
      → All P ages
      → All P (loop m ages).1
  unfolding expire_loop
  expire_loop-All P [] ages h p = p
  expire_loop-All P ((k, i) ∷ m) ages (f, h) p =
      expire_loop-All P m (note_age (judged i) k ages) h (note (judged i) refl)
    where
      note : (v : Verdict) → judged i ≡ v → All P (note_age v k ages)
      note untracked e = p
      note expired e = p
      note (aged a) e = insert_age-All P a k ages (f a e) p

  -- The keys still to come are fresh.
  abbrev AllFresh : List (ℕ × Bytes) → List (Bytes × CacheItem F) → Type 0
  AllFresh ages = All (λ e. Fresh e.0 ages)

  note_age-AllFresh :
      (v : Verdict) (k : Bytes) (ages : List (ℕ × Bytes)) (m : List (Bytes × CacheItem F))
      → Above k m
      → AllFresh ages m
      → AllFresh (note_age v k ages) m
  note_age-AllFresh (aged b) k ages [] a f = tt
  note_age-AllFresh (aged b) k ages ((j, i) ∷ m) (l, a) (g, f) = (
    insert_age-All (λ e. equal j e.1 ≡ false) b k ages
        (ground (arith, equal_iff j k, less_irrefl k)) g,
    note_age-AllFresh (aged b) k ages m a f,
  )
  note_age-AllFresh untracked k ages m a f = f
  note_age-AllFresh expired k ages m a f = f

  pub expire_loop-Distinct :
      (m : List (Bytes × CacheItem F)) (ages : List (ℕ × Bytes))
      → IsSorted m
      → AllFresh ages m
      → Distinct ages
      → Distinct (loop m ages).1
  unfolding expire_loop
  expire_loop-Distinct [] ages s f d = d
  expire_loop-Distinct ((k, i) ∷ m) ages (a, s) (g, f) d =
      expire_loop-Distinct m (note_age (judged i) k ages) s
        (note_age-AllFresh (judged i) k ages m a f) (note_age-Distinct (judged i) k ages g d)

  -- The weight of an entry of the map, if its age counts.
  abbrev pub weight_if_aged : Verdict → ℕ → ℕ
  weight_if_aged (aged a) n = n
  weight_if_aged untracked n = 0
  weight_if_aged expired n = 0

  abbrev pub tracked_weight : (Bytes × CacheItem F → ℕ) → List (Bytes × CacheItem F) → ℕ
  tracked_weight w [] = 0
  tracked_weight w (e ∷ m) = weight_if_aged (judged e.1) (w e) + tracked_weight w m

  note_age-total_weight :
      (w : Bytes → ℕ) (v : Verdict) (k : Bytes) (ages : List (ℕ × Bytes))
      → total_weight w (note_age v k ages) ≡ weight_if_aged v (w k) + total_weight w ages
  note_age-total_weight w (aged a) k ages = insert_age-total_weight w a k ages
  note_age-total_weight w untracked k ages = omega arith
  note_age-total_weight w expired k ages = omega arith

  pub expire_loop-total_weight :
      (w : Bytes → ℕ) (m : List (Bytes × CacheItem F)) (ages : List (ℕ × Bytes))
      → total_weight w (loop m ages).1
        ≡ total_weight w ages + tracked_weight (λ e. w e.0) (loop m ages).0
  unfolding expire_loop
  expire_loop-total_weight w [] ages = omega arith
  expire_loop-total_weight w ((k, i) ∷ m) ages = ground (
    arith,
    expire_loop-total_weight w m (note_age (judged i) k ages),
    note_age-total_weight w (judged i) k ages,
  )

  pub tracked_weight_congr :
      (w u : Bytes × CacheItem F → ℕ) (m : List (Bytes × CacheItem F))
      → All (λ e. w e ≡ u e) m
      → tracked_weight w m ≡ tracked_weight u m
  tracked_weight_congr w u [] h = refl
  tracked_weight_congr w u (e ∷ m) (p, h) = rw (p, tracked_weight_congr w u m h)

  -- The entry was noted for an item that is in the map.
  abbrev pub Tracks : List (Bytes × CacheItem F) → ℕ × Bytes → Type 0
  Tracks items e = (i : CacheItem F) × (find e.1 items ≡ some i) × (judged i ≡ aged e.0)

  -- What the second loop needs of the items and of the entries still to visit.
  pub record Ready (items : List (Bytes × CacheItem F)) (ages : List (ℕ × Bytes)) : Type 0 where
    pub sorted : IsSorted items
    pub distinct : Distinct ages
    pub tracks : All (Tracks items) ages

  AllFresh-nil : (m : List (Bytes × CacheItem F)) → AllFresh [] m
  AllFresh-nil [] = tt
  AllFresh-nil (e ∷ m) = (tt, AllFresh-nil m)

  Tracks-entries :
      (items m : List (Bytes × CacheItem F))
      → ((q : Bytes) → find q items ≡ unexpired? (find q m))
      → (n : List (Bytes × CacheItem F)) → All (λ e. find e.0 m ≡ some e.1) n
      → All (λ e. (a : ℕ) → judged e.1 ≡ aged a → Tracks items (a, e.0)) n
  Tracks-entries items m f [] h = tt
  Tracks-entries items m f ((k, i) ∷ n) (e, h) =
      (λ a j. (i, f k ∙ ap unexpired? e ∙ rw j, j), Tracks-entries items m f n h)

  -- The first loop leaves the second one ready.
  pub expire_loop-Ready :
      (m : List (Bytes × CacheItem F)) → IsSorted m → Ready (loop m []).0 (loop m []).1
  expire_loop-Ready m s = record {
    sorted = expire_loop-IsSorted m [] s;
    distinct = expire_loop-Distinct m [] s (AllFresh-nil m) tt;
    tracks =
        expire_loop-All (Tracks (loop m []).0) m []
          (Tracks-entries (loop m []).0 m (λ q. find-expire_loop q m [] s) m (find-entries m s)) tt;
  }
