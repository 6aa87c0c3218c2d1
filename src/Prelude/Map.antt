-- ===== src/Prelude/Map.antt =====
-- `std::map` as the list of its entries in the order of the keys.
use rt_mbms_mw.Prelude.{
  ◌+◌, ◌≤◌, true, List, [], ◌∷◌, Option, none, some, ◌≡◌, refl, arith, if◌then◌else◌, length, All,
  ◌≢◌, Bool, false, subst,
}
use rt_mbms_mw.Prelude.Key.{Key}

pub eqb_refl {ℓ} : {K : Type ℓ} ⦃key : Key K⦄ (k : K) → key.eqb k k ≡ true
eqb_refl ⦃key⦄ k = (key.eqb_iff k k).1 refl

module _ {ℓ κ} {K : Type ℓ} {V : Type κ} ⦃key : Key K⦄ where
  -- `find`
  unfoldable pub find : K → List (K × V) → Option V
  find k [] = none
  find k ((j, v) ∷ m) = if key.eqb k j then some v else find k m

  -- `m[k] = v`
  unfoldable pub insert : K → V → List (K × V) → List (K × V)
  insert k v [] = (k, v) ∷ []
  insert k v ((j, w) ∷ m) =
      if key.eqb k j
      then (k, v) ∷ m
      else if key.lt k j
      then (k, v) ∷ (j, w) ∷ m
      else (j, w) ∷ insert k v m

  -- `erase(k)`
  unfoldable pub erase : K → List (K × V) → List (K × V)
  erase k [] = []
  erase k ((j, w) ∷ m) = let rest = erase k m in if key.eqb k j then rest else (j, w) ∷ rest

  pub find-insert :
      (k q : K) (v : V) (m : List (K × V))
      → find q (insert k v m) ≡ (if key.eqb q k then some v else find q m)
  unfolding find insert
  find-insert k q v [] = refl
  find-insert k q v ((j, w) ∷ m) =
      ground (arith, key.eqb_iff q k, key.eqb_iff k j, key.eqb_iff q j, find-insert k q v m)

  pub find-insert_self : (k : K) (v : V) (m : List (K × V)) → find k (insert k v m) ≡ some v
  find-insert_self k v m = ground (arith, find-insert k k v m, eqb_refl k)

  pub find-insert_other :
      (k q : K) (v : V) (m : List (K × V)) → q ≢ k → find q (insert k v m) ≡ find q m
  find-insert_other k q v m n = ground (arith, find-insert k q v m, key.eqb_iff q k)

  -- A key that is not found differs from all keys.
  pub find-none : (k : K) (m : List (K × V)) → find k m ≡ none → All (λ e. e.0 ≢ k) m
  unfolding find
  find-none k [] h = tt
  find-none k ((j, v) ∷ m) h =
      (ground (arith, key.eqb_iff k j), find-none k m (ground (arith, key.eqb_iff k j)))

  pub find-erase :
      (k q : K) (m : List (K × V)) → find q (erase k m) ≡ (if key.eqb q k then none else find q m)
  unfolding find erase
  find-erase k q [] = ground arith
  find-erase k q ((j, w) ∷ m) =
      ground (arith, key.eqb_iff q k, key.eqb_iff k j, key.eqb_iff q j, find-erase k q m)

  pub length-insert-le : (k : K) (v : V) (m : List (K × V)) → length (insert k v m) ≤ length m + 1
  unfolding insert
  length-insert-le k v [] = omega arith
  length-insert-le k v ((j, w) ∷ m) = ground (arith, length-insert-le k v m)

  -- Every key of the list is above `k`.
  abbrev pub Above : K → List (K × V) → Type 0
  Above k = All (λ e. key.lt k e.0 ≡ true)

  -- The keys rise along the list.
  abbrev pub IsSorted : List (K × V) → Type 0
  IsSorted [] = Unit
  IsSorted (e ∷ m) = Above e.0 m × IsSorted m

  pub find-erase_other : (k q : K) (m : List (K × V)) → q ≢ k → find q (erase k m) ≡ find q m
  find-erase_other k q m n = ground (arith, find-erase k q m, key.eqb_iff q k)

  -- The keys behind the first one differ from it.
  pub Above-ne : (k : K) (m : List (K × V)) → Above k m → All (λ e. e.0 ≢ k) m
  Above-ne k [] a = tt
  Above-ne k (e ∷ m) (b, a) = (ground (arith, key.lt_irrefl k), Above-ne k m a)

  Above-trans : (j k : K) (m : List (K × V)) → key.lt j k ≡ true → Above k m → Above j m
  Above-trans j k [] h a = tt
  Above-trans j k (e ∷ m) h (b, a) = (key.lt_trans j k e.0 h b, Above-trans j k m h a)

  insert-Above :
      (j k : K) (v : V) (m : List (K × V)) → key.lt j k ≡ true → Above j m → Above j (insert k v m)
  unfolding insert
  insert-Above j k v [] h a = (h, tt)
  insert-Above j k v ((i, w) ∷ m) h (b, a) = ground (arith, insert-Above j k v m h a)

  pub insert-IsSorted : (k : K) (v : V) (m : List (K × V)) → IsSorted m → IsSorted (insert k v m)
  unfolding insert
  insert-IsSorted k v [] s = (tt, tt)
  insert-IsSorted k v ((j, w) ∷ m) (a, s) = ground (
    arith,
    key.eqb_iff k j,
    key.lt_total k j,
    Above-trans k j m,
    insert-Above j k v m,
    insert-IsSorted k v m s,
  )

  erase-Above : (j k : K) (m : List (K × V)) → Above j m → Above j (erase k m)
  unfolding erase
  erase-Above j k [] a = tt
  erase-Above j k ((i, w) ∷ m) (b, a) = ground (arith, erase-Above j k m a)

  pub erase-IsSorted : (k : K) (m : List (K × V)) → IsSorted m → IsSorted (erase k m)
  unfolding erase
  erase-IsSorted k [] s = tt
  erase-IsSorted k ((j, w) ∷ m) (a, s) = ground (arith, erase-Above j k m a, erase-IsSorted k m s)

  -- A key below all others is not found among them.
  pub find_below : (k : K) (m : List (K × V)) → Above k m → find k m ≡ none
  unfolding find
  find_below k [] a = refl
  find_below k ((j, w) ∷ m) (b, a) =
      ground (arith, key.eqb_iff k j, key.lt_irrefl k, find_below k m a)

  found_behind :
      (j : K) (w : V) (m n : List (K × V))
      → Above j n
      → All (λ e. find e.0 m ≡ some e.1) n
      → All (λ e. find e.0 ((j, w) ∷ m) ≡ some e.1) n
  unfolding find
  found_behind j w m [] a h = tt
  found_behind j w m ((i, v) ∷ n) (b, a) (e, h) =
      (ground (arith, key.eqb_iff i j, key.lt_irrefl i), found_behind j w m n a h)

  -- In a sorted map every entry is found under its key.
  pub find-entries : (m : List (K × V)) → IsSorted m → All (λ e. find e.0 m ≡ some e.1) m
  unfolding find
  find-entries [] s = tt
  find-entries ((j, w) ∷ m) (a, s) =
      (ground (arith, eqb_refl j), found_behind j w m m a (find-entries m s))

  -- What holds of all values holds of the one that is found.
  pub find-All {μ} :
      (P : V → Type μ) (k : K) (m : List (K × V))
      → All (λ e. P e.1) m
      → (v : V) → find k m ≡ some v
      → P v
  unfolding find
  find-All P k [] h v = λ e. cc
  find-All P k ((j, w) ∷ m) (p, h) v = found_or_later (key.eqb k j) (find-All P k m h v)
    where
      found_or_later :
          (b : Bool) → (find k m ≡ some v → P v) → (if b then some w else find k m) ≡ some v → P v
      found_or_later true later e = let same : w ≡ v = cc in subst P same p
      found_or_later false later e = later e

  -- What holds of a new entry and of the old ones holds behind the insertion.
  pub insert-All {μ} :
      (P : K × V → Type μ) (k : K) (v : V) (m : List (K × V))
      → P (k, v)
      → All P m
      → All P (insert k v m)
  unfolding insert
  insert-All P k v [] p h = (p, tt)
  insert-All P k v ((j, w) ∷ m) p (q, h) =
      chosen (key.eqb k j) (key.lt k j) (insert-All P k v m p h)
    where
      chosen :
          (b c : Bool)
          → All P (insert k v m)
          → All P
              (if b then (k, v) ∷ m else if c then (k, v) ∷ (j, w) ∷ m else (j, w) ∷ insert k v m)
      chosen true c r = (p, h)
      chosen false true r = (p, (q, h))
      chosen false false r = (q, r)

  pub erase-All {μ} : (P : K × V → Type μ) (k : K) (m : List (K × V)) → All P m → All P (erase k m)
  unfolding erase
  erase-All P k [] h = tt
  erase-All P k ((j, w) ∷ m) (q, h) = chosen (key.eqb k j) (erase-All P k m h)
    where
      chosen : (b : Bool) → All P (erase k m) → All P (if b then erase k m else (j, w) ∷ erase k m)
      chosen true r = r
      chosen false r = (q, r)

  pub insert-ne-nil : (k : K) (v : V) (m : List (K × V)) → insert k v m ≢ []
  unfolding insert
  insert-ne-nil k v [] e = cc
  insert-ne-nil k v ((j, w) ∷ m) e = ground arith
