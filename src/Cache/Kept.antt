-- ===== src/Cache/Kept.antt =====
-- What holds of every item of a cache holds behind the check.
use rt_mbms_mw.Prelude.{
  ℕ, Bool, true, false, List, [], ◌∷◌, inl, inr, All, Option-cases, if◌then◌else◌, ltb, ◌+◌, ◌%◌,
  ◌^◌,
}
use rt_mbms_mw.Prelude.Key.{Bytes, bytes_key}
use rt_mbms_mw.Prelude.Map.{find, erase, erase-All}
use rt_mbms_mw.Prelude.Result.{WhenOk, WhenOk-map}
use rt_mbms_mw.Flute.{Flute}
use rt_mbms_mw.Cache.{
  CacheItem, CacheManagement, Heap, Verdict, untracked, expired, aged, verdict, content_length,
  keep_entry, expire_loop, size_loop, check_file_expiry_and_cache_size,
}

module _ {F : Type 0} (P : Bytes × CacheItem F → Type 0) where
  keep_entry-All :
      (v : Verdict) (e : Bytes × CacheItem F) (m : List (Bytes × CacheItem F))
      → P e
      → All P m
      → All P (keep_entry v e m)
  keep_entry-All expired e m p h = h
  keep_entry-All untracked e m p h = (p, h)
  keep_entry-All (aged a) e m p h = (p, h)

  expire_loop-All :
      (judged : CacheItem F → Verdict) (m : List (Bytes × CacheItem F)) (ages : List (ℕ × Bytes))
      → All P m
      → All P (expire_loop judged m ages).0
  unfolding expire_loop
  expire_loop-All judged [] ages h = tt
  expire_loop-All judged ((k, i) ∷ m) ages (p, h) =
      keep_entry-All (judged i) (k, i) _ p (expire_loop-All judged m _ h)

  chosen-All :
      (b : Bool) (k : Bytes) (items : List (Bytes × CacheItem F))
      → All P items
      → All P (if b then erase k items else items)
  chosen-All true k items h = erase-All P k items h
  chosen-All false k items h = h

  size_loop-All :
      (size_of : CacheItem F → ℕ) (max_size total : ℕ) (ages : List (ℕ × Bytes))
      (items : List (Bytes × CacheItem F))
      → All P items
      → WhenOk (All P) (size_loop size_of max_size total ages items)
  unfolding size_loop
  size_loop-All size_of max_size total [] items h = h
  size_loop-All size_of max_size total ((a, k) ∷ ages) items h =
      elim (Option-cases (find k items)) [
        | inl absent ↦ rw (absent, size_loop) tt
        | inr (i, present) ↦
            rw (present, size_loop)
              (size_loop-All size_of max_size ((total + size_of i) % 2 ^ 32) ages _
                (chosen-All (ltb max_size _) k items h))
      ]

  pub check-All :
      {D : Type 0} ⦃flute : Flute F⦄ (h : Heap F D) (now : ℕ) (c : CacheManagement F)
      → All P c.cache_items
      → WhenOk
          (λ (d : CacheManagement F). All P d.cache_items)
          (check_file_expiry_and_cache_size h now c)
  unfolding check_file_expiry_and_cache_size
  check-All h now c k =
      WhenOk-map (λ (d : CacheManagement F). All P d.cache_items)
        (λ (m : List (Bytes × CacheItem F)). record c { cache_items = m })
        (size_loop (content_length h) c.max_cache_size 0 _ _)
        (size_loop-All (content_length h) c.max_cache_size 0 _ _
          (expire_loop-All (verdict h now c.max_cache_file_age) c.cache_items [] k))
