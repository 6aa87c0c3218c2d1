-- ===== src/Cache/Tests.antt =====
-- Runs of a check of the cache, and its theorems at concrete caches.
use rt_mbms_mw.Prelude.{ℕ, ◌≤◌, ◌<◌, ◌^◌, [], ◌∷◌, ◌≡◌, refl, arith, All}
use rt_mbms_mw.Prelude.Key.{Bytes, bytes_key, equal, less}
use rt_mbms_mw.Prelude.Map.{find, insert, erase}
use rt_mbms_mw.Prelude.Result.{ok}
use rt_mbms_mw.Prelude.Text.{codes}
use rt_mbms_mw.Flute.Tests.{TestFile, test_flute}
use rt_mbms_mw.Cache.{
  CacheItem, Heap, CacheManagement, add_item, received_at, content_length, judge, age_of,
  expire_loop, size_loop, insert_age, check_file_expiry_and_cache_size,
}
use rt_mbms_mw.Cache.Laws.{
  IsValid, add_item-IsValid, FateOf, check-FateOf, unexpired_items, tracked_length,
  check-tracked_length-le, check_fits,
}

abbrev stored : Bytes → Bytes → ℕ → CacheItem TestFile
stored l content t = CacheItem.file l t (record { location = l; content = content; time = t })

abbrev empty_heap : Heap TestFile Bytes
empty_heap = record { segments = []; text = λ cb. [] }

-- Six bytes at most, and ten seconds.
abbrev empty : CacheManagement TestFile
empty = record { cache_items = []; max_cache_size = 6; max_cache_file_age = 10 }

abbrev three : CacheManagement TestFile
three = add_item (stored (codes "old") (codes "xx") 80) (
    add_item (stored (codes "new") (codes "yyyy") 98)
      (add_item (stored (codes "mid") (codes "zzz") 95) empty))

three-IsValid : IsValid three
three-IsValid =
    add_item-IsValid _ _ (add_item-IsValid _ _ (add_item-IsValid _ _ (record { sorted = tt })))

-- The expired item goes, and of the others the older one, since the newer one is taken first.
abbrev checked : CacheManagement TestFile
checked = record empty { cache_items = (codes "new", stored (codes "new") (codes "yyyy") 98) ∷ [] }

checked_ok : check_file_expiry_and_cache_size empty_heap 100 three ≡ ok checked
unfolding check_file_expiry_and_cache_size expire_loop size_loop judge age_of insert_age received_at
    content_length add_item insert find erase equal less
checked_ok = refl

three_past : All (λ e. received_at empty_heap 100 e.1 ≤ 100) three.cache_items
unfolding received_at add_item insert equal less
three_past = (omega arith, (omega arith, (omega arith, tt)))

check-FateOf_example :
    (c' : CacheManagement TestFile) × (check_file_expiry_and_cache_size empty_heap 100 three
      ≡ ok c')
    × IsValid c'
    × (c'.max_cache_size ≡ three.max_cache_size)
    × (c'.max_cache_file_age ≡ three.max_cache_file_age)
    × ((q : Bytes)
        → FateOf empty_heap 100 three.max_cache_file_age
            (find q three.cache_items)
            (find q c'.cache_items))
check-FateOf_example = check-FateOf empty_heap 100 three three-IsValid three_past (omega arith)

few : tracked_length empty_heap 100 three (unexpired_items empty_heap 100 three) < 2 ^ 32
unfolding expire_loop judge age_of received_at content_length add_item insert equal less
few = omega arith

check-tracked_length-le_example :
    tracked_length empty_heap 100 three checked.cache_items ≤ three.max_cache_size
check-tracked_length-le_example =
    check-tracked_length-le empty_heap 100 three checked three-IsValid few checked_ok

-- A cache with room for all.
abbrev roomy : CacheManagement TestFile
roomy = record three { max_cache_size = 7 }

roomy_few : tracked_length empty_heap 100 roomy (unexpired_items empty_heap 100 roomy) ≤ 7
unfolding expire_loop judge age_of received_at content_length add_item insert equal less
roomy_few = omega arith

check_fits_example :
    check_file_expiry_and_cache_size empty_heap 100 roomy
    ≡ ok (record roomy { cache_items = unexpired_items empty_heap 100 roomy })
check_fits_example =
    check_fits empty_heap 100 roomy (record { sorted = three-IsValid.sorted }) roomy_few
      (omega arith)
