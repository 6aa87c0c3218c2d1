-- ===== src/Rest/Sound.antt =====
-- A request keeps the shared state sound.
use rt_mbms_mw.Prelude.Text.{codes}
use rt_mbms_mw.Backend.Lifetime.{item_held, all_held}
use rt_mbms_mw.Prelude.{
  ℕ, Bool, true, false, List, [], ◌∷◌, Option, none, some, inl, inr, arith, length-set, get_elem?,
  set, Option-cases, if◌then◌else◌, ◌&&◌, not,
}
use rt_mbms_mw.Prelude.Key.{Bytes, bytes_key, equal}
use rt_mbms_mw.Prelude.Map.{find}
use rt_mbms_mw.Prelude.Result.{Result, ok, WhenOk, terminate}
use rt_mbms_mw.Backend.{Backend}
use rt_mbms_mw.Backend.Segments.{with_segments-IsSound}
use rt_mbms_mw.Backend.Sound.{IsSound}
use rt_mbms_mw.Cache.{CacheItem}
use rt_mbms_mw.Cdn.{Http}
use rt_mbms_mw.Flute.{Flute}
use rt_mbms_mw.Segment.{segment_buffer}
use rt_mbms_mw.Rest.{
  RestHandler, Request, Reply, is_authorized, item_buffer, body_reply, tested_reply, serve_item,
  serve_file, get_api, get_paths, rest_get, unauthorized,
}

module _ {F D : Type 0} where
  module _ ⦃flute : Flute F⦄ (http : Http) (now : ℕ) where
    item_buffer-IsSound :
        (i : CacheItem F) (b : Backend F D) → IsSound b → IsSound (item_buffer http now i b).1
    unfolding item_buffer
    item_buffer-IsSound (CacheItem.file l t f) b h = h
    item_buffer-IsSound (CacheItem.playlist l t cb) b h = h
    item_buffer-IsSound (CacheItem.manifest l t cb) b h = h
    item_buffer-IsSound (CacheItem.segment l t r) b h =
        elim (Option-cases (get_elem? b.segments r)) [
          | inl absent ↦ rw (absent, item_buffer) h
          | inr (s, present) ↦
              rw (present, item_buffer)
                (with_segments-IsSound b (set b.segments r (segment_buffer http now s).1)
                  (omega (arith, length-set b.segments r (segment_buffer http now s).1)) h)
        ]

    body-IsSound :
        (i : CacheItem F) (tested : Backend F D) (p : Option Bytes × Backend F D)
        → IsSound p.1
        → IsSound (body_reply i tested p).1
    unfolding body_reply
    body-IsSound i tested (none, read) h = h
    body-IsSound i tested (some bytes, read) h = h

    tested-IsSound :
        (i : CacheItem F) (p : Option Bytes × Backend F D)
        → IsSound p.1
        → IsSound (tested_reply http now i p).1
    unfolding tested_reply
    tested-IsSound i (none, b) h = h
    tested-IsSound i (some bytes, b) h = body-IsSound i b _ (item_buffer-IsSound i b h)

    guarded :
        (x : Reply D × Backend F D) (c : Bool)
        → IsSound x.1
        → WhenOk (λ (r : Reply D × Backend F D). IsSound r.1) (if c then ok x else terminate)
    guarded x true h = h
    guarded x false h = tt

    unheld_guarded :
        (x : Reply D × Backend F D) (c : Bool)
        → IsSound x.1
        → WhenOk (λ (r : Reply D × Backend F D). IsSound r.1) (if c then terminate else ok x)
    unheld_guarded x true h = tt
    unheld_guarded x false h = h

    serve_file-IsSound :
        (path : Bytes) (b : Backend F D)
        → IsSound b
        → WhenOk (λ (r : Reply D × Backend F D). IsSound r.1) (serve_file http now path b)
    unfolding serve_file serve_item
    serve_file-IsSound path b h = elim (Option-cases (find path b.cache.cache_items)) [
      | inl absent ↦ rw (absent, serve_file) h
      | inr (i, present) ↦
          rw (present, serve_file)
            (guarded _ (item_held b i) (tested-IsSound i _ (item_buffer-IsSound i b h)))
    ]

    get_api-IsSound :
        (paths : List Bytes) (b : Backend F D)
        → IsSound b
        → WhenOk (λ (r : Reply D × Backend F D). IsSound r.1) (get_api now paths b)
    unfolding get_api
    get_api-IsSound [] b h = tt
    get_api-IsSound (what ∷ paths) b h =
        unheld_guarded _ (equal what (codes "files") && not (all_held b)) h

    get_paths-IsSound :
        (r : RestHandler) (m : Request) (paths : List Bytes) (b : Backend F D)
        → IsSound b
        → WhenOk (λ (r : Reply D × Backend F D). IsSound r.1) (get_paths r http now m paths b)
    unfolding get_paths
    get_paths-IsSound r m [] b h = h
    get_paths-IsSound r m (p ∷ paths) b h =
        chosen (get_api now paths b) (serve_file http now _ b) (equal p r.api_path)
          (get_api-IsSound paths b h) (serve_file-IsSound _ b h)
      where
        chosen :
            (x y : Result (Reply D × Backend F D)) (c : Bool)
            → WhenOk (λ (r : Reply D × Backend F D). IsSound r.1) x
            → WhenOk (λ (r : Reply D × Backend F D). IsSound r.1) y
            → WhenOk (λ (r : Reply D × Backend F D). IsSound r.1) (if c then x else y)
        chosen x y true h k = h
        chosen x y false h k = k

    pub rest_get-IsSound :
        (r : RestHandler) (m : Request) (b : Backend F D)
        → IsSound b
        → WhenOk (λ (r : Reply D × Backend F D). IsSound r.1) (rest_get r http now m b)
    unfolding rest_get
    rest_get-IsSound r m b h = answered (is_authorized r m) (get_paths-IsSound r m m.paths b h)
      where
        answered :
            (c : Bool)
            → WhenOk (λ (r : Reply D × Backend F D). IsSound r.1) (get_paths r http now m m.paths b)
            → WhenOk
                (λ (r : Reply D × Backend F D). IsSound r.1)
                (if c then get_paths r http now m m.paths b else ok (unauthorized, b))
        answered true k = k
        answered false k = h
