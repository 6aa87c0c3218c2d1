-- ===== src/Seamless/Served.antt =====
-- The segments of a stream, and the items of the cache that lead to them.
use rt_mbms_mw.Prelude.{
  ℕ, suc, List, [], ◌∷◌, ◌++◌, Option, none, some, ◌≡◌, ◌≢◌, refl, ap, ◌∙◌, inl, inr, All, All-map2,
  length, get_elem?, get_elem?-length, get_elem?-append, get_elem?-lt, Option-cases, Bool-cases,
  ltb, subst,
}
use rt_mbms_mw.Prelude.Int.{ℤ}
use rt_mbms_mw.Prelude.Key.{Bytes, bytes_key, int_key}
use rt_mbms_mw.Prelude.Map.{
  find, insert, find-insert_self, find-insert_other, find-erase_other, find-none, Above-ne,
  IsSorted, insert-IsSorted, insert-All,
}
use rt_mbms_mw.Cache.{CacheItem, CacheManagement, add_item, remove_item, content_location}
use rt_mbms_mw.Flute.{Flute}
use rt_mbms_mw.Hls.Media.{MediaSegment}
use rt_mbms_mw.Segment.{Segment, set_flute_file}
use rt_mbms_mw.Seamless.{
  StreamState, SeamlessContentStream, admit, admit_loop, add_segment, new_segment, with_client,
  with_file, evict, evict_oldest, uri_of,
}
use rt_mbms_mw.Cdn.{CdnClient}

-- The entry of a playlist has the name of its number.
abbrev pub IsNamed : {D : Type 0} → (ℤ → Bytes) → Bytes → MediaSegment D → Type 0
IsNamed name dir m = dir ++ m.uri ≡ name m.seq

-- The item of the cache that leads to the segment at a place.
abbrev pub segment_item : {F : Type 0} → Bytes → ℕ → CacheItem F
segment_item uri place = CacheItem.segment uri 0 place

module _ {F D : Type 0} where
  -- The segment with the number stands at its place under the name of the number, and the cache
  -- leads to it.
  pub record EntryServed (name : ℤ → Bytes) (heap : List (Segment F D)) (cache : CacheManagement F)
      (e : ℤ × ℕ) : Type 0 where
    pub segment : Segment F D
    pub at_place : get_elem? heap e.1 ≡ some segment
    pub location : segment.content_location ≡ name e.0
    pub cached : find (name e.0) cache.cache_items ≡ some (segment_item (name e.0) e.1)

  pub record IsServed (name : ℤ → Bytes) (w : StreamState F D) : Type 0 where
    pub sorted : IsSorted w.stream.segments
    pub entries : All (EntryServed name w.heap w.cache) w.stream.segments

  module _ ⦃flute : Flute F⦄ where
    with_client-location :
        (c : Option CdnClient) (s : Segment F D)
        → (with_client c s).content_location ≡ s.content_location
    unfolding with_client
    with_client-location none s = refl
    with_client-location (some c) s = refl

    with_file-location :
        (f : Option F) (s : Segment F D) → (with_file f s).content_location ≡ s.content_location
    unfolding with_file set_flute_file
    with_file-location none s = refl
    with_file-location (some f) s = refl

    new_segment-location :
        (s : SeamlessContentStream F D) (m : MediaSegment D)
        → (new_segment s m).content_location ≡ s.playlist_dir ++ m.uri
    unfolding new_segment
    new_segment-location s m =
        with_file-location (find (s.playlist_dir ++ m.uri) s.flute_files) _
        ∙ with_client-location s.cdn_client _

    -- An item under another name is added, and segments behind the others.
    EntryServed-add :
        (name : ℤ → Bytes) (heap more : List (Segment F D)) (cache : CacheManagement F)
        (i : CacheItem F) (e : ℤ × ℕ)
        → name e.0 ≢ content_location i
        → EntryServed name heap cache e
        → EntryServed name (heap ++ more) (add_item i cache) e
    unfolding add_item
    EntryServed-add name heap more cache i e n h = record {
      segment = h.segment;
      at_place = get_elem?-append heap more e.1 (get_elem?-lt heap e.1 h.at_place) ∙ h.at_place;
      location = h.location;
      cached = find-insert_other (content_location i) (name e.0) i cache.cache_items n ∙ h.cached;
    }

    pub admit-dir :
        (m : MediaSegment D) (w : StreamState F D)
        → (admit m w).stream.playlist_dir ≡ w.stream.playlist_dir
    unfolding admit add_segment
    admit-dir m w = elim (Option-cases (find m.seq w.stream.segments)) [
      | inl absent ↦ rw (absent, admit) refl
      | inr (place, present) ↦ rw (present, admit) refl
    ]

    module _ (name : ℤ → Bytes) (distinct : (i j : ℤ) → name i ≡ name j → i ≡ j) where
      add_segment-IsServed :
          (m : MediaSegment D) (w : StreamState F D)
          → IsNamed name w.stream.playlist_dir m
          → find m.seq w.stream.segments ≡ none
          → IsServed name w
          → IsServed name (add_segment m w)
      unfolding add_segment add_item
      add_segment-IsServed m w n absent h =
          let uri = w.stream.playlist_dir ++ m.uri in
          let place = length w.heap in
          let item : CacheItem F = segment_item uri place in
          record {
            sorted = insert-IsSorted m.seq place w.stream.segments h.sorted;
            entries =
                insert-All _ m.seq place w.stream.segments
                  (record {
                    segment = new_segment w.stream m;
                    at_place = get_elem?-length w.heap (new_segment w.stream m);
                    location = new_segment-location w.stream m ∙ n;
                    cached =
                        subst
                          (λ l.
                            find l (insert uri item w.cache.cache_items)
                            ≡ some (segment_item l place))
                          n (find-insert_self uri item w.cache.cache_items);
                  })
                  (All-map2 w.stream.segments
                    (λ e differs p.
                      EntryServed-add name w.heap (new_segment w.stream m ∷ []) w.cache item e
                        (λ q. differs (distinct e.0 m.seq (q ∙ n))) p)
                    (find-none m.seq w.stream.segments absent) h.entries);
          }

      admit-IsServed :
          (m : MediaSegment D) (w : StreamState F D)
          → IsNamed name w.stream.playlist_dir m
          → IsServed name w
          → IsServed name (admit m w)
      unfolding admit
      admit-IsServed m w n h = elim (Option-cases (find m.seq w.stream.segments)) [
        | inl absent ↦ rw (absent, admit) (add_segment-IsServed m w n absent h)
        | inr (place, present) ↦ rw (present, admit) h
      ]

      pub admit_loop-IsServed :
          (dir : Bytes) (count idx : ℕ) (ms : List (MediaSegment D)) (w : StreamState F D)
          → w.stream.playlist_dir ≡ dir
          → All (IsNamed name dir) ms
          → IsServed name w
          → IsServed name (admit_loop count idx ms w)
      unfolding admit_loop
      admit_loop-IsServed dir count idx [] w d n h = h
      admit_loop-IsServed dir count idx (m ∷ ms) w d (n, ns) h =
          let first : IsServed name (admit m w) =
            admit-IsServed m w (ap (λ l. l ++ m.uri) d ∙ n) h in
          elim (Bool-cases (ltb count idx)) [
            | inl last ↦ rw last first
            | inr more ↦ rw more (
                admit_loop-IsServed dir count (suc idx) ms (admit m w) (admit-dir m w ∙ d) ns first)
          ]

      -- The item of the entry that leaves is removed, and no other.
      EntryServed-remove :
          (heap : List (Segment F D)) (cache : CacheManagement F) (out e : ℤ × ℕ)
          → e.0 ≢ out.0
          → EntryServed name heap cache out
          → EntryServed name heap cache e
          → EntryServed name heap (remove_item (uri_of heap out.1) cache) e
      unfolding remove_item uri_of
      EntryServed-remove heap cache out e n o h = record {
        segment = h.segment;
        at_place = h.at_place;
        location = h.location;
        cached =
            rw (o.at_place, uri_of, o.location)
              (find-erase_other (name out.0) (name e.0) cache.cache_items
                  (λ q. n (distinct e.0 out.0 q))
                ∙ h.cached);
      }

      evict-served :
          (keep : ℕ) (heap : List (Segment F D)) (es : List (ℤ × ℕ)) (c : CacheManagement F)
          → IsSorted es
          → All (EntryServed name heap c) es
          → let left = evict keep heap es c in
            IsSorted left.0 × All (EntryServed name heap left.1) left.0
      unfolding evict
      evict-served keep heap [] c s h = (tt, tt)
      evict-served keep heap (e ∷ es) c (a, s) (p, h) =
          elim (Bool-cases (ltb keep (length (e ∷ es)))) [
            | inl above ↦ rw above (
                evict-served keep heap es _ s (
                  All-map2 es (λ f n q. EntryServed-remove heap c e f n p q) (Above-ne e.0 es a) h))
            | inr below ↦ rw below ((a, s), (p, h))
          ]

      pub evict_oldest-IsServed :
          (w : StreamState F D) → IsServed name w → IsServed name (evict_oldest w)
      unfolding evict_oldest
      evict_oldest-IsServed w h =
          let left = evict-served _ w.heap w.stream.segments w.cache h.sorted h.entries in
          record { sorted = left.0; entries = left.1 }
