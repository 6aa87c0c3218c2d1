-- ===== src/Seamless/Playlist.antt =====
-- What a stream writes of the playlists that it takes in, and what the cache has for it.
use rt_mbms_mw.Prelude.{ℕ, List, [], ◌∷◌, some, ◌≡◌, refl, ap, sym, All, subst}
use rt_mbms_mw.Prelude.Float.{Float}
use rt_mbms_mw.Prelude.Int.{ℤ, negsuc}
use rt_mbms_mw.Prelude.Key.{Bytes, bytes_key, int_key}
use rt_mbms_mw.Prelude.Map.{find}
use rt_mbms_mw.Prelude.Result.{ok, Result_map}
use rt_mbms_mw.Cache.{CacheManagement}
use rt_mbms_mw.Flute.{Flute}
use rt_mbms_mw.Hls.Media.{MediaSegment, HlsMediaPlaylist, media_parse, media_to_string}
use rt_mbms_mw.Segment.{Segment, ItemSource}
use rt_mbms_mw.Seamless.{
  StreamState, admit_loop, evict_oldest, regenerate, listed, take_playlist, handle_playlist,
}
use rt_mbms_mw.Seamless.Served.{
  EntryServed, IsServed, IsNamed, segment_item, admit_loop-IsServed, evict_oldest-IsServed,
}

module _ {F D : Type 0} ⦃flute : Flute F⦄ where
  -- The entries that are written into a playlist have items in the cache.
  listed-cached :
      (name : ℤ → Bytes) (heap : List (Segment F D)) (c : CacheManagement F) (es : List (ℤ × ℕ))
      → All (EntryServed name heap c) es
      → All
          (λ (m : MediaSegment D).
            (place : ℕ) × (find m.uri c.cache_items ≡ some (segment_item m.uri place)))
          (listed heap es)
  unfolding listed
  listed-cached name heap c [] h = tt
  listed-cached name heap c ((n, r) ∷ es) (p, h) =
      rw (p.at_place, listed)
        (
          (
            r,
            subst (λ l. find l c.cache_items ≡ some (segment_item l r)) (sym p.location) p.cached,
          ),
          listed-cached name heap c es h,
        )

  module _ ⦃float : Float D⦄ where
    -- Take a playlist that is parsed, from either source, in which the URI of each entry, behind the
    -- directory of the stream, is the name of its number, and different numbers have different
    -- names. If each segment of the stream stands at its place under its name, and the cache leads
    -- to it, then this is so behind the playlist too. The playlist that the stream writes lists its
    -- segments, and for each of its entries the cache has the item of a segment under the URI of
    -- the entry: a segment that leaves takes its own item along, and no other.
    pub handle_playlist-IsServed :
        (name : ℤ → Bytes) (garbage : ℤ) (content : Bytes) (source : ItemSource)
        (w : StreamState F D) (pl : HlsMediaPlaylist D)
        → ((i j : ℤ) → name i ≡ name j → i ≡ j)
        → media_parse garbage content ≡ ok pl
        → All (IsNamed name w.stream.playlist_dir) pl.segments
        → IsServed name w
        → (v : StreamState F D) × (handle_playlist garbage content source w ≡ ok v)
          × IsServed name v
          × (v.stream.playlist
              ≡ media_to_string (record {
                version = negsuc 0;
                targetduration = pl.targetduration;
                segments = listed v.heap v.stream.segments;
              }))
          × All
              (λ (m : MediaSegment D).
                (place : ℕ) × (find m.uri v.cache.cache_items ≡ some (segment_item m.uri place)))
              (listed v.heap v.stream.segments)
    unfolding handle_playlist take_playlist regenerate
    handle_playlist-IsServed name garbage content source w pl distinct e n h =
        let admitted = admit_loop _ 0 pl.segments w in
        let served : IsServed name (evict_oldest admitted) =
          evict_oldest-IsServed name distinct admitted
            (admit_loop-IsServed name distinct w.stream.playlist_dir _ 0 pl.segments w refl n h) in
        (
          take_playlist pl source w,
          ap (Result_map (λ pl. take_playlist pl source w)) e,
          record { sorted = served.sorted; entries = served.entries },
          refl,
          listed-cached name _ _ _ served.entries,
        )
