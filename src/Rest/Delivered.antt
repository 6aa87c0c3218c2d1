-- ===== src/Rest/Delivered.antt =====
-- From a file that a stream receives to the answer of the REST interface: src/ContentStream.cpp,
-- src/CacheManagement.h and src/RestHandler.cpp together.
use rt_mbms_mw.Backend.Lifetime.{item_held}
use rt_mbms_mw.Prelude.{ℕ, ◌%◌, ◌^◌, some, ◌≡◌, ◌≢◌, refl, ap, ◌∙◌, take, get_elem?}
use rt_mbms_mw.Prelude.Float.{Float}
use rt_mbms_mw.Prelude.Int.{ℤ}
use rt_mbms_mw.Prelude.Key.{Bytes, bytes_key}
use rt_mbms_mw.Prelude.Map.{find, find-insert_self, find-insert_other}
use rt_mbms_mw.Prelude.Result.{ok}
use rt_mbms_mw.Prelude.Text.{codes}
use rt_mbms_mw.Backend.{Backend, stream_received}
use rt_mbms_mw.Cache.{CacheItem, add_item, content_length, item_source, source_string}
use rt_mbms_mw.Cdn.{Http}
use rt_mbms_mw.Flute.{Flute}
use rt_mbms_mw.Rest.{
  RestHandler, Request, file_reply, rest_get, serve_item, tested_reply, body_reply, item_buffer,
}
use rt_mbms_mw.Rest.Laws.{IsFileRequest, rest_get-file, serve_file-item}
use rt_mbms_mw.Seamless.{erase_first}
use rt_mbms_mw.Service.{basic}
use rt_mbms_mw.Stream.{ContentStream, cached_location, flute_file_received}

module _ {F D : Type 0} ⦃flute : Flute F⦄ ⦃float : Float D⦄ where
  -- The state behind the receipt of a file.
  abbrev kept : Bytes → F → Backend F D → Backend F D
  kept l file b = record b {
    cache = add_item (CacheItem.file l (flute.received_at file) file) b.cache;
  }

  stream_received-kept :
      (garbage : ℤ) (place : ℕ) (file : F) (b : Backend F D) (s : ContentStream D) (l : Bytes)
      → get_elem? b.streams place ≡ some (basic s)
      → cached_location s (flute.content_location file) ≡ some l
      → stream_received garbage place file b ≡ ok (kept l file b)
  unfolding stream_received flute_file_received
  stream_received-kept garbage place file b s l g c =
      rw (g, stream_received, flute_file_received, c) refl

  serve_item-file :
      (http : Http) (now : ℕ) (l : Bytes) (t : ℕ) (file : F) (b : Backend F D)
      → serve_item http now (CacheItem.file l t file) b
        ≡ (file_reply (codes "5G-BC") (take (flute.length file % 2 ^ 32) (flute.buffer file)), b)
  unfolding serve_item tested_reply body_reply item_buffer content_length item_source source_string
  serve_item-file http now l t file b = refl

  -- Take a file that a basic stream receives and puts into the cache, at the location that a request
  -- asks for, which is authorized and not for the API. The file is stored, and the request is then
  -- answered with the first bytes of the file, as many as its length modulo 2^32, as a file from
  -- the broadcast, at any time and whatever the location held before. The other locations
  -- lead to what they led to.
  pub stream_received-served :
      (r : RestHandler) (http : Http) (garbage : ℤ) (place now : ℕ) (m : Request) (file : F)
      (b : Backend F D) (s : ContentStream D)
      → get_elem? b.streams place ≡ some (basic s)
      → cached_location s (flute.content_location file) ≡ some (erase_first m.relative_uri)
      → IsFileRequest r m
      → (b' : Backend F D) × (stream_received garbage place file b ≡ ok b')
        × (rest_get r http now m b'
            ≡ ok (
              file_reply (codes "5G-BC") (take (flute.length file % 2 ^ 32) (flute.buffer file)),
              b',
            ))
        × ((q : Bytes)
            → q ≢ erase_first m.relative_uri
            → find q b'.cache.cache_items ≡ find q b.cache.cache_items)
  unfolding add_item item_held
  stream_received-served r http garbage place now m file b s g c f =
      let l = erase_first m.relative_uri in
      let i = CacheItem.file l (flute.received_at file) file in
      let b' = kept l file b in
      (
        b',
        stream_received-kept garbage place file b s l g c,
        rest_get-file r http now m b' f
            ∙ serve_file-item http now l i b' (find-insert_self l i b.cache.cache_items) refl
            ∙ ap ok (serve_item-file http now l (flute.received_at file) file b'),
        λ q n. find-insert_other l q i b.cache.cache_items n,
      )
