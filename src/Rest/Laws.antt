-- ===== src/Rest/Laws.antt =====
-- What the REST interface answers.
use rt_mbms_mw.Backend.Lifetime.{item_held, is_held}
use rt_mbms_mw.Backend.{Backend}
use rt_mbms_mw.Rest.Rows.{callback_text}
use rt_mbms_mw.Prelude.{
  ℕ, ◌%◌, ◌^◌, true, false, List, ◌∷◌, ◌++◌, Option, none, some, ◌≡◌, ◌≢◌, refl, ap, ◌∙◌, arith,
  get_elem?, set, get_elem?-set, take, length, set-get_elem?,
}
use rt_mbms_mw.Prelude.Key.{Bytes, bytes_key, equal, equal_iff}
use rt_mbms_mw.Prelude.Map.{find}
use rt_mbms_mw.Prelude.Result.{ok}
use rt_mbms_mw.Prelude.Text.{codes}
use rt_mbms_mw.Cache.{CacheItem, stream_playlist, content_length, item_source, source_string}
use rt_mbms_mw.Cdn.{Http, CdnClient, response}
use rt_mbms_mw.Flute.{Flute}
use rt_mbms_mw.Seamless.{SeamlessContentStream, erase_first}
use rt_mbms_mw.Segment.{Segment, unavailable, segment_buffer, data_source, segment_content_length}
use rt_mbms_mw.Segment.Laws.{segment_buffer_retry}
use rt_mbms_mw.Service.{seamless}
use rt_mbms_mw.Rest.{
  RestHandler, Request, unauthorized, not_found, file_reply, is_authorized, item_buffer, serve_item,
  serve_file, rest_get, rest_put, tested_reply, body_reply,
}

-- A request for a file of the cache.
pub record IsFileRequest (r : RestHandler) (m : Request) : Type 0 where
  pub authorized : is_authorized r m ≡ true
  pub first : Bytes
  pub rest : List Bytes
  pub path : m.paths ≡ first ∷ rest
  pub no_api : equal first r.api_path ≡ false

module _ {F D : Type 0} ⦃flute : Flute F⦄ where
  -- If a token is required, a request with another text in its header is refused by `get` and by
  -- `put`, whatever its path, and changes nothing.
  pub rest_get_refused :
      (r : RestHandler) (http : Http) (now : ℕ) (m : Request) (b : Backend F D)
      → r.require_bearer_token ≡ true
      → m.authorization ≢ codes "Bearer " ++ r.api_key
      → (rest_get r http now m b ≡ ok (unauthorized, b)) × (rest_put {D = D} r m ≡ unauthorized)
  unfolding rest_get rest_put is_authorized
  rest_get_refused r http now m b q n =
      let differs : equal m.authorization (codes "Bearer " ++ r.api_key) ≡ false =
        ground (arith, equal_iff m.authorization (codes "Bearer " ++ r.api_key)) in
      (rw (q, differs) refl, rw (q, differs) refl)

  pub rest_get-file :
      (r : RestHandler) (http : Http) (now : ℕ) (m : Request) (b : Backend F D)
      → IsFileRequest r m
      → rest_get r http now m b ≡ serve_file http now (erase_first m.relative_uri) b
  unfolding rest_get
  rest_get-file r http now m b f = rw (f.authorized, f.path, f.no_api) refl

  pub serve_file-item :
      (http : Http) (now : ℕ) (path : Bytes) (i : CacheItem F) (b : Backend F D)
      → find path b.cache.cache_items ≡ some i
      → item_held b i ≡ true
      → serve_file http now path b ≡ ok (serve_item http now i b)
  unfolding serve_file
  serve_file-item http now path i b e h = rw (e, serve_file, h) refl

  callback_text_playlist :
      (b : Backend F D) (place : ℕ) (s : SeamlessContentStream F D)
      → get_elem? b.streams place ≡ some (seamless s)
      → callback_text b (stream_playlist place) ≡ s.playlist
  unfolding callback_text
  callback_text_playlist b place s g = rw (g, callback_text) refl

  -- A request that is authorized and not for the API, and whose path is in the cache as the
  -- playlist of a seamless stream that a registered service has, is answered with the playlist that the stream has at that time
  -- (the first bytes, as many as its length modulo 2^32), as a generated file, and changes
  -- nothing.
  pub rest_get-playlist :
      (r : RestHandler) (http : Http) (now : ℕ) (m : Request) (b : Backend F D) (place t : ℕ)
      (l : Bytes) (s : SeamlessContentStream F D)
      → IsFileRequest r m
      → find (erase_first m.relative_uri) b.cache.cache_items
        ≡ some (CacheItem.playlist l t (stream_playlist place))
      → get_elem? b.streams place ≡ some (seamless s)
      → is_held b (stream_playlist place) ≡ true
      → rest_get r http now m b
        ≡ ok (file_reply (codes "GEN") (take (length s.playlist % 2 ^ 32) s.playlist), b)
  unfolding serve_item tested_reply body_reply item_buffer content_length item_source source_string
      item_held
  rest_get-playlist r http now m b place t l s f e g h =
      let text : callback_text b (stream_playlist place) ≡ s.playlist =
        callback_text_playlist b place s g in
      rest_get-file r http now m b f ∙ serve_file-item http now _ _ b e h ∙ ap ok (rw text refl)

  item_buffer-segment :
      (http : Http) (now : ℕ) (l : Bytes) (t place : ℕ) (s : Segment F D) (b : Backend F D)
      → get_elem? b.segments place ≡ some s
      → item_buffer http now (CacheItem.segment l t place) b ≡ (
        (segment_buffer http now s).0,
        record b { segments = set b.segments place (segment_buffer http now s).1 },
      )
  unfolding item_buffer
  item_buffer-segment http now l t place s b g = rw (g, item_buffer) refl

  serve_item_missing :
      (http : Http) (now : ℕ) (i : CacheItem F) (b b' : Backend F D)
      → item_buffer http now i b ≡ (none, b')
      → serve_item http now i b ≡ (not_found, b')
  unfolding serve_item tested_reply
  serve_item_missing http now i b b' e = ap (tested_reply http now i) e

  -- A segment with data is read without a change.
  serve_item_held :
      (http : Http) (now : ℕ) (l : Bytes) (t place : ℕ) (s : Segment F D) (b : Backend F D)
      (bytes : Bytes)
      → get_elem? b.segments place ≡ some s
      → segment_buffer http now s ≡ (some bytes, s)
      → serve_item http now (CacheItem.segment l t place) b
        ≡ (file_reply (source_string (data_source s)) (take (segment_content_length s) bytes), b)
  unfolding serve_item tested_reply body_reply content_length item_source
  serve_item_held http now l t place s b bytes g e =
      let item = CacheItem.segment l t place in
      let stays : item_buffer http now item b ≡ (some bytes, b) =
        item_buffer-segment http now l t place s b g
        ∙ ap
            (λ (r : Option Bytes × Segment F D).
              (r.0, record b { segments = set b.segments place r.1 }))
            e
        ∙ ap (λ ss. (some bytes, record b { segments = ss }))
            (set-get_elem? b.segments place s g) in
      ap (tested_reply http now item) stays ∙ ap (body_reply item b) stays ∙ rw g refl

  -- Take a request that is authorized and not for the API, and whose path is in the cache as a
  -- segment with no data yet, with a CDN client. It is answered with `not found`, and the CDN is
  -- asked; if that answers 200, the same request is then answered with the first bytes of the
  -- body, as many as its length modulo 2^32, as a file from the CDN.
  pub rest_get_retry :
      (r : RestHandler) (http : Http) (now later : ℕ) (m : Request) (b : Backend F D) (place t : ℕ)
      (l body : Bytes) (s : Segment F D) (client : CdnClient)
      → IsFileRequest r m
      → find (erase_first m.relative_uri) b.cache.cache_items ≡ some (CacheItem.segment l t place)
      → get_elem? b.segments place ≡ some s
      → data_source s ≡ unavailable
      → s.cdn_client ≡ some client
      → http client.base_url s.content_location ≡ response 200 body
      → (b' : Backend F D) × (rest_get r http now m b ≡ ok (not_found, b'))
        × (rest_get r http later m b'
            ≡ ok (file_reply (codes "CDN") (take (length body % 2 ^ 32) body), b'))
  unfolding source_string item_held
  rest_get_retry r http now later m b place t l body s client f e g u c a =
      let item = CacheItem.segment l t place in
      let (nothing, something, from_cdn, at, size) =
        segment_buffer_retry http now later s client body u c a in
      let fetched = (segment_buffer http now s).1 in
      let b' = record b { segments = set b.segments place fetched } in
      (
        b',
        rest_get-file r http now m b f
            ∙ serve_file-item http now _ item b e refl
            ∙ ap ok (
                serve_item_missing http now item b b'
                  (item_buffer-segment http now l t place s b g ∙ rw nothing refl)),
        rest_get-file r http later m b' f
            ∙ serve_file-item http later _ item b' e refl
            ∙ ap ok (
                serve_item_held http later l t place fetched b' body
                  (get_elem?-set b.segments place fetched g) something
                ∙ rw (from_cdn, size) refl),
      )
