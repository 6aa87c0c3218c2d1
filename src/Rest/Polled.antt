-- ===== src/Rest/Polled.antt =====
-- A playlist that the CDN answers a tick with, and the request for it:
-- src/seamless/SeamlessContentStream.cpp, src/seamless/CdnClient.cpp and src/RestHandler.cpp.
use rt_mbms_mw.Backend.Lifetime.{is_held}
use rt_mbms_mw.Prelude.{
  ℕ, ◌%◌, ◌^◌, true, some, ◌≡◌, ◌≢◌, refl, ap, sym, ◌∙◌, All, take, length, get_elem?,
  get_elem?-set, not, subst, if◌then◌else◌, Option, none,
}
use rt_mbms_mw.Prelude.Float.{Float}
use rt_mbms_mw.Prelude.Int.{ℤ, negsuc}
use rt_mbms_mw.Prelude.Key.{Bytes, bytes_key, int_key}
use rt_mbms_mw.Prelude.Map.{find}
use rt_mbms_mw.Prelude.Result.{ok, Result_map, ok_inj, Result}
use rt_mbms_mw.Prelude.Text.{codes}
use rt_mbms_mw.Backend.{Backend, stream_state, store_state, stream_ticked}
use rt_mbms_mw.Backend.Streams.{stream_ticked-stored}
use rt_mbms_mw.Cache.{CacheItem, stream_playlist}
use rt_mbms_mw.Cdn.{Http, CdnClient, response, cdn_get}
use rt_mbms_mw.Flute.{Flute}
use rt_mbms_mw.Hls.Media.{MediaSegment, HlsMediaPlaylist, media_parse, media_to_string}
use rt_mbms_mw.Rest.{RestHandler, Request, file_reply, rest_get}
use rt_mbms_mw.Rest.Laws.{IsFileRequest, rest_get-playlist}
use rt_mbms_mw.Seamless.{
  SeamlessContentStream, StreamState, erase_first, fetched, seamless_tick, handle_playlist,
  take_playlist, listed,
}
use rt_mbms_mw.Seamless.Others.{take_playlist-other}
use rt_mbms_mw.Seamless.Playlist.{handle_playlist-IsServed}
use rt_mbms_mw.Seamless.Served.{IsServed, IsNamed, segment_item}
use rt_mbms_mw.Segment.{cdn}
use rt_mbms_mw.Service.{seamless}

-- The answer of the CDN for the playlist at a path: one that is parsed, in which the URI of each
-- entry, behind the directory, is the name of its number, and the path is no such name.
pub record IsAnswer (D : Type 0) ⦃float : Float D⦄ (http : Http) (garbage : ℤ) (name : ℤ → Bytes)
    (base path dir : Bytes) : Type 0 where
  pub body : Bytes
  pub answered : http base path ≡ response 200 body
  pub playlist : HlsMediaPlaylist D
  pub parsed : media_parse garbage (take (length body % 2 ^ 32) body) ≡ ok playlist
  pub named : All (IsNamed name dir) playlist.segments
  pub distinct : (i j : ℤ) → name i ≡ name j → i ≡ j
  pub other : (i : ℤ) → path ≢ name i

-- A stream that asks the CDN at the base for the playlist at the path.
pub record IsPolling {F D : Type 0} (base path dir : Bytes) (s : SeamlessContentStream F D)
    : Type 0 where
  pub runs : s.running ≡ true
  pub client : s.cdn_client ≡ some (record { base_url = base })
  pub path_at : s.content_stream.playlist_path ≡ path
  pub dir_at : s.playlist_dir ≡ dir

cdn_get-response :
    (http : Http) (base path body : Bytes)
    → http base path ≡ response 200 body
    → cdn_get http (record { base_url = base }) path
      ≡ some (record { buffer = body; size = length body })
unfolding cdn_get
cdn_get-response http base path body e = rw (cdn_get, e) refl

module _ {F D : Type 0} ⦃flute : Flute F⦄ ⦃float : Float D⦄ where
  seamless_tick-answer :
      (http : Http) (garbage : ℤ) (name : ℤ → Bytes) (base path dir : Bytes) (w : StreamState F D)
      (a : IsAnswer D http garbage name base path dir)
      → IsPolling base path dir w.stream
      → seamless_tick http garbage w ≡ ok (take_playlist a.playlist cdn w)
  unfolding seamless_tick fetched handle_playlist
  seamless_tick-answer http garbage name base path dir w a p =
      let asks : Option CdnClient → Result (StreamState F D) = λ c. elim c [
        | none ↦ ok w
        | some client ↦
            fetched garbage (cdn_get http client w.stream.content_stream.playlist_path) w
      ] in
      ap (λ b. if not b then ok w else asks w.stream.cdn_client) p.runs
      ∙ ap asks p.client
      ∙ ap (λ l. fetched garbage (cdn_get http (record { base_url = base }) l) w) p.path_at
      ∙ ap (λ o. fetched garbage o w) (cdn_get-response http base path a.body a.answered)
      ∙ ap (Result_map (λ pl. take_playlist pl cdn w)) a.parsed

  -- A playlist that the CDN answers a stream with, which a registered service has, is stored, and
  -- the request for it is answered with what the stream makes of it; for its entries the cache has the items of the segments.
  pub stream_ticked-served :
      (http : Http) (garbage : ℤ) (name : ℤ → Bytes) (base path dir : Bytes) (place t : ℕ)
      (l : Bytes) (b : Backend F D) (s : SeamlessContentStream F D)
      (a : IsAnswer D http garbage name base path dir)
      → IsPolling base path dir s
      → get_elem? b.streams place ≡ some (seamless s)
      → find path b.cache.cache_items ≡ some (CacheItem.playlist l t (stream_playlist place))
      → IsServed name (stream_state s b)
      → is_held b (stream_playlist place) ≡ true
      → (r : RestHandler) (server : Http) (now : ℕ) (m : Request) → IsFileRequest r m
      → erase_first m.relative_uri ≡ path
      → (v : StreamState F D) × (stream_ticked http garbage place b ≡ ok (store_state place b v))
        × (v.stream.playlist
            ≡ media_to_string (record {
              version = negsuc 0;
              targetduration = a.playlist.targetduration;
              segments = listed v.heap v.stream.segments;
            }))
        × All
            (λ (m : MediaSegment D).
              (place : ℕ) × (find m.uri v.cache.cache_items ≡ some (segment_item m.uri place)))
            (listed v.heap v.stream.segments)
        × (rest_get r server now m (store_state place b v)
            ≡ ok (
              file_reply (codes "GEN") (take (length v.stream.playlist % 2 ^ 32) v.stream.playlist),
              store_state place b v,
            ))
  unfolding handle_playlist is_held
  stream_ticked-served http garbage name base path dir place t l b s a p g f h held r server now m q
        e =
      let w = stream_state s b in
      let body = take (length a.body % 2 ^ 32) a.body in
      let named : All (IsNamed name s.playlist_dir) a.playlist.segments =
        subst (λ d. All (IsNamed name d) a.playlist.segments) (sym p.dir_at) a.named in
      let v = take_playlist a.playlist cdn w in
      let (v', taken, served, text, cached) =
        handle_playlist-IsServed name garbage body cdn w a.playlist a.distinct a.parsed named h in
      let same : v' ≡ v =
        ok_inj (sym taken ∙ ap (Result_map (λ pl. take_playlist pl cdn w)) a.parsed) in
      let kept = take_playlist-other path name a.other cdn w a.playlist a.distinct named h ∙ f in
      (
        v',
        stream_ticked-stored http garbage place s v' b g
            (seamless_tick-answer http garbage name base path dir w a p ∙ ap ok (sym same)),
        text,
        cached,
        rest_get-playlist r server now m (store_state place b v') place t l v'.stream q
            (ap (λ k. find k v'.cache.cache_items) e
              ∙ ap (λ u. find path u.cache.cache_items) same
              ∙ kept)
            (get_elem?-set b.streams place (seamless v'.stream) g) held,
      )
