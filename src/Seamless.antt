-- ===== src/Seamless.antt =====
-- src/seamless/SeamlessContentStream.cpp and src/seamless/SeamlessContentStream.h.
pub mod Window
pub mod Late
pub mod Sound
pub mod Served
pub mod Playlist
pub mod Others
pub mod Ends
pub mod Scenario
pub mod Tests
use rt_mbms_mw.Announcement.Action.{Nothing}
use rt_mbms_mw.Prelude.{
  ℕ, zero, suc, ◌+◌, ◌-◌, ◌%◌, ◌^◌, Bool, true, false, not, List, [], ◌∷◌, ◌++◌, map, Option, none,
  some, if◌then◌else◌, ltb, length, take, get_elem?, ◌==◌,
}
use rt_mbms_mw.Prelude.Decimal.{to_u64}
use rt_mbms_mw.Prelude.Float.{Float}
use rt_mbms_mw.Prelude.Int.{ℤ, pos, negsuc}
use rt_mbms_mw.Prelude.Key.{Bytes, equal, int_key, bytes_key}
use rt_mbms_mw.Prelude.Map.{find, insert, erase}
use rt_mbms_mw.Prelude.Result.{Result, ok, throw, standard, ◌>>=◌, Result_map}
use rt_mbms_mw.Prelude.Text.{codes}
use rt_mbms_mw.Cache.{
  CacheItem, CacheManagement, Callback, stream_playlist, lookup_value, add_item, remove_item,
}
use rt_mbms_mw.Cdn.{Http, CdnClient, CdnFile, cdn_get, cdn_file_length}
use rt_mbms_mw.Flute.{Flute, file_text}
use rt_mbms_mw.Hls.Media.{MediaSegment, HlsMediaPlaylist, media_parse, media_to_string}
use rt_mbms_mw.Segment.{
  Segment, ItemSource, broadcast, cdn, generated, unavailable, segment_init, set_cdn_client,
  set_flute_file,
}
use rt_mbms_mw.Stream.{ContentStream}

pub record SeamlessContentStream (F D : Type 0) : Type 0 where
  pub content_stream : ContentStream D
  pub cdn_endpoint : Bytes
  pub cdn_client : Option CdnClient
  pub playlist_dir : Bytes
  pub playlist : Bytes
  -- by sequence number, the places of the segments
  pub segments : List (ℤ × ℕ)
  pub flute_files : List (Bytes × F)
  pub segments_to_keep : ℤ
  pub truncate_cdn_playlist_segments : ℤ
  pub running : Bool

-- The constructor, with the settings `mw.cache.max_segments_per_stream` and
-- `mw.seamless_switching.truncate_cdn_playlist_segments`.
unfoldable pub seamless_init :
    {F D : Type 0} → ContentStream D → Option ℤ → Option ℤ → SeamlessContentStream F D
seamless_init s max_segments truncate = record {
  content_stream = s;
  cdn_endpoint = codes "none";
  cdn_client = none;
  playlist_dir = [];
  playlist = codes "none";
  segments = [];
  flute_files = [];
  segments_to_keep = lookup_value max_segments (pos 10);
  truncate_cdn_playlist_segments = lookup_value truncate (pos 7);
  running = true;
}

-- What the operations of a stream change: its own members, the segments, and the shared cache.
pub record StreamState (F D : Type 0) : Type 0 where
  pub stream : SeamlessContentStream F D
  pub heap : List (Segment F D)
  pub cache : CacheManagement F

-- What the URI library computes of an endpoint; `none` where it refuses the text.
pub record Uri : Type 0 where
  pub path : Bytes
  pub query : Bytes
  -- with the path and the query set to the empty text
  pub base : Bytes

abbrev pub UriParser : Type 0
UriParser = Bytes → Option Uri

-- `s.substr(0, s.rfind('/') + 1)`
unfoldable pub directory : Bytes → Bytes
directory [] = []
directory (c ∷ s) = elim (directory s) [ d ∷ r ↦ c ∷ d ∷ r | [] ↦ if c == b'/' then c ∷ [] else [] ]

-- `path.erase(0, 1)`
abbrev pub erase_first : Bytes → Bytes
erase_first [] = []
erase_first (c ∷ s) = s

abbrev pub query_suffix : Bytes → Bytes
query_suffix [] = []
query_suffix (c ∷ q) = b'?' ∷ c ∷ q

uri_of : {F D : Type 0} → List (Segment F D) → ℕ → Bytes
uri_of heap r = elim (get_elem? heap r) [ none ↦ [] | some s ↦ s.content_location ]

module _ {F D : Type 0} where
  -- The members that are written before the client is made.
  unfoldable pub located_stream : Uri → SeamlessContentStream F D → SeamlessContentStream F D
  located_stream uri s =
      let path = erase_first uri.path ++ query_suffix uri.query in
      record s {
        content_stream = record (s.content_stream) { playlist_path = path };
        playlist_dir = directory path;
        cdn_endpoint = uri.base;
      }

  unfoldable pub endpoint_stream : Uri → SeamlessContentStream F D → SeamlessContentStream F D
  unfolding located_stream
  endpoint_stream uri s = record (located_stream uri s) {
    cdn_client = some (record { base_url = uri.base });
  }

  unfoldable pub connected : Bool → ℕ → Uri → StreamState F D → Result Nothing × StreamState F D
  unfolding located_stream endpoint_stream
  connected false self uri w = (throw standard, record w { stream = located_stream uri w.stream })
  connected true self uri w =
      let s = endpoint_stream uri w.stream in
      (
        ok tt,
        record w {
          stream = s;
          cache =
              add_item (CacheItem.playlist s.content_stream.playlist_path 0 (stream_playlist self))
                w.cache;
        },
      )

  -- `set_cdn_endpoint` of the stream at the place `self`, with what has been written when it throws;
  -- `accepts` says whether the constructor of `http_client` takes a base URL.
  unfoldable pub set_cdn_endpoint :
      UriParser → (Bytes → Bool) → ℕ → Bytes → StreamState F D → Result Nothing × StreamState F D
  unfolding connected
  set_cdn_endpoint parse accepts self cdn_ept w = elim (parse cdn_ept) [
    | none ↦ (throw standard, w)
    | some uri ↦ connected (accepts uri.base) self uri w
  ]

-- The `size_t` that the loop compares with: a difference that wraps.
unfoldable pub entry_count : ItemSource → ℤ → ℕ → ℕ
entry_count cdn truncate n = (n + (2 ^ 64 - to_u64 truncate)) % 2 ^ 64
entry_count broadcast truncate n = n
entry_count generated truncate n = n
entry_count unavailable truncate n = n

module _ {F D : Type 0} ⦃flute : Flute F⦄ where
  with_client : Option CdnClient → Segment F D → Segment F D
  with_client none s = s
  with_client (some client) s = set_cdn_client client s

  with_file : Option F → Segment F D → Segment F D
  with_file none s = s
  with_file (some file) s = set_flute_file file s

  -- The segment that is made for a new entry.
  new_segment : SeamlessContentStream F D → MediaSegment D → Segment F D
  unfolding with_client with_file
  new_segment s m =
      let uri = s.playlist_dir ++ m.uri in
      with_file (find uri s.flute_files)
        (with_client s.cdn_client (segment_init uri m.seq m.extinf))

  add_segment : MediaSegment D → StreamState F D → StreamState F D
  unfolding new_segment
  add_segment m w =
      let uri = w.stream.playlist_dir ++ m.uri in
      let place = length w.heap in
      record w {
        stream = record (w.stream) {
          segments = insert m.seq place w.stream.segments;
          flute_files = erase uri w.stream.flute_files;
        };
        heap = w.heap ++ (new_segment w.stream m ∷ []);
        cache = add_item (CacheItem.segment uri 0 place) w.cache;
      }

  -- A round of the loop over the entries, up to the test at its end.
  unfoldable pub admit : MediaSegment D → StreamState F D → StreamState F D
  unfolding add_segment
  admit m w = elim (find m.seq w.stream.segments) [ some place ↦ w | none ↦ add_segment m w ]

  -- `idx` counts the rounds; the loop is left behind the round in which it is above `count`.
  unfoldable pub admit_loop : ℕ → ℕ → List (MediaSegment D) → StreamState F D → StreamState F D
  admit_loop count idx [] w = w
  admit_loop count idx (m ∷ ms) w =
      let w' = admit m w in
      let rest = admit_loop count (suc idx) ms w' in if ltb count idx then w' else rest

  -- `while (_segments.size() > _segments_to_keep)`; the limit is converted to `size_t`.
  unfoldable pub evict :
      ℕ → List (Segment F D) → List (ℤ × ℕ) → CacheManagement F → List (ℤ × ℕ) × CacheManagement F
  unfolding uri_of
  evict keep heap [] cache = ([], cache)
  evict keep heap (e ∷ es) cache =
      let rest = evict keep heap es (remove_item (uri_of heap e.1) cache) in
      if ltb keep (length (e ∷ es)) then rest else (e ∷ es, cache)

  pub evict_oldest : StreamState F D → StreamState F D
  unfolding evict
  evict_oldest w =
      let left = evict (to_u64 w.stream.segments_to_keep) w.heap w.stream.segments w.cache in
      record w { stream = record (w.stream) { segments = left.0 }; cache = left.1 }

  -- The entries of the generated playlist, in the order of the sequence numbers.
  unfoldable pub listed : List (Segment F D) → List (ℤ × ℕ) → List (MediaSegment D)
  listed heap [] = []
  listed heap ((n, r) ∷ es) = elim (get_elem? heap r) [
    | none ↦ listed heap es
    | some s ↦ record { uri = s.content_location; seq = s.seq; extinf = s.extinf } ∷ listed heap es
  ]

  module _ ⦃float : Float D⦄ where
    regenerate : ℤ → StreamState F D → StreamState F D
    unfolding listed
    regenerate target w = record w {
      stream = record (w.stream) {
        playlist = media_to_string (record {
          version = negsuc 0;
          targetduration = target;
          segments = listed w.heap w.stream.segments;
        });
      };
    }

    -- Behind the parser.
    unfoldable pub take_playlist :
        HlsMediaPlaylist D → ItemSource → StreamState F D → StreamState F D
    unfolding evict_oldest regenerate
    take_playlist pl source w =
        let count =
          entry_count source w.stream.truncate_cdn_playlist_segments (length pl.segments) in
        regenerate pl.targetduration (evict_oldest (admit_loop count 0 pl.segments w))

    -- `handle_playlist`; `garbage` is what an unset target duration holds.
    unfoldable pub handle_playlist :
        ℤ → Bytes → ItemSource → StreamState F D → Result (StreamState F D)
    handle_playlist garbage content source w =
        Result_map (λ pl. take_playlist pl source w) (media_parse garbage content)

    -- `flute_file_received`
    unfoldable pub seamless_file_received : ℤ → F → StreamState F D → Result (StreamState F D)
    seamless_file_received garbage file w =
        let location = flute.content_location file in
        if equal location w.stream.content_stream.playlist_path
        then handle_playlist garbage (file_text file) broadcast w
        else if equal location (codes "index.m3u8")
        then ok w
        else ok (record w {
          stream = record (w.stream) { flute_files = insert location file w.stream.flute_files };
        })

    unfoldable pub fetched : ℤ → Option CdnFile → StreamState F D → Result (StreamState F D)
    fetched garbage none w = ok w
    fetched garbage (some file) w =
        handle_playlist garbage (take (cdn_file_length file) file.buffer) cdn w

    -- `tick_handler`, with the answer of the CDN taken in at once; then it sets its timer again.
    unfoldable pub seamless_tick : Http → ℤ → StreamState F D → Result (StreamState F D)
    unfolding fetched
    seamless_tick http garbage w = if not w.stream.running then ok w else elim w.stream.cdn_client [
      | none ↦ ok w
      | some client ↦ fetched garbage (cdn_get http client w.stream.content_stream.playlist_path) w
    ]
