-- ===== src/Rest/Rows.antt =====
-- What the handler of src/RestHandler.cpp reads, and the rows of the lists that it answers with.
use rt_mbms_mw.Prelude.{ℕ, List, [], ◌∷◌, ◌++◌, none, some, if◌then◌else◌, ◌==◌, get_elem?}
use rt_mbms_mw.Prelude.Key.{Bytes, bytes_key, equal}
use rt_mbms_mw.Prelude.Text.{codes}
use rt_mbms_mw.Prelude.Int.{ℤ}
use rt_mbms_mw.Announcement.{Item}
use rt_mbms_mw.Backend.{Backend}
use rt_mbms_mw.Cache.{
  CacheItem, Callback, stream_playlist, service_manifest, Heap, content_location, received_at,
  content_length, item_source, source_string, age_of,
}
use rt_mbms_mw.Flute.{Flute}
use rt_mbms_mw.Service.{AnyStream, basic, seamless, content_stream}
use rt_mbms_mw.Stream.{DeliveryProtocol, hls, dash, rtp, flute_info}

-- The rows of the JSON arrays, with the keys as fields.
pub record ItemRow : Type 0 where
  pub location : Bytes
  pub type : Bytes
  pub valid_from : ℤ
  pub valid_until : ℤ
  pub version : ℕ
  pub content : Bytes

pub record FileRow : Type 0 where
  pub source : Bytes
  pub location : Bytes
  pub content_length : ℕ
  pub received_at : ℕ
  pub age : ℕ

pub record StreamRow (D : Type 0) : Type 0 where
  pub base : Bytes
  pub type : Bytes
  pub flute_info : Bytes
  pub resolution : Bytes
  pub codecs : Bytes
  pub bandwidth : ℕ
  pub frame_rate : D
  pub playlist_path : Bytes
  pub cdn_ept : Bytes

pub record ServiceRow (D : Type 0) : Type 0 where
  -- by language
  pub names : List (Bytes × Bytes)
  pub protocol : Bytes
  pub manifest_path : Bytes
  pub streams : List (StreamRow D)

unfoldable pub item_rows : List Item → List ItemRow
item_rows [] = []
item_rows (i ∷ items) =
    let rest = item_rows items in
    if equal i.content_type (codes "application/mbms-envelope+xml")
    then rest
    else record {
      location = i.uri;
      type = i.content_type;
      valid_from = i.valid_from;
      valid_until = i.valid_until;
      version = i.version;
      content = i.content;
    }
      ∷ rest

abbrev pub protocol_string : DeliveryProtocol → Bytes
protocol_string hls = codes "HLS"
protocol_string dash = codes "DASH"
protocol_string rtp = codes "RTP"

module _ {F D : Type 0} where
  abbrev pub type_string : AnyStream F D → Bytes
  type_string (basic s) = codes "Basic"
  type_string (seamless s) = codes "Seamless Switching"

  abbrev pub cdn_ept : AnyStream F D → Bytes
  cdn_ept (basic s) = codes "n/a"
  cdn_ept (seamless s) = s.cdn_endpoint ++ s.content_stream.playlist_path

  stream_row : AnyStream F D → StreamRow D
  stream_row any =
      let s = content_stream any in
      record {
        base = s.base;
        type = type_string any;
        flute_info = flute_info s;
        resolution = s.resolution;
        codecs = s.codecs;
        bandwidth = s.bandwidth;
        frame_rate = s.frame_rate;
        playlist_path = s.playlist_path;
        cdn_ept = cdn_ept any;
      }

  unfoldable pub stream_rows : List (AnyStream F D) → List (Bytes × ℕ) → List (StreamRow D)
  unfolding stream_row
  stream_rows streams [] = []
  stream_rows streams ((path, r) ∷ m) = elim (get_elem? streams r) [
    | none ↦ stream_rows streams m
    | some s ↦ stream_row s ∷ stream_rows streams m
  ]

  unfoldable pub service_rows : Backend F D → List (Bytes × ℕ) → List (ServiceRow D)
  unfolding stream_rows
  service_rows b [] = []
  service_rows b ((id, r) ∷ m) = elim (get_elem? b.services r) [
    | none ↦ service_rows b m
    | some s ↦
        record {
          names = s.names;
          protocol = protocol_string s.delivery_protocol;
          manifest_path = s.manifest_path;
          streams = stream_rows b.streams s.content_streams;
        }
        ∷ service_rows b m
  ]

  abbrev pub playlist_text : AnyStream F D → Bytes
  playlist_text (basic s) = []
  playlist_text (seamless s) = s.playlist

  -- What the closures in the cache read, as long as their objects are held: whoever calls them tests
  -- `is_held` of Backend/Lifetime.antt first.
  unfoldable pub callback_text : Backend F D → Callback → Bytes
  callback_text b (stream_playlist r) = elim (get_elem? b.streams r) [
    | none ↦ []
    | some s ↦ playlist_text s
  ]
  callback_text b (service_manifest r) = elim (get_elem? b.services r) [
    | none ↦ []
    | some s ↦ s.manifest
  ]

  abbrev pub heap_of : Backend F D → Heap F D
  heap_of b = record { segments = b.segments; text = callback_text b }

module _ {F D : Type 0} ⦃flute : Flute F⦄ where
  unfoldable pub file_row : Backend F D → ℕ → CacheItem F → FileRow
  file_row b now i =
      let t = received_at (heap_of b) now i in
      record {
        source = source_string (item_source (heap_of b) i);
        location = content_location i;
        content_length = content_length (heap_of b) i;
        received_at = t;
        age = if t == 0 then 10000 else age_of now t;
      }
