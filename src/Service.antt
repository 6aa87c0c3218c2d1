-- ===== src/Service.antt =====
-- src/Service.cpp and src/Service.h, and src/DashManifest.cpp.
pub mod Matching
pub mod Adding
pub mod Written
pub mod Tests
use rt_mbms_mw.Prelude.{
  ℕ, Bool, true, false, List, [], ◌∷◌, ◌++◌, Option, none, some, if◌then◌else◌, ◌==◌, get_elem?,
  set,
}
use rt_mbms_mw.Prelude.Float.{Float}
use rt_mbms_mw.Prelude.Key.{Bytes, bytes_key, equal}
use rt_mbms_mw.Prelude.Map.{insert}
use rt_mbms_mw.Prelude.Result.{Result, ok, terminate, ◌>>=◌, Result_map}
use rt_mbms_mw.Prelude.Text.{codes}
use rt_mbms_mw.Cache.{CacheItem, CacheManagement, Callback, service_manifest, add_item}
use rt_mbms_mw.Hls.Primary.{
  PrimaryStream, HlsPrimaryPlaylist, primary_empty, primary_parse, primary_to_string,
}
use rt_mbms_mw.Stream.{DeliveryProtocol, hls, dash, rtp, is_hls, is_dash, ContentStream, start}
use rt_mbms_mw.Seamless.{SeamlessContentStream}

pub record DashManifest : Type 0 where
  pub content : Bytes
  pub base_path : Bytes

-- A `ContentStream`, or the class derived from it.
pub data AnyStream (F D : Type 0) : Type 0 where
  basic : ContentStream D → AnyStream F D
  seamless : SeamlessContentStream F D → AnyStream F D

abbrev pub content_stream : {F D : Type 0} → AnyStream F D → ContentStream D
content_stream (basic s) = s
content_stream (seamless s) = s.content_stream

abbrev pub with_content_stream : {F D : Type 0} → ContentStream D → AnyStream F D → AnyStream F D
with_content_stream t (basic s) = basic t
with_content_stream t (seamless s) = seamless (record s { content_stream = t })

-- The streams are shared, and named by their places.
pub record Service (D : Type 0) : Type 0 where
  pub delivery_protocol : DeliveryProtocol
  pub content_streams : List (Bytes × ℕ)
  pub names : List (Bytes × Bytes)
  pub hls_primary_playlist : HlsPrimaryPlaylist D
  pub dash_manifest : DashManifest
  pub manifest : Bytes
  pub manifest_path : Bytes

-- The constructor; the protocol has no initializer.
abbrev pub service_init : {D : Type 0} → DeliveryProtocol → Service D
service_init garbage = record {
  delivery_protocol = garbage;
  content_streams = [];
  names = [];
  hls_primary_playlist = primary_empty;
  dash_manifest = record { content = []; base_path = [] };
  manifest = [];
  manifest_path = [];
}

-- What stands before the first byte `c`.
unfoldable pub before_first : ℕ → Bytes → Bytes
before_first c [] = []
before_first c (x ∷ s) = let rest = before_first c s in if x == c then [] else x ∷ rest

unfoldable pub protocol_of : Bytes → DeliveryProtocol
protocol_of mime =
    if equal mime (codes "application/vnd.apple.mpegurl")
    then hls
    else if equal mime (codes "application/dash+xml")
    then dash
    else rtp

unfoldable pub manifest_name : DeliveryProtocol → Bytes
manifest_name hls = codes "manifest.m3u8"
manifest_name dash = codes "manifest.mpd"
manifest_name rtp = codes "manifest.mpd"

module _ {D : Type 0} where
  unfoldable pub add_name : Bytes → Bytes → Service D → Service D
  add_name name lang s = record s { names = insert lang name s.names }

  unfoldable pub set_delivery_protocol_from_mime_type : Bytes → Service D → Service D
  set_delivery_protocol_from_mime_type mime_type s = record s {
    delivery_protocol = protocol_of (before_first b';' mime_type);
  }

  module _ ⦃float : Float D⦄ where
    -- The member that the protocol calls for takes the manifest.
    keep_manifest : Bytes → Bytes → Service D → DeliveryProtocol → Result (Service D)
    keep_manifest manifest base_path s hls =
        Result_map (λ pl. record s { hls_primary_playlist = pl }) (primary_parse manifest base_path)
    keep_manifest manifest base_path s dash =
        ok (record s { dash_manifest = record { content = manifest; base_path = base_path } })
    keep_manifest manifest base_path s rtp = ok s

    -- `read_master_manifest` of the service at the place `self`
    unfoldable pub service_read_master_manifest :
        {F : Type 0}
        → ℕ
        → Bytes
        → Bytes
        → Service D
        → CacheManagement F
        → Result (Service D × CacheManagement F)
    unfolding keep_manifest
    service_read_master_manifest self manifest base_path s cache =
        let path = base_path ++ manifest_name s.delivery_protocol in
        Result_map
          (λ t. (
            record t { manifest_path = path },
            add_item (CacheItem.playlist path 0 (service_manifest self)) cache,
          ))
          (keep_manifest manifest base_path s s.delivery_protocol)

  -- The attributes of an entry of the primary playlist.
  abbrev pub set_attributes : PrimaryStream D → ContentStream D → ContentStream D
  set_attributes p s = record s {
    resolution = p.resolution;
    codecs = p.codecs;
    bandwidth = p.bandwidth;
    frame_rate = p.frame_rate;
  }

  unfoldable pub match_streams : List (PrimaryStream D) → ContentStream D → ContentStream D
  match_streams [] s = s
  match_streams (p ∷ ps) s =
      match_streams ps (if equal p.uri s.playlist_path then set_attributes p s else s)

  -- An entry of the new manifest.
  abbrev pub listed_stream : ContentStream D → PrimaryStream D
  listed_stream s = record {
    uri = codes "/" ++ s.playlist_path;
    resolution = s.resolution;
    codecs = s.codecs;
    bandwidth = s.bandwidth;
    frame_rate = s.frame_rate;
  }

module _ {F D : Type 0} where
  -- The entries of the new manifest, in the order of the playlist paths.
  unfoldable pub listed_streams : List (AnyStream F D) → List (Bytes × ℕ) → List (PrimaryStream D)
  listed_streams streams [] = []
  listed_streams streams ((path, r) ∷ m) = elim (get_elem? streams r) [
    | none ↦ listed_streams streams m
    | some s ↦ listed_stream (content_stream s) ∷ listed_streams streams m
  ]

  module _ ⦃float : Float D⦄ where
    pub recreate_manifest : List (AnyStream F D) → Service D → DeliveryProtocol → Service D
    unfolding listed_streams
    recreate_manifest streams s hls = record s {
      manifest =
          primary_to_string
            (record primary_empty { streams = listed_streams streams s.content_streams });
    }
    recreate_manifest streams s dash = record s { manifest = s.dash_manifest.content }
    recreate_manifest streams s rtp = s

    -- The attributes, the map, and the start of the stream; `place` holds it.
    started :
        ℕ
        → AnyStream F D
        → List (AnyStream F D)
        → Service D
        → Result (Service D × List (AnyStream F D))
    unfolding recreate_manifest match_streams
    started place any streams s =
        let matched =
          if is_hls s.delivery_protocol
          then match_streams s.hls_primary_playlist.streams (content_stream any)
          else content_stream any in
        start matched >>= λ t.
        let streams' = set streams place (with_content_stream t any) in
        let s' = record s {
          content_streams = insert matched.playlist_path place s.content_streams;
        } in
        ok (recreate_manifest streams' s' s.delivery_protocol, streams')

    -- `add_and_start_content_stream` for the stream at a place; a place that was never filled would
    -- be a null pointer.
    unfoldable pub add_and_start_content_stream :
        ℕ → List (AnyStream F D) → Service D → Result (Service D × List (AnyStream F D))
    unfolding started
    add_and_start_content_stream place streams s = elim (get_elem? streams place) [
      | none ↦ terminate
      | some any ↦ started place any streams s
    ]
