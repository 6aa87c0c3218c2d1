-- ===== src/Stream.antt =====
-- src/ContentStream.cpp, src/ContentStream.h and src/DeliveryProtocols.h.
pub mod Sdp
pub mod Lines
pub mod Configure
pub mod Tests
use rt_mbms_mw.Prelude.{
  ℕ, Bool, true, false, not, ◌&&◌, List, [], ◌∷◌, ◌++◌, Option, none, some, if◌then◌else◌,
}
use rt_mbms_mw.Prelude.Decimal.{show_nat}
use rt_mbms_mw.Prelude.Float.{Float}
use rt_mbms_mw.Prelude.Key.{Bytes, equal}
use rt_mbms_mw.Prelude.Result.{Result, ok, throw, terminate, ◌>>=◌, Result_map}
use rt_mbms_mw.Prelude.Text.{codes, contains, lines}
use rt_mbms_mw.Cache.{CacheItem, CacheManagement, add_item}
use rt_mbms_mw.Flute.{Flute}
use rt_mbms_mw.Hls.Primary.{PrimaryStream, HlsPrimaryPlaylist, primary_parse}
use Sdp.{SdpLine, connection, media, two_media, tsi, other, sdp_line, stoul}

pub data DeliveryProtocol : Type 0 where
  hls dash rtp : DeliveryProtocol

abbrev pub is_hls : DeliveryProtocol → Bool
is_hls hls = true
is_hls dash = false
is_hls rtp = false

abbrev pub is_dash : DeliveryProtocol → Bool
is_dash hls = false
is_dash dash = true
is_dash rtp = false

-- The members that carry state; `flute_thread` says whether the thread has been started.
pub record ContentStream (D : Type 0) : Type 0 where
  pub delivery_protocol : DeliveryProtocol
  pub base : Bytes
  pub base_path : Bytes
  pub playlist_path : Bytes
  pub stream_iface : Bytes
  pub stream_type : Bytes
  pub stream_mcast_addr : Bytes
  pub stream_mcast_port : Bytes
  pub stream_flute_tsi : ℕ
  pub flute_thread : Bool
  pub resolution : Bytes
  pub codecs : Bytes
  pub bandwidth : ℕ
  pub frame_rate : D

-- What the memory of the members without initializer holds.
pub record Garbage (D : Type 0) : Type 0 where
  pub bandwidth : ℕ
  pub frame_rate : D

-- The constructor.
unfoldable pub stream_init :
    {D : Type 0} → Garbage D → Bytes → Bytes → DeliveryProtocol → ContentStream D
stream_init garbage base flute_if protocol = record {
  delivery_protocol = protocol;
  base = base;
  base_path = [];
  playlist_path = [];
  stream_iface = flute_if;
  stream_type = codes "none";
  stream_mcast_addr = [];
  stream_mcast_port = [];
  stream_flute_tsi = 0;
  flute_thread = false;
  resolution = [];
  codecs = [];
  bandwidth = garbage.bandwidth;
  frame_rate = garbage.frame_rate;
}

module _ {D : Type 0} where
  set_media : ContentStream D → Bytes → Bytes → ContentStream D
  set_media s port type = record s { stream_mcast_port = port; stream_type = type }

  -- The assignments for one line of the session description.
  unfoldable pub configure_line : ContentStream D → SdpLine → Result (ContentStream D)
  unfolding set_media
  configure_line s (connection addr) = ok (record s { stream_mcast_addr = addr })
  configure_line s (media port type) = ok (set_media s port type)
  configure_line s (two_media port type port2 type2) =
      ok (set_media (set_media s port type) port2 type2)
  configure_line s (tsi number) = Result_map (λ n. record s { stream_flute_tsi = n }) (stoul number)
  configure_line s other = ok s

  unfoldable pub configure_lines : ContentStream D → List Bytes → Result (ContentStream D)
  configure_lines s [] = ok s
  configure_lines s (l ∷ ls) = configure_line s (sdp_line l) >>= λ t. configure_lines t ls

  unfoldable pub is_configured : ContentStream D → Bool
  is_configured s =
      not (equal s.stream_type [])
      && not (equal s.stream_mcast_addr [])
      && not (equal s.stream_mcast_port [])

  -- `configure_5gbc_delivery_from_sdp`: the stream afterwards, and the result.
  unfoldable pub configure_5gbc_delivery_from_sdp :
      Bytes → ContentStream D → Result (ContentStream D × Bool)
  unfolding configure_lines is_configured
  configure_5gbc_delivery_from_sdp sdp s =
      Result_map (λ t. (t, is_configured t)) (configure_lines s (lines sdp))

  -- `start`: a second thread in a `std::thread` that is joinable ends the process.
  unfoldable pub start : ContentStream D → Result (ContentStream D)
  start s =
      if equal s.stream_type (codes "FLUTE/UDP")
      then if s.flute_thread then terminate else ok (record s { flute_thread = true })
      else ok s

  only_stream : List (PrimaryStream D) → ContentStream D → ContentStream D
  only_stream (p ∷ []) s = record s { playlist_path = p.uri }
  only_stream [] s = s
  only_stream (p ∷ q ∷ ps) s = s

  unfoldable pub read_master_manifest :
      ⦃float : Float D⦄ → Bytes → ContentStream D → Result (ContentStream D)
  unfolding only_stream
  read_master_manifest manifest s =
      if is_hls s.delivery_protocol
      then Result_map (λ (pl : HlsPrimaryPlaylist D). only_stream pl.streams s)
          (primary_parse manifest [])
      else ok s

  unfoldable pub flute_info : ContentStream D → Bytes
  flute_info s =
      if equal s.stream_type (codes "none")
      then codes "n/a"
      else s.stream_type
        ++ (codes ": "
            ++ (s.stream_mcast_addr
                ++ (codes ":"
                    ++ (s.stream_mcast_port ++ (codes ", TSI " ++ show_nat s.stream_flute_tsi)))))

  -- Where a received file is put in the cache; `none` for the manifest that the core generates.
  unfoldable pub cached_location : ContentStream D → Bytes → Option Bytes
  cached_location s location =
      if equal location (codes "index.m3u8")
      then none
      else if contains (codes ".mpd") location
      then some (s.base_path ++ codes "manifest.mpd")
      else if is_dash s.delivery_protocol
      then some (s.base_path ++ location)
      else some location

  -- `flute_file_received`
  unfoldable pub flute_file_received :
      {F : Type 0} ⦃flute : Flute F⦄ → F → ContentStream D → CacheManagement F → CacheManagement F
  unfolding cached_location
  flute_file_received ⦃flute⦄ file s cache =
      elim (cached_location s (flute.content_location file)) [
        | none ↦ cache
        | some l ↦ add_item (CacheItem.file l (flute.received_at file) file) cache
      ]
