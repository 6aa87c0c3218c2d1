-- ===== src/Hls/Primary.antt =====
-- src/HlsPrimaryPlaylist.cpp and src/HlsPrimaryPlaylist.h.
pub mod Parameters
pub mod RoundTrip
pub mod Tests
use rt_mbms_mw.Prelude.{
  ℕ, ◌%◌, ◌^◌, Bool, true, false, not, List, [], ◌∷◌, ◌++◌, Option, none, some, if◌then◌else◌,
}
use rt_mbms_mw.Prelude.Decimal.{atoi, show_nat, to_u64}
use rt_mbms_mw.Prelude.Float.{Float}
use rt_mbms_mw.Prelude.Int.{ℤ, pos, negsuc, eq_ℤ}
use rt_mbms_mw.Prelude.Key.{Bytes, equal}
use rt_mbms_mw.Prelude.Result.{Result, ok, throw, literal, ◌>>=◌, Result_map}
use rt_mbms_mw.Prelude.Text.{codes, starts_with, after_last, lines, trim}
use rt_mbms_mw.Hls.Media.{line_of}
use Parameters.{parse_parameters}

-- `HlsPrimaryPlaylist::Stream`
pub record PrimaryStream (D : Type 0) : Type 0 where
  pub uri : Bytes
  pub resolution : Bytes
  pub codecs : Bytes
  pub bandwidth : ℕ
  pub frame_rate : D

pub record HlsPrimaryPlaylist (D : Type 0) : Type 0 where
  pub version : ℤ
  pub streams : List (PrimaryStream D)

-- The variables of the constructor's loop: `attributes` holds the next stream, with no URI yet.
pub record PrimaryParser (D : Type 0) : Type 0 where
  pub playlist : HlsPrimaryPlaylist D
  pub attributes : PrimaryStream D

-- The default constructor.
abbrev pub primary_empty : {D : Type 0} → HlsPrimaryPlaylist D
primary_empty = record { version = negsuc 0; streams = [] }

module _ {D : Type 0} ⦃float : Float D⦄ where
  abbrev pub no_attributes : PrimaryStream D
  no_attributes = record {
    uri = [];
    resolution = [];
    codecs = [];
    bandwidth = 0;
    frame_rate = float.zero;
  }

  -- One round of the loop over the parameters of a stream. `bandwidth` is an `unsigned long`.
  unfoldable pub read_parameter : PrimaryStream D → Bytes × Bytes → PrimaryStream D
  read_parameter a (k, v) =
      if equal k (codes "BANDWIDTH")
      then record a { bandwidth = to_u64 (atoi v) }
      else if equal k (codes "FRAME-RATE")
      then record a { frame_rate = float.atof v }
      else if equal k (codes "RESOLUTION")
      then record a { resolution = v }
      else if equal k (codes "CODECS")
      then record a { codecs = v }
      else a

  unfoldable pub read_parameters : PrimaryStream D → List (Bytes × Bytes) → PrimaryStream D
  unfolding read_parameter
  read_parameters a [] = a
  read_parameters a (p ∷ ps) = read_parameters (read_parameter a p) ps

  version_line : PrimaryParser D → Option Bytes → Result (PrimaryParser D)
  version_line p cpos =
      if not (eq_ℤ p.playlist.version (negsuc 0)) then throw literal else elim cpos [
        | none ↦ ok p
        | some v ↦ ok (record p { playlist = record (p.playlist) { version = atoi v } })
      ]

  stream_line : PrimaryParser D → Option Bytes → PrimaryParser D
  stream_line p none = p
  stream_line p (some info) = record p {
    attributes = read_parameters p.attributes (parse_parameters info);
  }

  uri_line : Bytes → PrimaryParser D → Bytes → PrimaryParser D
  uri_line base_path p line = record p {
    playlist = record (p.playlist) {
      streams = p.playlist.streams ++ (record (p.attributes) { uri = base_path ++ line } ∷ []);
    };
    attributes = no_attributes;
  }

  unfoldable pub primary_line : Bytes → PrimaryParser D → Bytes → Result (PrimaryParser D)
  unfolding version_line stream_line uri_line
  primary_line base_path p line =
      let cpos = after_last b':' line in
      if starts_with (codes "#EXT-X-VERSION") line
      then version_line p cpos
      else if starts_with (codes "#EXT-X-STREAM-INF") line
      then ok (stream_line p cpos)
      else if starts_with (codes "#") line
      then ok p
      else if equal line []
      then ok p
      else ok (uri_line base_path p line)

  unfoldable pub primary_lines : Bytes → PrimaryParser D → List Bytes → Result (PrimaryParser D)
  primary_lines base_path p [] = ok p
  primary_lines base_path p (l ∷ ls) =
      primary_line base_path p (trim l) >>= λ q. primary_lines base_path q ls

  abbrev pub primary_init : PrimaryParser D
  primary_init = record { playlist = primary_empty; attributes = no_attributes }

  primary_first : Bytes → List Bytes → Result (PrimaryParser D)
  primary_first base_path [] = ok primary_init
  primary_first base_path (l ∷ ls) =
      if equal (trim l) (codes "#EXTM3U")
      then primary_lines base_path primary_init ls
      else throw literal

  -- The constructor from the text of a playlist.
  unfoldable pub primary_parse : Bytes → Bytes → Result (HlsPrimaryPlaylist D)
  unfolding primary_first
  primary_parse content base_path =
      Result_map (λ p. p.playlist) (primary_first base_path (lines content))

  -- The parameters of a stream as `to_string` writes them; the first name is spelled `BANDWITH`.
  unfoldable pub print_parameters : PrimaryStream D → Bytes
  print_parameters s =
      codes "BANDWITH="
      ++ (show_nat s.bandwidth
          ++ (codes ",RESOLUTION="
              ++ (s.resolution
                  ++ (codes ",FRAME-RATE="
                      ++ (float.show_fixed s.frame_rate
                          ++ (codes ",CODECS=\"" ++ (s.codecs ++ codes "\"")))))))

  unfoldable pub primary_print_streams : List (PrimaryStream D) → Bytes
  unfolding print_parameters
  primary_print_streams [] = []
  primary_print_streams (s ∷ ss) =
      line_of (codes "#EXT-X-STREAM-INF:" ++ print_parameters s)
        (line_of s.uri (primary_print_streams ss))

  -- `to_string`
  unfoldable pub primary_to_string : HlsPrimaryPlaylist D → Bytes
  unfolding primary_print_streams
  primary_to_string pl =
      line_of (codes "#EXTM3U")
        (line_of (codes "#EXT-X-VERSION:3") (primary_print_streams pl.streams))

  unfoldable pub add_stream : PrimaryStream D → HlsPrimaryPlaylist D → HlsPrimaryPlaylist D
  add_stream s pl = record pl { streams = pl.streams ++ (s ∷ []) }
