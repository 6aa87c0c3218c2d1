-- ===== src/Hls/Media.antt =====
-- src/HlsMediaPlaylist.cpp and src/HlsMediaPlaylist.h.
pub mod RoundTrip
pub mod Tests
use rt_mbms_mw.Prelude.{
  ℕ, Bool, true, false, not, List, [], ◌∷◌, ◌++◌, Option, none, some, if◌then◌else◌,
}
use rt_mbms_mw.Prelude.Decimal.{atoi, show_int}
use rt_mbms_mw.Prelude.Float.{Float}
use rt_mbms_mw.Prelude.Int.{ℤ, pos, negsuc, next, eq_ℤ}
use rt_mbms_mw.Prelude.Key.{Bytes, equal}
use rt_mbms_mw.Prelude.Result.{Result, ok, throw, Exception, literal, ◌>>=◌, Result_map}
use rt_mbms_mw.Prelude.Text.{codes, starts_with, after_last, lines, trim}

-- `HlsMediaPlaylist::Segment`
pub record MediaSegment (D : Type 0) : Type 0 where
  pub uri : Bytes
  pub seq : ℤ
  pub extinf : D

pub record HlsMediaPlaylist (D : Type 0) : Type 0 where
  pub version : ℤ
  pub targetduration : ℤ
  pub segments : List (MediaSegment D)

-- The variables of the constructor's loop.
pub record MediaParser (D : Type 0) : Type 0 where
  pub playlist : HlsMediaPlaylist D
  pub seq_nr : ℤ
  pub extinf : D

-- `<< l << std::endl`, in front of what is written behind it.
abbrev pub line_of : Bytes → Bytes → Bytes
line_of l rest = l ++ (b'\n' ∷ rest)

module _ {D : Type 0} ⦃float : Float D⦄ where
  -- A body of the loop behind the first line; `cpos` is what stands behind the last colon.
  version_line : MediaParser D → Option Bytes → Result (MediaParser D)
  version_line p cpos =
      if not (eq_ℤ p.playlist.version (negsuc 0)) then throw literal else elim cpos [
        | none ↦ ok p
        | some v ↦ ok (record p { playlist = record (p.playlist) { version = atoi v } })
      ]

  target_line : MediaParser D → Option Bytes → MediaParser D
  target_line p none = p
  target_line p (some v) = record p { playlist = record (p.playlist) { targetduration = atoi v } }

  sequence_line : MediaParser D → Option Bytes → MediaParser D
  sequence_line p none = p
  sequence_line p (some v) = record p { seq_nr = atoi v }

  extinf_line : MediaParser D → Option Bytes → MediaParser D
  extinf_line p none = p
  extinf_line p (some v) = record p { extinf = float.atof v }

  uri_line : MediaParser D → Bytes → MediaParser D
  uri_line p line = record p {
    playlist = record (p.playlist) {
      segments =
          p.playlist.segments ++ (record { uri = line; seq = p.seq_nr; extinf = p.extinf } ∷ []);
    };
    seq_nr = next p.seq_nr;
  }

  unfoldable pub media_line : MediaParser D → Bytes → Result (MediaParser D)
  unfolding version_line target_line sequence_line extinf_line uri_line
  media_line p line =
      let cpos = after_last b':' line in
      if starts_with (codes "#EXT-X-VERSION") line
      then version_line p cpos
      else if starts_with (codes "#EXT-X-TARGETDURATION") line
      then ok (target_line p cpos)
      else if starts_with (codes "#EXT-X-MEDIA-SEQUENCE") line
      then ok (sequence_line p cpos)
      else if starts_with (codes "#EXTINF") line
      then ok (extinf_line p cpos)
      else if starts_with (codes "#") line
      then ok p
      else if equal line []
      then ok p
      else ok (uri_line p line)

  unfoldable pub media_lines : MediaParser D → List Bytes → Result (MediaParser D)
  media_lines p [] = ok p
  media_lines p (l ∷ ls) = media_line p (trim l) >>= λ q. media_lines q ls

  -- `_targetduration` has no initializer: `garbage` is what the memory holds.
  abbrev pub media_init : ℤ → MediaParser D
  media_init garbage = record {
    playlist = record { version = negsuc 0; targetduration = garbage; segments = [] };
    seq_nr = pos 0;
    extinf = float.minus_one;
  }

  media_first : ℤ → List Bytes → Result (MediaParser D)
  media_first garbage [] = ok (media_init garbage)
  media_first garbage (l ∷ ls) =
      if equal (trim l) (codes "#EXTM3U")
      then media_lines (media_init garbage) ls
      else throw literal

  -- The constructor from the text of a playlist.
  unfoldable pub media_parse : ℤ → Bytes → Result (HlsMediaPlaylist D)
  unfolding media_first
  media_parse garbage content = Result_map (λ p. p.playlist) (media_first garbage (lines content))

  unfoldable pub media_print_segments : List (MediaSegment D) → Bytes
  media_print_segments [] = []
  media_print_segments (s ∷ ss) =
      line_of (codes "#EXTINF:" ++ float.show s.extinf)
        (line_of (codes "/" ++ s.uri) (media_print_segments ss))

  media_print_header : ℤ → List (MediaSegment D) → Bytes → Bytes
  media_print_header target [] rest = rest
  media_print_header target (s ∷ ss) rest =
      line_of (codes "#EXT-X-TARGETDURATION:" ++ show_int target)
        (line_of (codes "#EXT-X-MEDIA-SEQUENCE:" ++ show_int s.seq) rest)

  -- `to_string`
  unfoldable pub media_to_string : HlsMediaPlaylist D → Bytes
  unfolding media_print_segments media_print_header
  media_to_string pl = line_of (codes "#EXTM3U") (
      line_of (codes "#EXT-X-VERSION:3")
        (media_print_header pl.targetduration pl.segments (media_print_segments pl.segments)))
