-- ===== src/Hls/Media/Tests.antt =====
-- Runs of the media playlist parser and printer, and the theorems at concrete playlists.
use rt_mbms_mw.Prelude.{true, false, [], ◌∷◌, ◌++◌, ◌≡◌, refl, ◌↔◌, All}
use rt_mbms_mw.Prelude.Decimal.{atoi}
use rt_mbms_mw.Prelude.Float.{Float}
use rt_mbms_mw.Prelude.Int.{pos, negsuc}
use rt_mbms_mw.Prelude.Key.{Bytes, equal}
use rt_mbms_mw.Prelude.Result.{ok, throw, literal}
use rt_mbms_mw.Prelude.Text.{
  codes, starts_with, after_last, lines, trim, is_solid, is_solid-IsSolid, has, has-Lacks,
}
use rt_mbms_mw.Hls.Media.{
  MediaSegment, HlsMediaPlaylist, media_line, media_lines, media_parse, media_to_string,
}
use rt_mbms_mw.Hls.Media.RoundTrip.{
  IsPrintable, served, seqs, Consecutive, media_parse-to_string, media_to_string-seqs,
}

-- A number that is kept as its text.
instance abbrev pub text_float : Float Bytes
text_float = record {
  atof = λ s. s;
  show = λ s. s;
  show_fixed = λ s. s;
  zero = codes "0";
  minus_one = codes "-1";
}

abbrev eol : Bytes
eol = b'\n' ∷ []

abbrev live_text : Bytes
live_text =
    codes "#EXTM3U"
    ++ (eol
        ++ (codes "#EXT-X-TARGETDURATION:6"
            ++ (eol
                ++ (codes "#EXT-X-MEDIA-SEQUENCE:41"
                    ++ (eol ++ (codes "#EXTINF:5.9" ++ (eol ++ codes "seg41.ts")))))))

live_text_parses :
    media_parse (pos 9) live_text
    ≡ ok (record {
      version = negsuc 0;
      targetduration = pos 6;
      segments = record { uri = codes "seg41.ts"; seq = pos 41; extinf = codes "5.9" } ∷ [];
    })
unfolding media_parse media_lines media_line starts_with after_last lines trim equal atoi
live_text_parses = refl

no_header : media_parse {D = Bytes} (pos 0) (codes "#EXTINF:5.9") ≡ throw literal
unfolding media_parse lines trim equal
no_header = refl

abbrev gap : HlsMediaPlaylist Bytes
gap = record {
  version = negsuc 0;
  targetduration = pos 6;
  segments =
      record { uri = codes "a.ts"; seq = pos 4; extinf = codes "5" }
      ∷ record { uri = codes "b.ts"; seq = pos 7; extinf = codes "6" }
      ∷ [];
}

word :
    {s : MediaSegment Bytes}
    → is_solid s.uri ≡ true
    → is_solid s.extinf ≡ true
    → has b':' s.extinf ≡ false
    → IsPrintable s
word u e c = record {
  uri_solid = is_solid-IsSolid _ u;
  extinf_prints = record { solid = is_solid-IsSolid _ e; no_colon = has-Lacks _ _ c; exact = refl };
}

gap-IsPrintable : All IsPrintable gap.segments
unfolding is_solid has
gap-IsPrintable = (word refl refl refl, (word refl refl refl, tt))

media_parse-to_string_example :
    media_parse (pos 0) (media_to_string gap)
    ≡ ok (record { version = pos 3; targetduration = pos 6; segments = served gap.segments })
media_parse-to_string_example = media_parse-to_string (pos 0) gap gap-IsPrintable

media_to_string-seqs_example :
    (q : HlsMediaPlaylist Bytes) × (media_parse (pos 0) (media_to_string gap) ≡ ok q)
    × ((seqs q.segments ≡ seqs gap.segments) ↔ Consecutive gap.segments)
media_to_string-seqs_example = media_to_string-seqs (pos 0) gap gap-IsPrintable
