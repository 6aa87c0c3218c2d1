-- ===== src/Hls/Primary/Tests.antt =====
-- Runs of the primary playlist parser and printer, and the theorems at concrete playlists.
use rt_mbms_mw.Prelude.{true, false, [], ◌∷◌, ◌≡◌, refl, map}
use rt_mbms_mw.Prelude.Int.{pos}
use rt_mbms_mw.Prelude.Key.{Bytes}
use rt_mbms_mw.Prelude.Result.{ok}
use rt_mbms_mw.Prelude.Text.{codes, is_solid, is_solid-IsSolid, has, has-Lacks, IsWord}
use rt_mbms_mw.Hls.Media.Tests.{text_float}
use rt_mbms_mw.Hls.Primary.Parameters.{
  IsPlain, IsQuotable, Parameter, render, pair_of, parse_parameters, parse_parameters-render,
}
use rt_mbms_mw.Hls.Primary.RoundTrip.{IsPrintableStream, primary_parse-to_string}
use rt_mbms_mw.Hls.Primary.{PrimaryStream, HlsPrimaryPlaylist, primary_parse, primary_to_string}

plain : {s : Bytes} → has b'"' s ≡ false → has b',' s ≡ false → has b'=' s ≡ false → IsPlain s
plain a b c = record {
  no_quote = has-Lacks _ _ a;
  no_comma = has-Lacks _ _ b;
  no_equals = has-Lacks _ _ c;
}

quotable : {s : Bytes} → has b'"' s ≡ false → has b'=' s ≡ false → IsQuotable s
quotable a b = record { no_quote = has-Lacks _ _ a; no_equals = has-Lacks _ _ b }

word : (s : Bytes) → is_solid s ≡ true → has b':' s ≡ false → IsWord s
word s a b = (is_solid-IsSolid s a, has-Lacks b':' s b)

abbrev resolution : Parameter
resolution = record { key = codes "RESOLUTION"; value = codes "1280x720"; quoted = false }

abbrev codecs_written : Parameter
codecs_written = record { key = codes "CODECS"; value = codes "avc1.4d,mp4a.40"; quoted = true }

codecs_parse :
    parse_parameters (codes "RESOLUTION=1280x720,CODECS=\"avc1.4d,mp4a.40\"")
    ≡ pair_of resolution ∷ pair_of codecs_written ∷ []
unfolding parse_parameters
codecs_parse = refl

parse_parameters-render_example :
    parse_parameters (render resolution (codecs_written ∷ []))
    ≡ map pair_of (resolution ∷ codecs_written ∷ [])
unfolding has
parse_parameters-render_example = parse_parameters-render resolution (codecs_written ∷ []) (
  record { plain_key = plain refl refl refl; writable_value = plain refl refl refl },
  (record { plain_key = plain refl refl refl; writable_value = quotable refl refl }, tt),
)

abbrev pub hd : PrimaryStream Bytes
hd = record {
  uri = codes "/hd/index.m3u8";
  resolution = codes "1280x720";
  codecs = codes "avc1.4d,mp4a.40";
  bandwidth = 3000000;
  frame_rate = codes "25.000";
}

abbrev one_stream : HlsPrimaryPlaylist Bytes
one_stream = record { version = pos 3; streams = hd ∷ [] }

pub hd-IsPrintableStream : IsPrintableStream hd
unfolding has is_solid
hd-IsPrintableStream = record {
  uri_solid = is_solid-IsSolid hd.uri refl;
  uri_path = (codes "hd/index.m3u8", refl);
  resolution_word = word hd.resolution refl refl;
  resolution_plain = plain refl refl refl;
  codecs_word = word hd.codecs refl refl;
  codecs_quotable = quotable refl refl;
  frame_rate_prints = record {
    solid = is_solid-IsSolid (codes "25.000") refl;
    no_colon = has-Lacks b':' (codes "25.000") refl;
    exact = refl;
  };
  frame_rate_plain = plain refl refl refl;
}

-- The bandwidth of three megabits is lost.
primary_parse-to_string_example :
    primary_parse (primary_to_string one_stream) (codes "svc")
    ≡ ok (record {
      version = pos 3;
      streams = record hd { uri = codes "svc/hd/index.m3u8"; bandwidth = 0 } ∷ [];
    })
primary_parse-to_string_example =
    primary_parse-to_string (codes "svc") one_stream (hd-IsPrintableStream, tt)
