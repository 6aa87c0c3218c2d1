-- ===== src/Seamless/Scenario.antt =====
-- A stream whose segments are named by their numbers, and the theorem about its playlist.
use rt_mbms_mw.Seamless.Ends.{evict_while, evict_while-evict}
use rt_mbms_mw.Prelude.{ℕ, zero, suc, List, [], ◌∷◌, ◌++◌, none, some, ◌≡◌, refl, ap, arith, All}
use rt_mbms_mw.Prelude.Int.{ℤ, pos, negsuc}
use rt_mbms_mw.Prelude.Key.{Bytes, bytes_key, equal}
use rt_mbms_mw.Prelude.Map.{find}
use rt_mbms_mw.Prelude.Decimal.{atoi}
use rt_mbms_mw.Prelude.Result.{ok}
use rt_mbms_mw.Prelude.Text.{codes, starts_with, after_last, lines, trim}
use rt_mbms_mw.Cache.{cache_init}
use rt_mbms_mw.Flute.Tests.{TestFile, test_flute}
use rt_mbms_mw.Hls.Media.{
  MediaSegment, HlsMediaPlaylist, media_parse, media_lines, media_line, media_to_string,
}
use rt_mbms_mw.Hls.Media.Tests.{text_float}
use rt_mbms_mw.Segment.{cdn}
use rt_mbms_mw.Seamless.{StreamState, seamless_init, handle_playlist, listed, evict}
use rt_mbms_mw.Seamless.Playlist.{handle_playlist-IsServed}
use rt_mbms_mw.Seamless.Served.{IsServed, segment_item}
use rt_mbms_mw.Stream.{hls, stream_init}

-- The segment `n` is called `s`, as often as the number says.
abbrev pub letters : ℕ → Bytes
letters zero = []
letters (suc n) = b's' ∷ letters n

abbrev pub name : ℤ → Bytes
name (pos n) = codes "a/" ++ letters n
name (negsuc n) = codes "b/" ++ letters n

letters_inj : (m n : ℕ) → letters m ≡ letters n → m ≡ n
letters_inj zero zero e = refl
letters_inj zero (suc n) e = cc
letters_inj (suc m) zero e = cc
letters_inj (suc m) (suc n) e = ap suc (letters_inj m n (cc))

pub distinct : (i j : ℤ) → name i ≡ name j → i ≡ j
distinct (pos m) (pos n) e = ap pos (letters_inj m n (cc))
distinct (pos m) (negsuc n) e = ground arith
distinct (negsuc m) (pos n) e = ground arith
distinct (negsuc m) (negsuc n) e = ap negsuc (letters_inj m n (cc))

abbrev pub text : Bytes
text = codes "#EXTM3U\n#EXT-X-MEDIA-SEQUENCE:1\n#EXTINF:5.9\ns\n#EXTINF:6.0\nss\n#EXTINF:6.0\nsss\n"

abbrev entry : Bytes → ℕ → Bytes → MediaSegment Bytes
entry uri seq extinf = record { uri = uri; seq = pos seq; extinf = extinf }

abbrev pub playlist : HlsMediaPlaylist Bytes
playlist = record {
  version = negsuc 0;
  targetduration = pos 6;
  segments =
      entry (codes "s") 1 (codes "5.9")
      ∷ entry (codes "ss") 2 (codes "6.0")
      ∷ entry (codes "sss") 3 (codes "6.0")
      ∷ [];
}

pub parsed : media_parse (pos 6) text ≡ ok playlist
unfolding media_parse media_lines media_line starts_with after_last lines trim equal atoi
parsed = refl

-- It keeps two segments.
abbrev stream : StreamState TestFile Bytes
stream = record {
  stream =
      record (seamless_init (stream_init (record { bandwidth = 0; frame_rate = [] }) [] [] hls)
        (some (pos 2)) none) { playlist_dir = codes "a/" };
  heap = [];
  cache = cache_init none none;
}

stream-IsServed : IsServed name stream
unfolding seamless_init
stream-IsServed = record { sorted = tt; entries = tt }

handle_playlist-IsServed_example :
    (v : StreamState TestFile Bytes) × (handle_playlist (pos 6) text cdn stream ≡ ok v)
    × IsServed name v
    × (v.stream.playlist
        ≡ media_to_string (record {
          version = negsuc 0;
          targetduration = pos 6;
          segments = listed v.heap v.stream.segments;
        }))
    × All
        (λ (m : MediaSegment Bytes).
          (place : ℕ) × (find m.uri v.cache.cache_items ≡ some (segment_item m.uri place)))
        (listed v.heap v.stream.segments)
handle_playlist-IsServed_example =
    handle_playlist-IsServed name (pos 6) text cdn stream playlist distinct parsed
      (refl, (refl, (refl, tt))) stream-IsServed

abbrev held : List (ℤ × ℕ)
held = (pos 1, 0) ∷ (pos 2, 1) ∷ (pos 3, 2) ∷ []

evict_while-evict_example :
    evict_while {F = TestFile} {D = Bytes} 1 [] 4 held (cache_init none none)
    ≡ some (evict {D = Bytes} 1 [] held (cache_init none none))
evict_while-evict_example = evict_while-evict 1 [] 4 held (cache_init none none) (omega arith)

two_rounds : (evict {F = TestFile} {D = Bytes} 1 [] held (cache_init none none)).0 ≡ (pos 3, 2) ∷ []
unfolding evict
two_rounds = refl
