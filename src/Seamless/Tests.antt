-- ===== src/Seamless/Tests.antt =====
-- Runs of a seamless stream, and its theorems at concrete streams.
use rt_mbms_mw.Prelude.Map.{find, insert}
use rt_mbms_mw.Prelude.{
  ℕ, ◌-◌, ◌+◌, ◌≤◌, List, [], ◌∷◌, ◌++◌, none, some, ◌≡◌, refl, arith, if◌then◌else◌, ltb, length,
  take, zero, suc, map,
}
use rt_mbms_mw.Prelude.Decimal.{to_u64, atoi}
use rt_mbms_mw.Prelude.Int.{pos}
use rt_mbms_mw.Prelude.Key.{Bytes, equal}
use rt_mbms_mw.Prelude.Result.{Result, ok}
use rt_mbms_mw.Prelude.Text.{codes, starts_with, after_last, lines, trim}
use rt_mbms_mw.Cache.{cache_init}
use rt_mbms_mw.Cdn.{response}
use rt_mbms_mw.Flute.Tests.{TestFile, test_flute}
use rt_mbms_mw.Hls.Media.{MediaSegment, HlsMediaPlaylist, media_parse, media_lines, media_line}
use rt_mbms_mw.Hls.Media.Tests.{text_float}
use rt_mbms_mw.Segment.{broadcast, cdn, segment_init}
use rt_mbms_mw.Stream.{hls, stream_init}
use rt_mbms_mw.Seamless.{
  StreamState, seamless_init, take_playlist, handle_playlist, admit_loop, admit, evict,
  seamless_tick, seamless_file_received, entry_count,
}
use rt_mbms_mw.Seamless.Window.{publish, admit_all, take_playlist-window, handle_playlist-length-le}
use rt_mbms_mw.Seamless.Late.{
  StreamEvent, received, ticked, stream_run, Extends, stream_run-Extends, stream_event,
}

abbrev eol : Bytes
eol = b'\n' ∷ []

abbrev playlist_text : Bytes
playlist_text =
    codes "#EXTM3U"
    ++ (eol
        ++ (codes "#EXT-X-TARGETDURATION:6"
            ++ (eol
                ++ (codes "#EXT-X-MEDIA-SEQUENCE:41"
                    ++ (eol
                        ++ (codes "#EXTINF:5.9"
                            ++ (eol
                                ++ (codes "s41.ts"
                                    ++ (eol
                                        ++ (codes "#EXTINF:6.0" ++ (eol ++ codes "s42.ts")))))))))))

-- A stream that keeps one segment.
abbrev stream : StreamState TestFile Bytes
stream = record {
  stream =
      record (seamless_init (stream_init (record { bandwidth = 0; frame_rate = [] }) [] [] hls)
        (some (pos 1)) none) { playlist_dir = codes "a/" };
  heap = [];
  cache = cache_init none none;
}

-- The state behind a run that succeeds.
abbrev state_of : Result (StreamState TestFile Bytes) → StreamState TestFile Bytes
state_of (ok w) = w
state_of _ = stream

abbrev after : StreamState TestFile Bytes
after = state_of (handle_playlist (pos 0) playlist_text broadcast stream)

after_ok : handle_playlist (pos 0) playlist_text broadcast stream ≡ ok after
unfolding handle_playlist media_parse media_lines media_line starts_with after_last lines trim equal
    atoi
after_ok = refl

second_only : after.stream.segments ≡ (pos 42, 1) ∷ []
unfolding handle_playlist media_parse media_lines media_line starts_with after_last lines trim equal
    atoi take_playlist admit_loop admit evict find insert seamless_init entry_count
second_only = refl

handle_playlist-length-le_example :
    length after.stream.segments ≤ to_u64 after.stream.segments_to_keep
handle_playlist-length-le_example =
    handle_playlist-length-le (pos 0) playlist_text broadcast stream after after_ok

-- A playlist with nine entries.
abbrev nine : HlsMediaPlaylist Bytes
nine = record { version = pos 3; targetduration = pos 6; segments = entries 9 }
  where
    entries : ℕ → List (MediaSegment Bytes)
    entries zero = []
    entries (suc n) = record { uri = codes "s"; seq = pos n; extinf = codes "6" } ∷ entries n

default_truncation : stream.stream.truncate_cdn_playlist_segments ≡ pos 7
unfolding seamless_init
default_truncation = refl

take_playlist-window_example :
    (take_playlist nine cdn stream
      ≡ publish nine (
          admit_all
            (if ltb (length nine.segments) 7
              then nine.segments
              else take (length nine.segments - 7 + 2) nine.segments)
            stream))
    × (take_playlist nine broadcast stream ≡ publish nine (admit_all nine.segments stream))
take_playlist-window_example =
    take_playlist-window nine stream 7 default_truncation (omega arith) (omega arith)

-- The file of the segment, which comes behind the playlist.
abbrev early : TestFile
early = record { location = codes "a/s41.ts"; content = codes "radio"; time = 7 }

abbrev events : List (StreamEvent TestFile)
events = ticked (λ base path. response 404 []) ∷ received early ∷ []

-- A stream with one segment, which is waiting for its file.
abbrev waiting : StreamState TestFile Bytes
waiting = record stream {
  stream = record (stream.stream) { segments = (pos 41, 0) ∷ [] };
  heap = segment_init (codes "a/s41.ts") (pos 41) (codes "5.9") ∷ [];
}

abbrev late : StreamState TestFile Bytes
late = state_of (stream_run (pos 0) events waiting)

late_ok : stream_run (pos 0) events waiting ≡ ok late
unfolding stream_run stream_event seamless_tick seamless_file_received seamless_init stream_init
    equal
late_ok = refl

still_waiting : map (λ s. s.flute_file) late.heap ≡ none ∷ []
unfolding stream_run stream_event seamless_tick seamless_file_received seamless_init stream_init
    equal
still_waiting = refl

stream_run-Extends_example : Extends waiting late
stream_run-Extends_example = stream_run-Extends (pos 0) events waiting late late_ok
