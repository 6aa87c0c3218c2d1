-- ===== src/Hls/Primary/RoundTrip.antt =====
-- What the constructor of HlsPrimaryPlaylist reads from the text that `to_string` writes.
use rt_mbms_mw.Prelude.{
  true, false, List, [], ◌∷◌, ◌++◌, ◌≡◌, refl, ap, ◌∙◌, arith, All, append_assoc, append-nil, map,
}
use rt_mbms_mw.Prelude.Decimal.{atoi, show_nat, show_nat-Lacks}
use rt_mbms_mw.Prelude.Float.{Float, Prints}
use rt_mbms_mw.Prelude.Int.{pos}
use rt_mbms_mw.Prelude.Key.{Bytes, equal}
use rt_mbms_mw.Prelude.Result.{ok, ◌>>=◌, Result_map}
use rt_mbms_mw.Prelude.Text.{
  codes, starts_with, after_last, lines, trim, IsSolid, trim-solid, after_last-append, is_solid,
  has-Lacks, IsSolid-append, has, IsWord, IsWord-append, IsWord-literal,
}
use rt_mbms_mw.Hls.Media.{line_of}
use rt_mbms_mw.Hls.Media.RoundTrip.{lines-line_of}
use rt_mbms_mw.Hls.Primary.Parameters.{
  IsPlain, IsQuotable, Parameter, IsWritable, render, parse_parameters, parse_parameters-render,
}
use rt_mbms_mw.Hls.Primary.{
  PrimaryStream, HlsPrimaryPlaylist, PrimaryParser, no_attributes, read_parameters, uri_line,
  primary_line, primary_lines, primary_init, primary_first, primary_parse, print_parameters,
  primary_print_streams, primary_to_string,
}

key-IsPlain : (k : Bytes) → has b'"' k ≡ false → has b',' k ≡ false → has b'=' k ≡ false → IsPlain k
key-IsPlain k a b c = record {
  no_quote = has-Lacks _ k a;
  no_comma = has-Lacks _ k b;
  no_equals = has-Lacks _ k c;
}

module _ {D : Type 0} ⦃float : Float D⦄ where
  -- The stream is printable: its texts are words without the signs that the format uses.
  pub record IsPrintableStream (s : PrimaryStream D) : Type 0 where
    pub uri_solid : IsSolid s.uri
    pub uri_path : (u : Bytes) × (s.uri ≡ b'/' ∷ u)
    pub resolution_word : IsWord s.resolution
    pub resolution_plain : IsPlain s.resolution
    pub codecs_word : IsWord s.codecs
    pub codecs_quotable : IsQuotable s.codecs
    pub frame_rate_prints : Prints float.atof float.show_fixed s.frame_rate
    pub frame_rate_plain : IsPlain (float.show_fixed s.frame_rate)

  -- The parameters that are written behind the first.
  abbrev later_parameters : PrimaryStream D → List Parameter
  later_parameters s =
      record { key = codes "RESOLUTION"; value = s.resolution; quoted = false }
      ∷ record { key = codes "FRAME-RATE"; value = float.show_fixed s.frame_rate; quoted = false }
      ∷ record { key = codes "CODECS"; value = s.codecs; quoted = true }
      ∷ []

  abbrev first_parameter : PrimaryStream D → Parameter
  first_parameter s = record {
    key = codes "BANDWITH";
    value = show_nat s.bandwidth;
    quoted = false;
  }

  print_parameters-render :
      (s : PrimaryStream D) → print_parameters s ≡ render (first_parameter s) (later_parameters s)
  unfolding print_parameters
  print_parameters-render s = simp append_assoc

  parameters-IsWritable :
      (s : PrimaryStream D)
      → IsPrintableStream s
      → All IsWritable (first_parameter s ∷ later_parameters s)
  unfolding has
  parameters-IsWritable s h = (
    record {
      plain_key = key-IsPlain _ refl refl refl;
      writable_value = record {
        no_quote = (show_nat-Lacks s.bandwidth _ refl).1;
        no_comma = (show_nat-Lacks s.bandwidth _ refl).1;
        no_equals = (show_nat-Lacks s.bandwidth _ refl).1;
      };
    },
    (
      record { plain_key = key-IsPlain _ refl refl refl; writable_value = h.resolution_plain },
      (
        record { plain_key = key-IsPlain _ refl refl refl; writable_value = h.frame_rate_plain },
        (
          record { plain_key = key-IsPlain _ refl refl refl; writable_value = h.codecs_quotable },
          tt,
        ),
      ),
    ),
  )

  -- What is read of a stream: all but the bandwidth, behind the base path.
  abbrev pub reread : Bytes → PrimaryStream D → PrimaryStream D
  reread base_path s = record s { uri = base_path ++ s.uri; bandwidth = 0 }

  read_parameters-print :
      (s : PrimaryStream D)
      → IsPrintableStream s
      → read_parameters no_attributes (parse_parameters (print_parameters s))
        ≡ record s { uri = []; bandwidth = 0 }
  unfolding read_parameters equal
  read_parameters-print s h =
      rw
        (
          print_parameters-render s,
          parse_parameters-render (first_parameter s) (later_parameters s)
              (parameters-IsWritable s h),
        )
        (ground (arith, h.frame_rate_prints.exact))

  print_parameters-IsWord :
      (s : PrimaryStream D) → IsPrintableStream s → IsWord (print_parameters s)
  unfolding print_parameters is_solid has
  print_parameters-IsWord s h =
      let f = h.frame_rate_prints in
      IsWord-literal (codes "BANDWITH=") _ refl refl (
        IsWord-append (show_nat s.bandwidth) _ (show_nat-Lacks s.bandwidth b':' refl) (
          IsWord-literal (codes ",RESOLUTION=") _ refl refl (
            IsWord-append s.resolution _ h.resolution_word (
              IsWord-literal (codes ",FRAME-RATE=") _ refl refl (
                IsWord-append (float.show_fixed s.frame_rate) _ (f.solid, f.no_colon)
                  (IsWord-literal (codes ",CODECS=\"") _ refl refl (
                    IsWord-append s.codecs _ h.codecs_word
                      (IsWord-literal (codes "\"") [] refl refl (tt, tt)))))))))

  primary_lines-line :
      (b : Bytes) (p : PrimaryParser D) (l rest : Bytes)
      → IsSolid l
      → primary_lines b p (lines (line_of l rest))
        ≡ (primary_line b p l >>= λ q. primary_lines b q (lines rest))
  unfolding primary_lines
  primary_lines-line b p l rest h = rw (lines-line_of l rest h, primary_lines, trim-solid l h) refl

  primary_lines-parameters :
      (b : Bytes) (p : PrimaryParser D) (s : PrimaryStream D) (rest : Bytes)
      → IsPrintableStream s
      → p.attributes ≡ no_attributes
      → primary_lines b p (lines (line_of (codes "#EXT-X-STREAM-INF:" ++ print_parameters s) rest))
        ≡ primary_lines b
            (record p { attributes = record s { uri = []; bandwidth = 0 } })
            (lines rest)
  unfolding is_solid has primary_line starts_with
  primary_lines-parameters b p s rest h e =
      let (u, v) = print_parameters-IsWord s h in
      primary_lines-line b p (codes "#EXT-X-STREAM-INF:" ++ print_parameters s) rest
        (IsSolid-append (codes "#EXT-X-STREAM-INF:") (print_parameters s) refl u)
      ∙ rw (
        after_last-append b':' (codes "#EXT-X-STREAM-INF") (print_parameters s) v,
        e,
        read_parameters-print s h,
      )

  primary_lines-uri :
      (b : Bytes) (p : PrimaryParser D) (u l rest : Bytes)
      → l ≡ b'/' ∷ u
      → IsSolid l
      → primary_lines b p (lines (line_of l rest)) ≡ primary_lines b (uri_line b p l) (lines rest)
  unfolding primary_line starts_with equal
  primary_lines-uri b p u l rest e h = primary_lines-line b p l rest h ∙ rw e

  uri_line-attributes :
      (b : Bytes) (p : PrimaryParser D) (l : Bytes) → (uri_line b p l).attributes ≡ no_attributes
  unfolding uri_line
  uri_line-attributes b p l = refl

  uri_line-streams :
      (b : Bytes) (p : PrimaryParser D) (l : Bytes) (ss : List (PrimaryStream D))
      → ok
          (record ((uri_line b p l).playlist) { streams = (uri_line b p l).playlist.streams ++ ss })
        ≡ ok (record (p.playlist) {
          streams = p.playlist.streams ++ (record (p.attributes) { uri = b ++ l } ∷ ss);
        })
  unfolding uri_line
  uri_line-streams b p l ss = rw append_assoc

  primary_lines-streams :
      (b : Bytes) (p : PrimaryParser D) (ss : List (PrimaryStream D))
      → All IsPrintableStream ss
      → p.attributes ≡ no_attributes
      → Result_map
          (λ (q : PrimaryParser D). q.playlist)
          (primary_lines b p (lines (primary_print_streams ss)))
        ≡ ok (record (p.playlist) { streams = p.playlist.streams ++ map (reread b) ss })
  unfolding primary_print_streams
  primary_lines-streams b p [] h e = unfold primary_lines lines in rw append-nil
  primary_lines-streams b p (s ∷ ss) (h, hs) e =
      let p₁ = record p { attributes = record s { uri = []; bandwidth = 0 } } in
      ap (Result_map (λ (q : PrimaryParser D). q.playlist)) (
        primary_lines-parameters b p s _ h e
        ∙ primary_lines-uri b p₁ h.uri_path.0 s.uri _ h.uri_path.1 h.uri_solid)
      ∙ primary_lines-streams b (uri_line b p₁ s.uri) ss hs (uri_line-attributes b p₁ s.uri)
      ∙ uri_line-streams b p₁ s.uri (map (reread b) ss)

  primary_first-header :
      (b rest : Bytes)
      → primary_first {D = D} b
          (lines (line_of (codes "#EXTM3U") (line_of (codes "#EXT-X-VERSION:3") rest)))
        ≡ primary_lines b
            (record primary_init { playlist = record { version = pos 3; streams = [] } })
            (lines rest)
  unfolding primary_first lines trim equal primary_lines primary_line starts_with after_last atoi
  primary_first-header b rest = refl

  -- The text that `to_string` writes for printable streams is accepted, and gives back every
  -- stream with its URI (behind the base path), resolution, codecs and frame rate, in order, but
  -- with bandwidth 0, whatever its bandwidth was: the writer spells the name `BANDWITH`.
  pub primary_parse-to_string :
      (base_path : Bytes) (pl : HlsPrimaryPlaylist D)
      → All IsPrintableStream pl.streams
      → primary_parse (primary_to_string pl) base_path
        ≡ ok (record { version = pos 3; streams = map (reread base_path) pl.streams })
  unfolding primary_parse primary_to_string
  primary_parse-to_string b pl h =
      ap (Result_map (λ (q : PrimaryParser D). q.playlist)) (primary_first-header b _)
      ∙ primary_lines-streams b _ pl.streams h refl
