-- ===== src/Hls/Media/RoundTrip.antt =====
-- What the constructor of HlsMediaPlaylist reads from the text that `to_string` writes.
use rt_mbms_mw.Prelude.{
  ◌↔◌, List, [], ◌∷◌, ◌++◌, ◌≡◌, refl, sym, ap, ap₂, map, ◌∙◌, arith, All, append_assoc, append-nil,
}
use rt_mbms_mw.Prelude.Decimal.{atoi, show_int, atoi-show_int, show_int-IsSolid}
use rt_mbms_mw.Prelude.Float.{Float, Prints}
use rt_mbms_mw.Prelude.Int.{ℤ, pos, next}
use rt_mbms_mw.Prelude.Key.{Bytes, equal}
use rt_mbms_mw.Prelude.Result.{ok, ◌>>=◌, Result_map}
use rt_mbms_mw.Prelude.Text.{
  codes, starts_with, after_last, lines, trim, IsSolid, trim-solid, lines-append,
  IsSolid-Lacks_newline, after_last-append, is_solid, IsSolid-append,
}
use rt_mbms_mw.Hls.Media.{
  MediaSegment, HlsMediaPlaylist, MediaParser, line_of, uri_line, media_line, media_lines,
  media_init, media_first, media_parse, media_print_segments, media_print_header, media_to_string,
}

-- A line with no white space is read as it was written.
pub lines-line_of : (l rest : Bytes) → IsSolid l → lines (line_of l rest) ≡ l ∷ lines rest
lines-line_of l rest h = lines-append l rest (IsSolid-Lacks_newline l h)

module _ {D : Type 0} ⦃float : Float D⦄ where
  -- The segment is printable: its URI is one word, and its duration survives printing.
  pub record IsPrintable (s : MediaSegment D) : Type 0 where
    pub uri_solid : IsSolid s.uri
    pub extinf_prints : Prints float.atof float.show s.extinf

  -- The segments as a client numbers them: from `n` on, and with a `/` in front of each URI.
  abbrev pub numbered : ℤ → List (MediaSegment D) → List (MediaSegment D)
  numbered n [] = []
  numbered n (s ∷ ss) =
      record { uri = b'/' ∷ s.uri; seq = n; extinf = s.extinf } ∷ numbered (next n) ss

  abbrev pub served : List (MediaSegment D) → List (MediaSegment D)
  served [] = []
  served (s ∷ ss) = numbered s.seq (s ∷ ss)

  -- The target duration is written with the segments only.
  abbrev pub served_target : ℤ → ℤ → List (MediaSegment D) → ℤ
  served_target garbage target [] = garbage
  served_target garbage target (s ∷ ss) = target

  media_lines-line :
      (p : MediaParser D) (l rest : Bytes)
      → IsSolid l
      → media_lines p (lines (line_of l rest))
        ≡ (media_line p l >>= λ q. media_lines q (lines rest))
  unfolding media_lines
  media_lines-line p l rest h = rw (lines-line_of l rest h, media_lines, trim-solid l h) refl

  media_line-extinf :
      (p : MediaParser D) (d : D)
      → Prints float.atof float.show d
      → media_line p (codes "#EXTINF:" ++ float.show d) ≡ ok (record p { extinf = d })
  unfolding media_line starts_with
  media_line-extinf p d h =
      ground (arith, after_last-append b':' (codes "#EXTINF") (float.show d) h.no_colon, h.exact)

  media_line-uri :
      (p : MediaParser D) (u : Bytes) → media_line p (b'/' ∷ u) ≡ ok (uri_line p (b'/' ∷ u))
  unfolding media_line starts_with equal
  media_line-uri p u = refl

  read_segment : MediaParser D → MediaSegment D → MediaParser D
  read_segment p s = uri_line (record p { extinf = s.extinf }) (b'/' ∷ s.uri)

  read_segments : MediaParser D → List (MediaSegment D) → MediaParser D
  unfolding read_segment
  read_segments p [] = p
  read_segments p (s ∷ ss) = read_segments (read_segment p s) ss

  media_lines-extinf :
      (p : MediaParser D) (d : D) (rest : Bytes)
      → Prints float.atof float.show d
      → media_lines p (lines (line_of (codes "#EXTINF:" ++ float.show d) rest))
        ≡ media_lines (record p { extinf = d }) (lines rest)
  unfolding is_solid
  media_lines-extinf p d rest h =
      media_lines-line p (codes "#EXTINF:" ++ float.show d) rest
        (IsSolid-append (codes "#EXTINF:") (float.show d) refl h.solid)
      ∙ rw (media_line-extinf p d h)

  media_lines-uri :
      (p : MediaParser D) (u rest : Bytes)
      → IsSolid u
      → media_lines p (lines (line_of (b'/' ∷ u) rest))
        ≡ media_lines (uri_line p (b'/' ∷ u)) (lines rest)
  unfolding is_solid
  media_lines-uri p u rest h =
      media_lines-line p (b'/' ∷ u) rest (IsSolid-append (codes "/") u refl h)
      ∙ rw (media_line-uri p u)

  media_lines-segments :
      (p : MediaParser D) (ss : List (MediaSegment D))
      → All IsPrintable ss
      → media_lines p (lines (media_print_segments ss)) ≡ ok (read_segments p ss)
  unfolding media_print_segments read_segments
  media_lines-segments p [] h = unfold media_lines lines in refl
  media_lines-segments p (s ∷ ss) (h, hs) =
      media_lines-extinf p s.extinf _ h.extinf_prints
      ∙ media_lines-uri (record p { extinf = s.extinf }) s.uri _ h.uri_solid
      ∙ media_lines-segments (read_segment p s) ss hs

  read_segments-playlist :
      (p : MediaParser D) (ss : List (MediaSegment D))
      → (read_segments p ss).playlist
        ≡ record (p.playlist) { segments = p.playlist.segments ++ numbered p.seq_nr ss }
  unfolding read_segments uri_line
  read_segments-playlist p [] = rw append-nil
  read_segments-playlist p (s ∷ ss) = read_segments-playlist (read_segment p s) ss ∙ rw append_assoc

  media_line-number :
      (p : MediaParser D) (z n : ℤ) (rest : Bytes)
      → media_lines p (
          lines (
            line_of
              (codes "#EXT-X-TARGETDURATION:" ++ show_int z)
              (line_of (codes "#EXT-X-MEDIA-SEQUENCE:" ++ show_int n) rest)))
        ≡ media_lines
            (record p { playlist = record (p.playlist) { targetduration = z }; seq_nr = n })
            (lines rest)
  unfolding is_solid media_line starts_with
  media_line-number p z n rest =
      let (u, v) = show_int-IsSolid z in
      let (u', v') = show_int-IsSolid n in
      media_lines-line p (codes "#EXT-X-TARGETDURATION:" ++ show_int z) _
        (IsSolid-append (codes "#EXT-X-TARGETDURATION:") (show_int z) refl u)
      ∙ rw (after_last-append b':' (codes "#EXT-X-TARGETDURATION") (show_int z) v, atoi-show_int z)
          (media_lines-line _ (codes "#EXT-X-MEDIA-SEQUENCE:" ++ show_int n) rest
              (IsSolid-append (codes "#EXT-X-MEDIA-SEQUENCE:") (show_int n) refl u')
            ∙ rw (
              after_last-append b':' (codes "#EXT-X-MEDIA-SEQUENCE") (show_int n) v',
              atoi-show_int n,
            ))

  media_lines-body :
      (p : MediaParser D) (target : ℤ) (ss : List (MediaSegment D))
      → All IsPrintable ss
      → p.playlist.segments ≡ []
      → Result_map
          (λ (q : MediaParser D). q.playlist)
          (media_lines p (lines (media_print_header target ss (media_print_segments ss))))
        ≡ ok (record (p.playlist) {
          targetduration = served_target p.playlist.targetduration target ss;
          segments = served ss;
        })
  unfolding media_print_header
  media_lines-body p target [] h e =
      rw (media_lines-segments p [] h) (unfold read_segments in ground arith)
  media_lines-body p target (s ∷ ss) h e =
      rw (media_line-number p target s.seq (media_print_segments (s ∷ ss)))
        (rw (media_lines-segments _ (s ∷ ss) h) (ap ok (read_segments-playlist _ (s ∷ ss) ∙ rw e)))

  media_first-header :
      (garbage : ℤ) (rest : Bytes)
      → media_first {D = D} garbage
          (lines (line_of (codes "#EXTM3U") (line_of (codes "#EXT-X-VERSION:3") rest)))
        ≡ media_lines
            (let p = media_init garbage in
              record p { playlist = record (p.playlist) { version = pos 3 } })
            (lines rest)
  unfolding media_first lines trim equal media_lines media_line starts_with after_last atoi
  media_first-header garbage rest = refl

  -- The text that `to_string` writes for printable segments is accepted, and read as version 3,
  -- the target duration (if there is a segment), and the segments with a `/` in front of each URI
  -- and numbered one after the other from the first segment's number on.
  pub media_parse-to_string :
      (garbage : ℤ) (pl : HlsMediaPlaylist D)
      → All IsPrintable pl.segments
      → media_parse garbage (media_to_string pl)
        ≡ ok (record {
          version = pos 3;
          targetduration = served_target garbage pl.targetduration pl.segments;
          segments = served pl.segments;
        })
  unfolding media_parse media_to_string
  media_parse-to_string garbage pl h =
      ap (Result_map (λ (q : MediaParser D). q.playlist)) (media_first-header garbage _)
      ∙ media_lines-body _ pl.targetduration pl.segments h refl

  abbrev pub seqs : List (MediaSegment D) → List ℤ
  seqs = map (λ s. s.seq)

  -- The sequence numbers go up by one from `n` on.
  abbrev pub ConsecutiveFrom : ℤ → List (MediaSegment D) → Type 0
  ConsecutiveFrom n [] = Unit
  ConsecutiveFrom n (s ∷ ss) = (s.seq ≡ n) × ConsecutiveFrom (next n) ss

  abbrev pub Consecutive : List (MediaSegment D) → Type 0
  Consecutive [] = Unit
  Consecutive (s ∷ ss) = ConsecutiveFrom (next s.seq) ss

  numbered-ConsecutiveFrom :
      (n : ℤ) (ss : List (MediaSegment D)) → (seqs (numbered n ss) ≡ seqs ss) ↔ ConsecutiveFrom n ss
  numbered-ConsecutiveFrom n [] = (λ _. tt, λ _. refl)
  numbered-ConsecutiveFrom n (s ∷ ss) =
      let (to, from) = numbered-ConsecutiveFrom (next n) ss in
      (λ e. (cc, to (cc)), λ (e, c). ap₂ ◌∷◌ (sym e) (from c))

  served-Consecutive : (ss : List (MediaSegment D)) → (seqs (served ss) ≡ seqs ss) ↔ Consecutive ss
  served-Consecutive [] = (λ _. tt, λ _. refl)
  served-Consecutive (s ∷ ss) =
      let (to, from) = numbered-ConsecutiveFrom (next s.seq) ss in
      (λ e. to (cc), λ c. ap (◌∷◌ s.seq) (from c))

  -- Read back, a printed playlist of printable segments has the sequence numbers of the original exactly if these
  -- go up by one from segment to segment.
  pub media_to_string-seqs :
      (garbage : ℤ) (pl : HlsMediaPlaylist D)
      → All IsPrintable pl.segments
      → (q : HlsMediaPlaylist D) × (media_parse garbage (media_to_string pl) ≡ ok q)
        × ((seqs q.segments ≡ seqs pl.segments) ↔ Consecutive pl.segments)
  media_to_string-seqs garbage pl h =
      (_, media_parse-to_string garbage pl h, served-Consecutive pl.segments)
