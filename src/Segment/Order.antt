-- ===== src/Segment/Order.antt =====
-- The orders in which the data of a segment come in, and in which it is read.
use rt_mbms_mw.Prelude.{ℕ, true, List, [], ◌∷◌, ◌++◌, some, ◌≡◌, refl, arith, All, ◌%◌, ◌^◌, ◌∙◌}
use rt_mbms_mw.Cdn.{Http, CdnFile}
use rt_mbms_mw.Flute.{Flute}
use rt_mbms_mw.Segment.{
  Segment, broadcast, set_flute_file, segment_fetched, fetch_from_cdn, segment_buffer,
  segment_content_length, data_source, complete_file,
}

-- What happens to a segment: a broadcast file is set, the callback of a fetch runs at a time, or
-- `buffer` is called, which may start a fetch and run its callback.
pub data SegmentEvent (F : Type 0) : Type 0 where
  broadcast_file : F → SegmentEvent F
  answered : ℕ → CdnFile → SegmentEvent F
  read : Http → ℕ → SegmentEvent F

-- No broadcast file is set.
abbrev pub IsOther : {F : Type 0} → SegmentEvent F → Type 0
IsOther (broadcast_file f) = ⊥
IsOther (answered now file) = Unit
IsOther (read http now) = Unit

module _ {F D : Type 0} ⦃flute : Flute F⦄ where
  unfoldable pub segment_event : SegmentEvent F → Segment F D → Segment F D
  segment_event (broadcast_file f) s = set_flute_file f s
  segment_event (answered now file) s = segment_fetched now file s
  segment_event (read http now) s = (segment_buffer http now s).1

  unfoldable pub segment_run : List (SegmentEvent F) → Segment F D → Segment F D
  segment_run [] s = s
  segment_run (e ∷ es) s = segment_run es (segment_event e s)

  fetch-flute_file :
      (http : Http) (now : ℕ) (s : Segment F D)
      → (fetch_from_cdn http now s).flute_file ≡ s.flute_file
  unfolding fetch_from_cdn segment_fetched
  fetch-flute_file http now s = ground arith

  read-flute_file :
      (http : Http) (now : ℕ) (s : Segment F D)
      → (segment_buffer http now s).1.flute_file ≡ s.flute_file
  unfolding segment_buffer
  read-flute_file http now s = ground (arith, fetch-flute_file http now s)

  event-flute_file :
      (e : SegmentEvent F) (s : Segment F D)
      → IsOther e
      → (segment_event e s).flute_file ≡ s.flute_file
  unfolding segment_event segment_fetched
  event-flute_file (broadcast_file f) s h = absurd h
  event-flute_file (answered now file) s h = refl
  event-flute_file (read http now) s h = read-flute_file http now s

  run-flute_file :
      (es : List (SegmentEvent F)) (s : Segment F D)
      → All IsOther es
      → (segment_run es s).flute_file ≡ s.flute_file
  unfolding segment_run
  run-flute_file [] s h = refl
  run-flute_file (e ∷ es) s (h, hs) =
      run-flute_file es (segment_event e s) hs ∙ event-flute_file e s h

  run-append :
      (es fs : List (SegmentEvent F)) (s : Segment F D)
      → segment_run (es ++ fs) s ≡ segment_run fs (segment_run es s)
  unfolding segment_run
  run-append [] fs s = refl
  run-append (e ∷ es) fs s = run-append es fs (segment_event e s)

  last-flute_file :
      (es fs : List (SegmentEvent F)) (f : F) (s : Segment F D)
      → All IsOther fs
      → (segment_run (es ++ (broadcast_file f ∷ fs)) s).flute_file ≡ some f
  unfolding segment_run segment_event set_flute_file
  last-flute_file es fs f s h =
      rw (run-append es (broadcast_file f ∷ fs) s)
        (run-flute_file fs (set_flute_file f (segment_run es s)) h)

  -- Take any sequence of reads, answers of the CDN and broadcast files, in any order, in which the
  -- last broadcast file that is set is complete. Behind it the segment gives the bytes of that file
  -- and its length modulo 2^32, reports the broadcast as its source, and reading it changes
  -- nothing: no answer of the CDN takes the place of the file, however late it comes.
  pub segment_run-broadcast :
      (http : Http) (now : ℕ) (es fs : List (SegmentEvent F)) (f : F) (s : Segment F D)
      → flute.complete f ≡ true
      → All IsOther fs
      → let t = segment_run (es ++ (broadcast_file f ∷ fs)) s in
        (segment_buffer http now t ≡ (some (flute.buffer f), t))
        × (segment_content_length t ≡ flute.length f % 2 ^ 32)
        × (data_source t ≡ broadcast)
  unfolding segment_buffer segment_content_length data_source complete_file
  segment_run-broadcast http now es fs f s c h =
      let kept = last-flute_file es fs f s h in (ground arith, ground arith, ground arith)
