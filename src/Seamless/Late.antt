-- ===== src/Seamless/Late.antt =====
-- What the events of a stream, files and timer ticks, do to its segments.
use rt_mbms_mw.Prelude.Text.{codes}
use rt_mbms_mw.Prelude.{
  ℕ, suc, Bool, true, false, List, [], ◌∷◌, Option, none, some, ◌≡◌, refl, ap, ◌∙◌, inl, inr,
  if◌then◌else◌, ltb, subst, Option-cases, Bool-cases, not, append-nil, append_assoc, sym, ◌++◌,
  length, length-append, arith, ◌≤◌,
}
use rt_mbms_mw.Prelude.Float.{Float}
use rt_mbms_mw.Prelude.Int.{ℤ}
use rt_mbms_mw.Prelude.Key.{Bytes, equal, int_key}
use rt_mbms_mw.Prelude.Map.{find}
use rt_mbms_mw.Prelude.Result.{Result, ok, ◌>>=◌, Result_map-eq-ok, >>=-eq-ok, ok_inj}
use rt_mbms_mw.Cdn.{Http, CdnFile, CdnClient}
use rt_mbms_mw.Flute.{Flute, file_text}
use rt_mbms_mw.Hls.Media.{MediaSegment, HlsMediaPlaylist, media_parse}
use rt_mbms_mw.Segment.{ItemSource, broadcast, cdn, Segment}
use rt_mbms_mw.Seamless.{
  StreamState, admit, admit_loop, add_segment, evict_oldest, regenerate, take_playlist,
  handle_playlist, seamless_file_received, fetched, seamless_tick,
}

-- What happens to a stream: a file arrives, or its timer fires and the CDN answers.
pub data StreamEvent (F : Type 0) : Type 0 where
  received : F → StreamEvent F
  ticked : Http → StreamEvent F

module _ {F D : Type 0} where
  -- The segments of `v` are still there in `w`, at their places, and the same.
  pub record Extends (v w : StreamState F D) : Type 0 where
    pub more : List (Segment F D)
    pub grown : v.heap ++ more ≡ w.heap

  Extends-refl : (w : StreamState F D) → Extends w w
  Extends-refl w = record { more = []; grown = append-nil w.heap }

  Extends-trans : {u v w : StreamState F D} → Extends u v → Extends v w → Extends u w
  Extends-trans {u} {v} {w} a b = record {
    more = a.more ++ b.more;
    grown = sym (append_assoc u.heap a.more b.more) ∙ ap (λ l. l ++ b.more) a.grown ∙ b.grown;
  }

  same_heap : (w v w' : StreamState F D) → v.heap ≡ w.heap → ok v ≡ ok w' → Extends w w'
  same_heap w v w' h e =
      subst (λ u. Extends w u) (ok_inj e) (record { more = []; grown = append-nil w.heap ∙ sym h })

module _ {F D : Type 0} ⦃flute : Flute F⦄ where
  add_segment-Extends : (m : MediaSegment D) (w : StreamState F D) → Extends w (add_segment m w)
  unfolding add_segment
  add_segment-Extends m w = record { more = _ ∷ []; grown = refl }

  admit-Extends : (m : MediaSegment D) (w : StreamState F D) → Extends w (admit m w)
  unfolding admit
  admit-Extends m w = elim (Option-cases (find m.seq w.stream.segments)) [
    | inl absent ↦ rw (absent, admit) (add_segment-Extends m w)
    | inr (place, present) ↦ rw (present, admit) (Extends-refl w)
  ]

  admit_loop-Extends :
      (count idx : ℕ) (ms : List (MediaSegment D)) (w : StreamState F D)
      → Extends w (admit_loop count idx ms w)
  unfolding admit_loop
  admit_loop-Extends count idx [] w = Extends-refl w
  admit_loop-Extends count idx (m ∷ ms) w = elim (Bool-cases (ltb count idx)) [
    | inl last ↦ rw last (admit-Extends m w)
    | inr more ↦
        rw more
          (Extends-trans (admit-Extends m w) (admit_loop-Extends count (suc idx) ms (admit m w)))
  ]

  module _ ⦃float : Float D⦄ where
    publish-Extends : (z : ℤ) (w : StreamState F D) → Extends w (regenerate z (evict_oldest w))
    unfolding regenerate evict_oldest
    publish-Extends z w = record { more = []; grown = append-nil w.heap }

    take_playlist-Extends :
        (pl : HlsMediaPlaylist D) (source : ItemSource) (w : StreamState F D)
        → Extends w (take_playlist pl source w)
    unfolding take_playlist
    take_playlist-Extends pl source w =
        Extends-trans (admit_loop-Extends _ 0 pl.segments w) (publish-Extends pl.targetduration _)

    handle_playlist-Extends :
        (garbage : ℤ) (content : Bytes) (source : ItemSource) (w w' : StreamState F D)
        → handle_playlist garbage content source w ≡ ok w'
        → Extends w w'
    unfolding handle_playlist
    handle_playlist-Extends garbage content source w w' e =
        let (pl, p, q) =
          Result_map-eq-ok (λ pl. take_playlist pl source w) (media_parse garbage content) e in
        subst (λ v. Extends w v) q (take_playlist-Extends pl source w)

    file_received-Extends :
        (garbage : ℤ) (file : F) (w w' : StreamState F D)
        → seamless_file_received garbage file w ≡ ok w'
        → Extends w w'
    unfolding seamless_file_received
    file_received-Extends garbage file w w' =
        elim (Bool-cases
          (equal (flute.content_location file) w.stream.content_stream.playlist_path)) [
            | inl playlist ↦
                rw playlist (handle_playlist-Extends garbage (file_text file) broadcast w w')
            | inr other ↦
                elim (Bool-cases (equal (flute.content_location file) (codes "index.m3u8"))) [
                  | inl index ↦ rw (other, index) (same_heap w w w' refl)
                  | inr file ↦ rw (other, file) (same_heap w _ w' refl)
                ]
          ]

    fetched-Extends :
        (garbage : ℤ) (answer : Option CdnFile) (w w' : StreamState F D)
        → fetched garbage answer w ≡ ok w'
        → Extends w w'
    unfolding fetched
    fetched-Extends garbage none w w' = same_heap w w w' refl
    fetched-Extends garbage (some file) w w' = handle_playlist-Extends garbage _ cdn w w'

    asked-Extends :
        (garbage : ℤ) (running : Bool) (asked : Option CdnClient)
        (answer : CdnClient → Option CdnFile) (w w' : StreamState F D)
        → (if not running
            then ok w
            else elim asked [ none ↦ ok w | some client ↦ fetched garbage (answer client) w ])
          ≡ ok w'
        → Extends w w'
    asked-Extends garbage false asked answer w w' = same_heap w w w' refl
    asked-Extends garbage true none answer w w' = same_heap w w w' refl
    asked-Extends garbage true (some client) answer w w' =
        fetched-Extends garbage (answer client) w w'

    tick-Extends :
        (http : Http) (garbage : ℤ) (w w' : StreamState F D)
        → seamless_tick http garbage w ≡ ok w'
        → Extends w w'
    unfolding seamless_tick
    tick-Extends http garbage w w' =
        asked-Extends garbage w.stream.running w.stream.cdn_client _ w w'

    unfoldable pub stream_event : ℤ → StreamEvent F → StreamState F D → Result (StreamState F D)
    stream_event garbage (received file) w = seamless_file_received garbage file w
    stream_event garbage (ticked http) w = seamless_tick http garbage w

    unfoldable pub stream_run :
        ℤ → List (StreamEvent F) → StreamState F D → Result (StreamState F D)
    stream_run garbage [] w = ok w
    stream_run garbage (e ∷ es) w = stream_event garbage e w >>= λ v. stream_run garbage es v

    stream_event-Extends :
        (garbage : ℤ) (e : StreamEvent F) (w w' : StreamState F D)
        → stream_event garbage e w ≡ ok w'
        → Extends w w'
    unfolding stream_event
    stream_event-Extends garbage (received file) w w' h = file_received-Extends garbage file w w' h
    stream_event-Extends garbage (ticked http) w w' h = tick-Extends http garbage w w' h

    -- If a run of received files and timer ticks ends without an exception, the segments that were
    -- there are at the same places and unchanged, and new ones stand behind them. So the broadcast
    -- file of a segment is not assigned when it arrives behind the entry in a playlist.
    pub stream_run-Extends :
        (garbage : ℤ) (es : List (StreamEvent F)) (w w' : StreamState F D)
        → stream_run garbage es w ≡ ok w'
        → Extends w w'
    unfolding stream_run
    stream_run-Extends garbage [] w w' h = subst (λ v. Extends w v) (ok_inj h) (Extends-refl w)
    stream_run-Extends garbage (e ∷ es) w w' h =
        let (v, p, q) = >>=-eq-ok (stream_event garbage e w) (λ v. stream_run garbage es v) h in
        Extends-trans (stream_event-Extends garbage e w v p) (stream_run-Extends garbage es v w' q)

module _ {F D : Type 0} where
  Extends-le : {v w : StreamState F D} → Extends v w → length v.heap ≤ length w.heap
  Extends-le {v} {w} x =
      let grown : length (v.heap ++ x.more) ≡ length w.heap = ap length x.grown in
      omega (arith, grown, length-append v.heap x.more)

  module _ ⦃flute : Flute F⦄ ⦃float : Float D⦄ where
    pub file_received-le :
        (garbage : ℤ) (file : F) (w w' : StreamState F D)
        → seamless_file_received garbage file w ≡ ok w'
        → length w.heap ≤ length w'.heap
    file_received-le garbage file w w' e = Extends-le (file_received-Extends garbage file w w' e)

    pub tick-le :
        (http : Http) (garbage : ℤ) (w w' : StreamState F D)
        → seamless_tick http garbage w ≡ ok w'
        → length w.heap ≤ length w'.heap
    tick-le http garbage w w' e = Extends-le (tick-Extends http garbage w w' e)

    pub fetched-le :
        (garbage : ℤ) (answer : Option CdnFile) (w w' : StreamState F D)
        → fetched garbage answer w ≡ ok w'
        → length w.heap ≤ length w'.heap
    fetched-le garbage answer w w' e = Extends-le (fetched-Extends garbage answer w w' e)
