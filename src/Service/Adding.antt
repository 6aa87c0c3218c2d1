-- ===== src/Service/Adding.antt =====
-- What `add_and_start_content_stream` makes of a service and a stream.
use rt_mbms_mw.Prelude.{
  ℕ, Bool, true, false, List, [], some, ◌≡◌, refl, sym, ap, ◌∙◌, inl, inr, All, map, if◌then◌else◌,
  get_elem?, set, get_elem?-set, Bool-cases, subst,
}
use rt_mbms_mw.Prelude.Float.{Float}
use rt_mbms_mw.Prelude.Int.{pos}
use rt_mbms_mw.Prelude.Key.{bytes_key, equal}
use rt_mbms_mw.Prelude.Map.{find, insert, find-insert_self}
use rt_mbms_mw.Prelude.Result.{ok, terminate, >>=-eq-ok, ok_inj, >>=-terminate}
use rt_mbms_mw.Prelude.Text.{codes}
use rt_mbms_mw.Hls.Primary.{primary_empty, primary_parse, primary_to_string}
use rt_mbms_mw.Hls.Primary.RoundTrip.{IsPrintableStream, reread, primary_parse-to_string}
use rt_mbms_mw.Stream.{DeliveryProtocol, hls, is_hls, ContentStream, start, dash, rtp}
use rt_mbms_mw.Service.{
  Service, AnyStream, basic, seamless, content_stream, with_content_stream, match_streams,
  listed_streams, recreate_manifest, started, add_and_start_content_stream,
}
use rt_mbms_mw.Service.Matching.{match_streams-session}

module _ {D : Type 0} where
  equal-flute :
      (s : ContentStream D)
      → s.stream_type ≡ codes "FLUTE/UDP"
      → equal s.stream_type (codes "FLUTE/UDP") ≡ true
  equal-flute s e = ap (λ l. equal l (codes "FLUTE/UDP")) e ∙ unfold equal in refl

  start-flute :
      (s t : ContentStream D)
      → s.stream_type ≡ codes "FLUTE/UDP"
      → start s ≡ ok t
      → (t.stream_type ≡ codes "FLUTE/UDP") × (t.flute_thread ≡ true)
  unfolding start
  start-flute s t e = rw (equal-flute s e) (thread_made s.flute_thread)
    where
      thread_made :
          (b : Bool)
          → (if b then terminate else ok (record s { flute_thread = true })) ≡ ok t
          → (t.stream_type ≡ codes "FLUTE/UDP") × (t.flute_thread ≡ true)
      thread_made true h = cc
      thread_made false h = (
        ap (λ (c : ContentStream D). c.stream_type) (sym (ok_inj h)) ∙ e,
        ap (λ (c : ContentStream D). c.flute_thread) (sym (ok_inj h)),
      )

  start_running :
      (s : ContentStream D)
      → s.stream_type ≡ codes "FLUTE/UDP"
      → s.flute_thread ≡ true
      → start s ≡ terminate
  unfolding start
  start_running s e f = rw (equal-flute s e, f) refl

module _ {F D : Type 0} where
  content_stream-with :
      (t : ContentStream D) (a : AnyStream F D) → content_stream (with_content_stream t a) ≡ t
  content_stream-with t (basic s) = refl
  content_stream-with t (seamless s) = refl

  module _ ⦃float : Float D⦄ where
    -- The stream as it is when it is started.
    pub matched : AnyStream F D → Service D → ContentStream D
    matched any s =
        if is_hls s.delivery_protocol
        then match_streams s.hls_primary_playlist.streams (content_stream any)
        else content_stream any

    pub matched-session :
        (any : AnyStream F D) (s : Service D)
        → ((matched any s).stream_type ≡ (content_stream any).stream_type)
          × ((matched any s).flute_thread ≡ (content_stream any).flute_thread)
          × ((matched any s).playlist_path ≡ (content_stream any).playlist_path)
    unfolding matched
    matched-session any s = elim (Bool-cases (is_hls s.delivery_protocol)) [
      | inl is ↦ rw is (match_streams-session s.hls_primary_playlist.streams (content_stream any))
      | inr other ↦ rw other (refl, refl, refl)
    ]

    -- The stream and the service behind a call that comes back.
    pub record Added (place : ℕ) (before : AnyStream F D) (s s' : Service D)
        (streams streams' : List (AnyStream F D)) : Type 0 where
      pub stream : ContentStream D
      pub started_ok : start (matched before s) ≡ ok stream
      pub streams_set : set streams place (with_content_stream stream before) ≡ streams'
      pub service_set :
          recreate_manifest
            (set streams place (with_content_stream stream before))
            (record s {
              content_streams = insert (matched before s).playlist_path place s.content_streams;
            })
            s.delivery_protocol
          ≡ s'

    started-Added :
        (place : ℕ) (any : AnyStream F D) (s s' : Service D)
        (streams streams' : List (AnyStream F D))
        → started place any streams s ≡ ok (s', streams')
        → Added place any s s' streams streams'
    unfolding started matched
    started-Added place any s s' streams streams' e =
        let (t, p, q) = >>=-eq-ok (start (matched any s)) _ e in
        record {
          stream = t;
          started_ok = p;
          streams_set = ap (λ r. r.1) (ok_inj q);
          service_set = ap (λ r. r.0) (ok_inj q);
        }

    pub add-Added :
        (place : ℕ) (any : AnyStream F D) (s s' : Service D)
        (streams streams' : List (AnyStream F D))
        → get_elem? streams place ≡ some any
        → add_and_start_content_stream place streams s ≡ ok (s', streams')
        → Added place any s s' streams streams'
    unfolding add_and_start_content_stream
    add-Added place any s s' streams streams' g =
        rw (g, add_and_start_content_stream) (started-Added place any s s' streams streams')

    -- The service behind the start of a stream.
    abbrev pub with_started :
        ℕ → AnyStream F D → ContentStream D → List (AnyStream F D) → Service D → Service D
    with_started place any t streams s =
        recreate_manifest (set streams place (with_content_stream t any))
          (record s {
            content_streams = insert (matched any s).playlist_path place s.content_streams;
          })
          s.delivery_protocol

    pub add_and_start-ok :
        (place : ℕ) (any : AnyStream F D) (t : ContentStream D) (streams : List (AnyStream F D))
        (s : Service D)
        → get_elem? streams place ≡ some any
        → start (matched any s) ≡ ok t
        → add_and_start_content_stream place streams s
          ≡ ok (with_started place any t streams s, set streams place (with_content_stream t any))
    unfolding add_and_start_content_stream started matched
    add_and_start-ok place any t streams s g h = rw (g, add_and_start_content_stream, h) refl

    recreate_manifest-hls :
        (streams : List (AnyStream F D)) (s : Service D) (p : DeliveryProtocol)
        → p ≡ hls
        → ((recreate_manifest streams s p).content_streams ≡ s.content_streams)
          × ((recreate_manifest streams s p).manifest
              ≡ primary_to_string (record primary_empty {
                streams = listed_streams streams (recreate_manifest streams s p).content_streams;
              }))
    unfolding recreate_manifest
    recreate_manifest-hls streams s hls e = (refl, refl)
    recreate_manifest-hls streams s dash e = cc
    recreate_manifest-hls streams s rtp e = cc

    -- The stream of an HLS service that has been started is under its path.
    pub with_started-streams :
        (place : ℕ) (any : AnyStream F D) (t : ContentStream D) (streams : List (AnyStream F D))
        (s : Service D)
        → s.delivery_protocol ≡ hls
        → (with_started place any t streams s).content_streams
          ≡ insert (matched any s).playlist_path place s.content_streams
    with_started-streams place any t streams s h =
        (recreate_manifest-hls (set streams place (with_content_stream t any))
          (record s {
            content_streams = insert (matched any s).playlist_path place s.content_streams;
          })
          s.delivery_protocol h).0

    Added-manifest :
        {place : ℕ} {any : AnyStream F D} {s s' : Service D}
        {streams streams' : List (AnyStream F D)}
        → s.delivery_protocol ≡ hls
        → Added place any s s' streams streams'
        → (find (content_stream any).playlist_path s'.content_streams ≡ some place)
          × (s'.manifest
              ≡ primary_to_string
                  (record primary_empty { streams = listed_streams streams' s'.content_streams }))
    unfolding matched
    Added-manifest {place} {any} {s} {s'} {streams} {streams'} h a =
        let now = set streams place (with_content_stream a.stream any) in
        let (kept, text) =
          recreate_manifest-hls now
            (record s {
              content_streams = insert (matched any s).playlist_path place s.content_streams;
            })
            s.delivery_protocol h in
        (
          ap (λ (r : Service D). find (content_stream any).playlist_path r.content_streams)
                (sym a.service_set)
              ∙ ap (find (content_stream any).playlist_path) kept
              ∙ ap (λ q. find (content_stream any).playlist_path (insert q place s.content_streams))
                  (matched-session any s).2
              ∙ find-insert_self (content_stream any).playlist_path place s.content_streams,
          subst
              (λ (l : List (AnyStream F D)).
                s'.manifest
                ≡ primary_to_string
                    (record primary_empty { streams = listed_streams l s'.content_streams }))
              a.streams_set
              (subst
                (λ (r : Service D).
                  r.manifest
                  ≡ primary_to_string
                      (record primary_empty { streams = listed_streams now r.content_streams }))
                a.service_set text),
        )

    -- If a stream is added to an HLS service and the call returns, the path of the stream leads to
    -- it; and if the entries of all streams of the service are printable, the new manifest is read
    -- back as these entries, in order, with `/` before each path and bandwidth 0.
    pub add_and_start-manifest :
        (place : ℕ) (any : AnyStream F D) (s s' : Service D)
        (streams streams' : List (AnyStream F D))
        → s.delivery_protocol ≡ hls
        → get_elem? streams place ≡ some any
        → add_and_start_content_stream place streams s ≡ ok (s', streams')
        → All IsPrintableStream (listed_streams streams' s'.content_streams)
        → (find (content_stream any).playlist_path s'.content_streams ≡ some place)
          × (primary_parse s'.manifest []
              ≡ ok (record {
                version = pos 3;
                streams = map (reread []) (listed_streams streams' s'.content_streams);
              }))
    add_and_start-manifest place any s s' streams streams' h g e =
        let (found, text) = Added-manifest h (add-Added place any s s' streams streams' g e) in
        λ printable.
          (found, ap (λ t. primary_parse t []) text ∙ primary_parse-to_string [] _ printable)

    add-terminates :
        (place : ℕ) (any : AnyStream F D) (s : Service D) (streams : List (AnyStream F D))
        → get_elem? streams place ≡ some any
        → start (matched any s) ≡ terminate
        → add_and_start_content_stream place streams s ≡ terminate
    unfolding add_and_start_content_stream started matched
    add-terminates place any s streams g e =
        rw (g, add_and_start_content_stream) (>>=-terminate (start (matched any s)) _ e)

    -- If a stream for FLUTE is added and the call returns, adding it again, to any service, ends
    -- the process.
    pub add_and_start_twice :
        (place : ℕ) (any : AnyStream F D) (s s' t : Service D)
        (streams streams' : List (AnyStream F D))
        → (content_stream any).stream_type ≡ codes "FLUTE/UDP"
        → get_elem? streams place ≡ some any
        → add_and_start_content_stream place streams s ≡ ok (s', streams')
        → add_and_start_content_stream place streams' t ≡ terminate
    add_and_start_twice place any s s' t streams streams' f g e =
        let a = add-Added place any s s' streams streams' g e in
        let again = with_content_stream a.stream any in
        let type = (matched-session any s).0 ∙ f in
        let runs = start-flute (matched any s) a.stream type a.started_ok in
        let kept = content_stream-with a.stream any in
        let (type', thread', path') = matched-session again t in
        add-terminates place again t streams'
          (ap (λ l. get_elem? l place) (sym a.streams_set) ∙ get_elem?-set streams place again g)
          (start_running (matched again t)
            (type' ∙ ap (λ (c : ContentStream D). c.stream_type) kept ∙ runs.0)
            (thread' ∙ ap (λ (c : ContentStream D). c.flute_thread) kept ∙ runs.1))

module _ {F D : Type 0} ⦃float : Float D⦄ where
  -- A stream for FLUTE whose thread runs may not be added.
  pub add_running :
      (place : ℕ) (any : AnyStream F D) (t : Service D) (streams : List (AnyStream F D))
      → get_elem? streams place ≡ some any
      → (content_stream any).stream_type ≡ codes "FLUTE/UDP"
      → (content_stream any).flute_thread ≡ true
      → add_and_start_content_stream place streams t ≡ terminate
  add_running place any t streams g f r =
      let (type, thread, path) = matched-session any t in
      add-terminates place any t streams g (start_running (matched any t) (type ∙ f) (thread ∙ r))
