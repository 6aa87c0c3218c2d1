-- ===== src/Announcement/Announced/Unicast.antt =====
-- What `_setupByAlternativeContentElement` makes of an HLS service without a delivery method.
use rt_mbms_mw.Prelude.{
  ℕ, true, false, List, [], ◌∷◌, ◌++◌, some, ◌≡◌, refl, ap, ◌∙◌, length, set, get_elem?-length,
  if◌then◌else◌, ◌||◌, Bool,
}
use rt_mbms_mw.Prelude.Float.{Float}
use rt_mbms_mw.Prelude.Key.{Bytes, bytes_key, equal}
use rt_mbms_mw.Prelude.Result.{ok}
use rt_mbms_mw.Prelude.Text.{codes}
use rt_mbms_mw.Announcement.Action.{
  fold_each, for_each, continue, string_of, ◌>>=◌, ◌>>◌, return, Action, Nothing,
}
use rt_mbms_mw.Announcement.Xml.{base_pattern, alternative_content, delivery_method}
use rt_mbms_mw.Announcement.Announced.Steps.{
  Last, set-length, add_stream-Last, ask_service-Last, >>-ok,
}
use rt_mbms_mw.Announcement.Announced.Broadcast.{LastStream, stream_at-Last}
use rt_mbms_mw.Announcement.Setup.Alternative.{
  find_endpoint, alternative_pattern, alternative_patterns, setup_by_alternative_content_element,
  alternative_method,
}
use rt_mbms_mw.Announcement.World.{
  World, Setting, set_streams, make_stream, make_shared, endpoint_state, set_stream_endpoint,
  add_stream,
}
use rt_mbms_mw.Cache.{CacheItem, stream_playlist, add_item}
use rt_mbms_mw.Seamless.{
  SeamlessContentStream, Uri, seamless_init, set_cdn_endpoint, endpoint_stream, connected,
}
use rt_mbms_mw.Service.{Service, AnyStream, seamless}
use rt_mbms_mw.Service.Adding.{matched, matched-session, with_started, add_and_start-ok}
use rt_mbms_mw.Stream.{ContentStream, hls, stream_init, start, DeliveryProtocol}

module _ {D : Type 0} where
  -- A stream that no session description has configured starts nothing.
  start-unset : (s : ContentStream D) → s.stream_type ≡ codes "none" → start s ≡ ok s
  unfolding start equal
  start-unset s e = rw e refl

module _ {F D : Type 0} where
  -- The objects behind `set_cdn_endpoint` of the last stream.
  abbrev pub pointed_world :
      List (AnyStream F D) → SeamlessContentStream F D → World F D → World F D
  pointed_world zs st w = record w {
    backend = record (w.backend) {
      streams = zs ++ (seamless st ∷ []);
      cache =
          add_item
            (CacheItem.playlist st.content_stream.playlist_path 0 (stream_playlist (length zs)))
            w.backend.cache;
    };
  }

module _ {E F D : Type 0} (g : Setting E D) where
  -- The stream behind its constructor.
  abbrev pub made_stream : Bytes → Bytes → SeamlessContentStream F D
  made_stream url iface =
      seamless_init (stream_init g.garbage url iface hls) g.max_segments_per_stream
        g.truncate_cdn_playlist_segments

  -- The stream behind `set_cdn_endpoint`.
  abbrev pub pointed_stream : Bytes → Bytes → Uri → SeamlessContentStream F D
  pointed_stream url iface ep = endpoint_stream ep (made_stream url iface)

  set_stream_endpoint-Last :
      (url : Bytes) (ep : Uri) (zs : List (AnyStream F D)) (st : SeamlessContentStream F D)
      (w : World F D)
      → g.parse_uri url ≡ some ep
      → g.http_client ep.base ≡ true
      → LastStream zs (seamless st) w
      → set_stream_endpoint g (length zs) url w
        ≡ (ok tt, pointed_world zs (endpoint_stream ep st) w)
  unfolding set_stream_endpoint endpoint_state set_cdn_endpoint connected
  set_stream_endpoint-Last url ep zs st w p a e =
      rw (stream_at-Last zs (seamless st) w e, endpoint_state, set_cdn_endpoint, p, a, connected)
        (ap
          (λ l. (
            ok tt,
            record (pointed_world zs (endpoint_stream ep st) w) {
              backend = record ((pointed_world zs (endpoint_stream ep st) w).backend) {
                streams = l;
              };
            },
          ))
          (ap (λ l. set l (length zs) (seamless (endpoint_stream ep st))) e
            ∙ set-length zs (seamless st) (seamless (endpoint_stream ep st))))

-- An application service with one alternative content of one base pattern, which the URI library can
-- read and whose base the HTTP library takes, and no delivery method, where seamless switching is on.
pub record IsUnicast {E D : Type 0} (g : Setting E D) (usd app : E) (seamless_wanted : Bool)
    : Type 0 where
  pub element : E
  pub elements : List E
  pub element_at : g.xml.children alternative_content app ≡ element ∷ elements
  pub pattern : E
  pub pattern_at : g.xml.children base_pattern element ≡ pattern ∷ []
  pub url : Bytes
  pub url_at : g.xml.get_text pattern ≡ some url
  pub endpoint : Uri
  pub endpoint_ok : g.parse_uri url ≡ some endpoint
  pub accepted : g.http_client endpoint.base ≡ true
  pub no_method : g.xml.children delivery_method usd ≡ []
  pub wanted : seamless_wanted ≡ true

module _ {F D : Type 0} ⦃float : Float D⦄ where
  -- The stream as the service takes it in.
  abbrev pub taken_stream : SeamlessContentStream F D → Service D → SeamlessContentStream F D
  taken_stream st s = record st { content_stream = matched (seamless st) s }

  abbrev pub unicast_service :
      List (AnyStream F D) → SeamlessContentStream F D → Service D → Service D
  unicast_service zs st s =
      with_started (length zs) (seamless st) (matched (seamless st) s) (zs ++ (seamless st ∷ [])) s

  -- The objects behind the setup.
  abbrev pub unicast_world :
      List (Service D)
      → Service D
      → List (AnyStream F D)
      → SeamlessContentStream F D
      → World F D
      → World F D
  unicast_world xs s zs st w =
      let v = pointed_world zs st w in
      record v {
        backend = record (v.backend) {
          services = xs ++ (unicast_service zs st s ∷ []);
          streams = zs ++ (seamless (taken_stream st s) ∷ []);
        };
      }

  add_stream-unicast :
      (xs : List (Service D)) (s : Service D) (zs : List (AnyStream F D))
      (st : SeamlessContentStream F D) (w : World F D)
      → Last xs s w
      → st.content_stream.stream_type ≡ codes "none"
      → add_stream (length xs) (length zs) (pointed_world zs st w)
        ≡ (ok tt, unicast_world xs s zs st w)
  add_stream-unicast xs s zs st w e n =
      let m = matched (seamless st) s in
      add_stream-Last xs s (unicast_service zs st s) (length zs)
        (zs ++ (seamless (taken_stream st s) ∷ [])) (pointed_world zs st w) e
        (add_and_start-ok (length zs) (seamless st) m (zs ++ (seamless st ∷ [])) s
            (get_elem?-length zs (seamless st))
            (start-unset m ((matched-session (seamless st) s).0 ∙ n))
          ∙ ap (λ l. ok (unicast_service zs st s, l))
              (set-length zs (seamless st) (seamless (taken_stream st s))))

  module _ {E : Type 0} (g : Setting E D) where
    -- A round of the loop, behind what it reads.
    abbrev behind_reads : E → E → ℕ → Bytes → Bool → DeliveryProtocol → Action (World F D) Nothing
    behind_reads usd app service url wanted p = do
      place ← make_stream g wanted url p
      broadcast ←
          fold_each (alternative_method g place url) (g.xml.children delivery_method usd) false
      unicast ← if wanted then find_endpoint g app place url broadcast else return false
      if unicast || broadcast then add_stream service place else return tt

    behind_reads-unicast :
        (usd app : E) (xs : List (Service D)) (s : Service D) (w : World F D)
        (d : IsUnicast g usd app w.self.seamless)
        → Last xs s w
        → behind_reads usd app (length xs) d.url true hls w ≡ (
          ok tt,
          unicast_world xs s w.backend.streams (pointed_stream g d.url w.self.iface d.endpoint) w,
        )
    unfolding find_endpoint fold_each make_stream make_shared endpoint_stream seamless_init
        stream_init ◌>>=◌ ◌>>◌ continue
    behind_reads-unicast usd app xs s w d e =
        let zs = w.backend.streams in
        let st : SeamlessContentStream F D = made_stream g d.url w.self.iface in
        let v = set_streams (zs ++ (seamless st ∷ [])) w in
        rw
          (
            d.no_method,
            set_stream_endpoint-Last g d.url d.endpoint zs st v d.endpoint_ok d.accepted refl,
            continue,
          )
          (add_stream-unicast xs s zs (pointed_stream g d.url w.self.iface d.endpoint) w e refl)

    alternative_pattern-unicast :
        (usd app : E) (xs : List (Service D)) (s : Service D) (w : World F D)
        (d : IsUnicast g usd app w.self.seamless)
        → s.delivery_protocol ≡ hls
        → Last xs s w
        → alternative_pattern g (length xs) app usd d.pattern w ≡ (
          ok tt,
          unicast_world xs s w.backend.streams (pointed_stream g d.url w.self.iface d.endpoint) w,
        )
    unfolding alternative_pattern string_of ◌>>=◌ continue
    alternative_pattern-unicast usd app xs s w d h e =
        let reads : alternative_pattern g (length xs) app usd d.pattern w
            ≡ behind_reads usd app (length xs) d.url w.self.seamless s.delivery_protocol w =
          rw
            (
              d.url_at,
              string_of,
              continue,
              ask_service-Last (λ (s : Service D). s.delivery_protocol) xs s w e,
            )
            refl in
        reads
        ∙ ap (λ b. behind_reads usd app (length xs) d.url b s.delivery_protocol w) d.wanted
        ∙ ap (λ p. behind_reads usd app (length xs) d.url true p w) h
        ∙ behind_reads-unicast usd app xs s w d e

    -- The stream of the description is made, gets the CDN, and is added to the service.
    pub setup-unicast :
        (usd app : E) (xs : List (Service D)) (s : Service D) (w : World F D)
        (d : IsUnicast g usd app w.self.seamless)
        → s.delivery_protocol ≡ hls
        → Last xs s w
        → setup_by_alternative_content_element g (length xs) app usd w ≡ (
          ok tt,
          unicast_world xs s w.backend.streams (pointed_stream g d.url w.self.iface d.endpoint) w,
        )
    unfolding setup_by_alternative_content_element alternative_patterns for_each
    setup-unicast usd app xs s w d h e =
        rw (d.element_at, d.pattern_at)
          (>>-ok (alternative_pattern g (length xs) app usd d.pattern) _
            (alternative_pattern-unicast usd app xs s w d h e))
