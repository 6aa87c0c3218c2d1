-- ===== src/Announcement/Setup/Config.antt =====
-- `_setupBy5GMagConfig` of src/ServiceAnnouncement.cpp.
use rt_mbms_mw.Prelude.{
  ℕ, Bool, true, false, List, [], ◌∷◌, ◌++◌, Option, none, some, if◌then◌else◌,
}
use rt_mbms_mw.Prelude.Float.{Float}
use rt_mbms_mw.Prelude.Key.{Bytes, equal}
use rt_mbms_mw.Prelude.Text.{codes}
use rt_mbms_mw.Announcement.Action.{
  Action, Nothing, return, ask, not_null, string_of, fold_each, ◌>>=◌, ◌>>◌,
}
use rt_mbms_mw.Announcement.World.{
  World, Setting, stream_at, make_stream, ask_service, set_stream_endpoint,
}
use rt_mbms_mw.Announcement.Xml.{
  first, base_pattern, broadcast_app_service, delivery_method, session_description_uri,
  identical_content, unicast_app_service,
}
use rt_mbms_mw.Announcement.Setup.{replace_sdp, apply_items, add_streams}
use rt_mbms_mw.Service.{AnyStream, basic, seamless, content_stream}

-- `broadcastContentStreams` and `unicastContentStreams`
pub record Streams : Type 0 where
  pub broadcast : List ℕ
  pub unicast : List ℕ

-- `broadcast_content_stream` and `found_identical_element`
pub record Match : Type 0 where
  pub stream : Option ℕ
  pub found_identical_element : Bool

-- The pointer behind the dynamic cast.
abbrev pub cast_stream : {F D : Type 0} → ℕ → AnyStream F D → Option ℕ
cast_stream place (basic s) = none
cast_stream place (seamless s) = some place

module _ {F D : Type 0} where
  unfoldable pub match_base : Bytes → ℕ → Option (AnyStream F D) → Option ℕ → Option ℕ
  match_base url place none old = old
  match_base url place (some any) old =
      if equal (content_stream any).base url then cast_stream place any else old

  -- The loop over the broadcast streams: the last one with the base is taken.
  unfoldable pub find_broadcast : World F D → Bytes → List ℕ → Option ℕ → Option ℕ
  unfolding match_base
  find_broadcast w url [] old = old
  find_broadcast w url (place ∷ places) old =
      find_broadcast w url places (match_base url place (stream_at place w) old)

module _ {E F D : Type 0} (g : Setting E D) where
  -- A round of the loop over the base patterns of an identical content.
  unfoldable pub match_pattern : Bytes → List ℕ → E → Match → Action (World F D) Match
  unfolding ◌>>=◌ find_broadcast
  match_pattern unicast_url broadcast pattern m = do
    url ← string_of (g.xml.get_text pattern)
    ask (λ w.
        if equal unicast_url url
        then record m { found_identical_element = true }
        else record m { stream = find_broadcast w url broadcast m.stream })

  -- The new stream for a CDN.
  unfoldable pub unicast_stream : ℕ → Bytes → Bytes → Streams → Action (World F D) Streams
  unfolding ◌>>=◌ ◌>>◌
  unicast_stream service manifest_url unicast_url t = do
    p ← ask_service (λ s. s.delivery_protocol) service
    place ← make_stream g true manifest_url p
    set_stream_endpoint g place unicast_url
    return (record t { unicast = t.unicast ++ (place ∷ []) })

  unfoldable pub with_match :
      ℕ → Bytes → Bytes → Streams → Option ℕ → Bool → Action (World F D) Streams
  unfolding ◌>>◌ unicast_stream
  with_match service manifest_url unicast_url t (some place) true = do
    set_stream_endpoint g place unicast_url
    return t
  with_match service manifest_url unicast_url t none found =
      unicast_stream service manifest_url unicast_url t
  with_match service manifest_url unicast_url t (some place) false =
      unicast_stream service manifest_url unicast_url t

  -- A round of the loop over the identical contents.
  unfoldable pub identical_round : ℕ → Bytes → Bytes → E → Streams → Action (World F D) Streams
  unfolding ◌>>=◌ fold_each match_pattern with_match
  identical_round service manifest_url unicast_url content t = do
    m ←
        fold_each (match_pattern unicast_url t.broadcast) (g.xml.children base_pattern content)
          (record { stream = none; found_identical_element = false })
    with_match service manifest_url unicast_url t m.stream m.found_identical_element

  -- A round of the loop over the base patterns of the unicast service.
  unfoldable pub unicast_pattern : ℕ → E → Bytes → E → Streams → Action (World F D) Streams
  unfolding ◌>>=◌ fold_each identical_round
  unicast_pattern service app manifest_url pattern t = do
    unicast_url ← string_of (g.xml.get_text pattern)
    fold_each (identical_round service manifest_url unicast_url)
        (g.xml.children identical_content app) t

  unfoldable pub unicast_patterns : ℕ → E → Bytes → Option E → Streams → Action (World F D) Streams
  unfolding fold_each unicast_pattern
  unicast_patterns service app manifest_url none t = return t
  unicast_patterns service app manifest_url (some e) t =
      fold_each (unicast_pattern service app manifest_url) (g.xml.children base_pattern e) t

  module _ ⦃float : Float D⦄ where
    -- A round of the loop over the base patterns of the broadcast service.
    unfoldable pub broadcast_pattern : ℕ → Bytes → Bytes → E → Streams → Action (World F D) Streams
    unfolding ◌>>=◌ ◌>>◌
    broadcast_pattern service manifest_url sdp_uri pattern t = do
      broadcast_url ← string_of (g.xml.get_text pattern)
      wanted ← ask (λ w. w.self.seamless)
      p ← ask_service (λ s. s.delivery_protocol) service
      place ← make_stream g wanted broadcast_url p
      apply_items place true manifest_url sdp_uri
      return (record t { broadcast = t.broadcast ++ (place ∷ []) })

    unfoldable pub broadcast_patterns :
        ℕ → Bytes → Bytes → Option E → Streams → Action (World F D) Streams
    unfolding fold_each broadcast_pattern
    broadcast_patterns service manifest_url sdp_uri none t = return t
    broadcast_patterns service manifest_url sdp_uri (some e) t =
        fold_each (broadcast_pattern service manifest_url sdp_uri) (g.xml.children base_pattern e) t

    -- A round of the loop over the delivery methods; the streams of the rounds before are in the
    -- lists still.
    unfoldable pub config_method : ℕ → E → E → Streams → Action (World F D) Streams
    unfolding ◌>>=◌ ◌>>◌ broadcast_patterns unicast_patterns
    config_method service app method t = do
      sdp_uri ← not_null (g.xml.attribute session_description_uri method)
      let manifest_url = replace_sdp (codes ".m3u8") sdp_uri
      broadcast ←
          broadcast_patterns service manifest_url sdp_uri
            (first (g.xml.children broadcast_app_service method)) t
      wanted ← ask (λ w. w.self.seamless)
      made ←
          if wanted
          then unicast_patterns service app manifest_url
              (first (g.xml.children unicast_app_service method)) broadcast
          else return broadcast
      add_streams service made.unicast
      add_streams service made.broadcast
      return made

    -- `_setupBy5GMagConfig`
    unfoldable pub setup_by_5gmag_config : ℕ → E → E → Action (World F D) Nothing
    unfolding ◌>>=◌ fold_each config_method
    setup_by_5gmag_config service app usd = do
      fold_each (config_method service app) (g.xml.children delivery_method usd)
          (record { broadcast = []; unicast = [] })
      return tt
