-- ===== src/Announcement/Setup/Alternative.antt =====
-- `_setupByAlternativeContentElement` of src/ServiceAnnouncement.cpp.
use rt_mbms_mw.Prelude.{
  ℕ, Bool, true, false, not, ◌&&◌, ◌||◌, [], Option, none, some, if◌then◌else◌,
}
use rt_mbms_mw.Prelude.Float.{Float}
use rt_mbms_mw.Prelude.Key.{Bytes, equal}
use rt_mbms_mw.Announcement.{Item}
use rt_mbms_mw.Announcement.Action.{
  Action, Nothing, return, ask, not_null, string_of, for_each, fold_each, ◌>>=◌, ◌>>◌,
}
use rt_mbms_mw.Announcement.World.{
  World, Setting, make_stream, ask_service, set_stream_endpoint, read_stream_manifest,
  configure_stream, add_stream,
}
use rt_mbms_mw.Announcement.Xml.{
  first, base_pattern, broadcast_app_service, delivery_method, session_description_uri,
  identical_content, alternative_content, sdp_type,
}
use rt_mbms_mw.Announcement.Setup.{is_item, items}

-- `base_matched` and `found_identical_base`
pub record BaseMatch : Type 0 where
  pub base_matched : Bool
  pub found_identical_base : Bytes

module _ {E F D : Type 0} (g : Setting E D) where
  unfoldable pub base_pattern_round : Bytes → E → BaseMatch → Action (World F D) BaseMatch
  unfolding ◌>>=◌
  base_pattern_round base pattern m = do
    identical_base ← string_of (g.xml.get_text pattern)
    return (
        if equal base identical_base
        then record m { base_matched = true }
        else record m { found_identical_base = identical_base })

  -- A round of the loop over the identical contents.
  unfoldable pub identical_endpoint : ℕ → Bytes → E → Action (World F D) Nothing
  unfolding ◌>>=◌ fold_each base_pattern_round
  identical_endpoint place base content = do
    m ←
        fold_each (base_pattern_round base) (g.xml.children base_pattern content)
          (record { base_matched = false; found_identical_base = [] })
    if m.base_matched && not (equal m.found_identical_base [])
        then set_stream_endpoint g place m.found_identical_base
        else return tt

  -- The search for an endpoint, and `unicast_delivery_available`.
  unfoldable pub find_endpoint : E → ℕ → Bytes → Bool → Action (World F D) Bool
  unfolding ◌>>◌ for_each identical_endpoint
  find_endpoint app place base false = do set_stream_endpoint g place base; return true
  find_endpoint app place base true = do
    for_each (identical_endpoint place base) (g.xml.children identical_content app)
    return false

  module _ ⦃float : Float D⦄ where
    -- The second test of a round over the items; a URI that is null is read only behind an item
    -- with a session description.
    unfoldable pub configure_item : ℕ → Option Bytes → Item → Bool → Action (World F D) Bool
    unfolding ◌>>=◌
    configure_item place sdp_uri i available =
        if equal i.content_type sdp_type
        then (do
          uri ← not_null sdp_uri
          if equal i.uri uri then configure_stream place i.content else return available)
        else return available

    -- A round of the loop over the items.
    unfoldable pub alternative_item :
        ℕ → Bytes → Option Bytes → Item → Bool → Action (World F D) Bool
    unfolding ◌>>◌ configure_item
    alternative_item place pattern sdp_uri i available = do
      if is_item pattern i then read_stream_manifest place i.content else return tt
      configure_item place sdp_uri i available

    -- A round of the loop over the delivery methods, which carries
    -- `broadcast_delivery_available`.
    unfoldable pub alternative_method : ℕ → Bytes → E → Bool → Action (World F D) Bool
    unfolding ◌>>=◌ fold_each alternative_item
    alternative_method place base method available = do
      broadcast ← not_null (first (g.xml.children broadcast_app_service method))
      element ← not_null (first (g.xml.children base_pattern broadcast))
      pattern ← string_of (g.xml.get_text element)
      all ← items
      if equal pattern base
          then fold_each
              (alternative_item place pattern (g.xml.attribute session_description_uri method)) all
              available
          else return available

    -- A round of the loop over the base patterns of the alternative content.
    unfoldable pub alternative_pattern : ℕ → E → E → E → Action (World F D) Nothing
    unfolding ◌>>=◌ ◌>>◌ fold_each alternative_method find_endpoint
    alternative_pattern service app usd pattern = do
      base ← string_of (g.xml.get_text pattern)
      wanted ← ask (λ w. w.self.seamless)
      p ← ask_service (λ s. s.delivery_protocol) service
      place ← make_stream g wanted base p
      broadcast ←
          fold_each (alternative_method place base) (g.xml.children delivery_method usd) false
      unicast ← if wanted then find_endpoint app place base broadcast else return false
      if unicast || broadcast then add_stream service place else return tt

    unfoldable pub alternative_patterns : ℕ → E → E → Option E → Action (World F D) Nothing
    unfolding for_each
    alternative_patterns service app usd none = return tt
    alternative_patterns service app usd (some e) =
        for_each (alternative_pattern service app usd) (g.xml.children base_pattern e)

    -- `_setupByAlternativeContentElement`
    unfoldable pub setup_by_alternative_content_element : ℕ → E → E → Action (World F D) Nothing
    unfolding alternative_patterns
    setup_by_alternative_content_element service app usd =
        alternative_patterns service app usd (first (g.xml.children alternative_content app))
