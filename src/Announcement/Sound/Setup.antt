-- ===== src/Announcement/Sound/Setup.antt =====
-- The three ways to set up a service keep the shared state sound.
use rt_mbms_mw.Prelude.{ℕ, Bool, true, false, List, Option, none, some}
use rt_mbms_mw.Prelude.Float.{Float}
use rt_mbms_mw.Prelude.Key.{Bytes}
use rt_mbms_mw.Announcement.{Item}
use rt_mbms_mw.Announcement.Action.{Action}
use rt_mbms_mw.Announcement.Keeps.{Keeps, keeps_rules}
use rt_mbms_mw.Announcement.Setup.{apply_item, apply_items, add_streams}
use rt_mbms_mw.Announcement.Setup.Legacy.{
  legacy_stream, legacy_pattern, legacy_patterns, legacy_method, setup_by_5gmag_legacy_format,
}
use rt_mbms_mw.Announcement.Setup.Config.{
  Streams, Match, match_pattern, unicast_stream, with_match, identical_round, unicast_pattern,
  unicast_patterns, broadcast_pattern, broadcast_patterns, config_method, setup_by_5gmag_config,
}
use rt_mbms_mw.Announcement.Setup.Alternative.{
  BaseMatch, base_pattern_round, identical_endpoint, find_endpoint, configure_item,
  alternative_item, alternative_method, alternative_pattern, alternative_patterns,
  setup_by_alternative_content_element,
}
use rt_mbms_mw.Announcement.Sound.{
  SoundWorld, make_stream-Keeps, on_stream-Keeps, set_stream_endpoint-Keeps, add_stream-Keeps,
}
use rt_mbms_mw.Announcement.World.{
  World, Setting, read_stream_manifest, configure_stream, set_stream_base_path, set_base_path,
  ask_service,
}
use rt_mbms_mw.Service.{Service}
use rt_mbms_mw.Prelude.Result.{ok, Result_map}
use rt_mbms_mw.Stream.{DeliveryProtocol, configure_5gbc_delivery_from_sdp, read_master_manifest}

module _ {F D : Type 0} where
  abbrev KeepsSound : {X : Type 0} → Action (World F D) X → Type 0
  KeepsSound m = Keeps (SoundWorld {F = F} {D = D}) m

  configure_stream-Keeps : (place : ℕ) (sdp : Bytes) → KeepsSound (configure_stream place sdp)
  unfolding configure_stream
  configure_stream-Keeps place sdp = on_stream-Keeps place (configure_5gbc_delivery_from_sdp sdp)

  base_path-Keeps : (place : ℕ) (path : Bytes) → KeepsSound (set_stream_base_path place path)
  unfolding set_stream_base_path
  base_path-Keeps place path = on_stream-Keeps place (λ s. ok (set_base_path path s, tt))

  ask_service-Keeps :
      {X : Type 0} (f : Service D → X) (place : ℕ) → KeepsSound (ask_service f place)
  unfolding ask_service
  ask_service-Keeps f place = search keeps_rules

  module _ ⦃float : Float D⦄ where
    read_manifest-Keeps : (place : ℕ) (s : Bytes) → KeepsSound (read_stream_manifest place s)
    unfolding read_stream_manifest
    read_manifest-Keeps place s =
        on_stream-Keeps place (λ t. Result_map (λ u. (u, tt)) (read_master_manifest s t))

    apply_item-Keeps :
        (place : ℕ) (b : Bool) (u v : Bytes) (i : Item) → KeepsSound (apply_item place b u v i)
    unfolding apply_item
    apply_item-Keeps place b u v i =
        search (keeps_rules, read_manifest-Keeps, configure_stream-Keeps)

    apply_items-Keeps : (place : ℕ) (b : Bool) (u v : Bytes) → KeepsSound (apply_items place b u v)
    unfolding apply_items
    apply_items-Keeps place b u v = search (keeps_rules, apply_item-Keeps)

    add_streams-Keeps : (service : ℕ) (l : List ℕ) → KeepsSound (add_streams service l)
    unfolding add_streams
    add_streams-Keeps service l = search (keeps_rules, add_stream-Keeps)

    ruleset setup_rules = (
      keeps_rules, configure_stream-Keeps, base_path-Keeps, ask_service-Keeps, read_manifest-Keeps,
      apply_items-Keeps, add_streams-Keeps, make_stream-Keeps, set_stream_endpoint-Keeps,
      add_stream-Keeps,
    )

    module _ {E : Type 0} (g : Setting E D) (service : ℕ) where
      legacy_stream-Keeps :
          (p : DeliveryProtocol) (u v : Bytes) (l : List ℕ)
          → KeepsSound (legacy_stream g service p u v l)
      unfolding legacy_stream
      legacy_stream-Keeps p u v l = search setup_rules

      legacy_pattern-Keeps :
          (u : Bytes) (e : E) (l : List ℕ) → KeepsSound (legacy_pattern g service u e l)
      unfolding legacy_pattern
      legacy_pattern-Keeps u e l = search (setup_rules, legacy_stream-Keeps)

      legacy_patterns-Keeps :
          (u : Bytes) (o : Option E) (l : List ℕ) → KeepsSound (legacy_patterns g service u o l)
      unfolding legacy_patterns
      legacy_patterns-Keeps u none l = search setup_rules
      legacy_patterns-Keeps u (some e) l = search (setup_rules, legacy_pattern-Keeps)

      legacy_method-Keeps : (e : E) (l : List ℕ) → KeepsSound (legacy_method g service e l)
      unfolding legacy_method
      legacy_method-Keeps e l = search (setup_rules, legacy_patterns-Keeps)

      pub legacy-Keeps : (usd : E) → KeepsSound (setup_by_5gmag_legacy_format g service usd)
      unfolding setup_by_5gmag_legacy_format
      legacy-Keeps usd = search (setup_rules, legacy_method-Keeps)

    module _ {E : Type 0} (g : Setting E D) where
      match_pattern-Keeps :
          (u : Bytes) (l : List ℕ) (e : E) (m : Match) → KeepsSound (match_pattern g u l e m)
      unfolding match_pattern
      match_pattern-Keeps u l e m = search setup_rules

      unicast_stream-Keeps :
          (service : ℕ) (u v : Bytes) (t : Streams) → KeepsSound (unicast_stream g service u v t)
      unfolding unicast_stream
      unicast_stream-Keeps service u v t = search setup_rules

      with_match-Keeps :
          (service : ℕ) (u v : Bytes) (t : Streams) (o : Option ℕ) (b : Bool)
          → KeepsSound (with_match g service u v t o b)
      unfolding with_match
      with_match-Keeps service u v t (some place) true = search setup_rules
      with_match-Keeps service u v t none b = unicast_stream-Keeps service u v t
      with_match-Keeps service u v t (some place) false = unicast_stream-Keeps service u v t

      identical_round-Keeps :
          (service : ℕ) (u v : Bytes) (e : E) (t : Streams)
          → KeepsSound (identical_round g service u v e t)
      unfolding identical_round
      identical_round-Keeps service u v e t =
          search (setup_rules, match_pattern-Keeps, with_match-Keeps)

      unicast_pattern-Keeps :
          (service : ℕ) (app : E) (u : Bytes) (e : E) (t : Streams)
          → KeepsSound (unicast_pattern g service app u e t)
      unfolding unicast_pattern
      unicast_pattern-Keeps service app u e t = search (setup_rules, identical_round-Keeps)

      unicast_patterns-Keeps :
          (service : ℕ) (app : E) (u : Bytes) (o : Option E) (t : Streams)
          → KeepsSound (unicast_patterns g service app u o t)
      unfolding unicast_patterns
      unicast_patterns-Keeps service app u none t = search setup_rules
      unicast_patterns-Keeps service app u (some e) t = search (setup_rules, unicast_pattern-Keeps)

      broadcast_pattern-Keeps :
          (service : ℕ) (u v : Bytes) (e : E) (t : Streams)
          → KeepsSound (broadcast_pattern g service u v e t)
      unfolding broadcast_pattern
      broadcast_pattern-Keeps service u v e t = search setup_rules depth 8

      broadcast_patterns-Keeps :
          (service : ℕ) (u v : Bytes) (o : Option E) (t : Streams)
          → KeepsSound (broadcast_patterns g service u v o t)
      unfolding broadcast_patterns
      broadcast_patterns-Keeps service u v none t = search setup_rules
      broadcast_patterns-Keeps service u v (some e) t =
          search (setup_rules, broadcast_pattern-Keeps)

      config_method-Keeps :
          (service : ℕ) (app e : E) (t : Streams) → KeepsSound (config_method g service app e t)
      unfolding config_method
      config_method-Keeps service app e t =
          search (setup_rules, broadcast_patterns-Keeps, unicast_patterns-Keeps) depth 8

      pub config-Keeps :
          (service : ℕ) (app usd : E) → KeepsSound (setup_by_5gmag_config g service app usd)
      unfolding setup_by_5gmag_config
      config-Keeps service app usd = search (setup_rules, config_method-Keeps)

      base_pattern_round-Keeps :
          (u : Bytes) (e : E) (m : BaseMatch) → KeepsSound (base_pattern_round g u e m)
      unfolding base_pattern_round
      base_pattern_round-Keeps u e m = search setup_rules

      identical_endpoint-Keeps :
          (place : ℕ) (u : Bytes) (e : E) → KeepsSound (identical_endpoint g place u e)
      unfolding identical_endpoint
      identical_endpoint-Keeps place u e = search (setup_rules, base_pattern_round-Keeps)

      find_endpoint-Keeps :
          (app : E) (place : ℕ) (u : Bytes) (b : Bool) → KeepsSound (find_endpoint g app place u b)
      unfolding find_endpoint
      find_endpoint-Keeps app place u true = search (setup_rules, identical_endpoint-Keeps)
      find_endpoint-Keeps app place u false = search setup_rules

      configure_item-Keeps :
          (place : ℕ) (o : Option Bytes) (i : Item) (b : Bool)
          → KeepsSound (configure_item g place o i b)
      unfolding configure_item
      configure_item-Keeps place o i b = search setup_rules

      alternative_item-Keeps :
          (place : ℕ) (u : Bytes) (o : Option Bytes) (i : Item) (b : Bool)
          → KeepsSound (alternative_item g place u o i b)
      unfolding alternative_item
      alternative_item-Keeps place u o i b = search (setup_rules, configure_item-Keeps)

      alternative_method-Keeps :
          (place : ℕ) (u : Bytes) (e : E) (b : Bool) → KeepsSound (alternative_method g place u e b)
      unfolding alternative_method
      alternative_method-Keeps place u e b = search (setup_rules, alternative_item-Keeps) depth 8

      alternative_pattern-Keeps :
          (service : ℕ) (app usd e : E) → KeepsSound (alternative_pattern g service app usd e)
      unfolding alternative_pattern
      alternative_pattern-Keeps service app usd e =
          search (setup_rules, alternative_method-Keeps, find_endpoint-Keeps) depth 9

      pub alternative-Keeps :
          (service : ℕ) (app usd : E)
          → KeepsSound (setup_by_alternative_content_element g service app usd)
      unfolding setup_by_alternative_content_element alternative_patterns
      alternative-Keeps service app usd = patterns _
        where
          patterns : (o : Option E) → KeepsSound (alternative_patterns g service app usd o)
          patterns none = search setup_rules
          patterns (some e) = search (setup_rules, alternative_pattern-Keeps)
