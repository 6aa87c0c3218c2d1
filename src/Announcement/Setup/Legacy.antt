-- ===== src/Announcement/Setup/Legacy.antt =====
-- `_setupBy5GMagLegacyFormat` of src/ServiceAnnouncement.cpp.
use rt_mbms_mw.Prelude.{
  ℕ, Bool, false, not, ◌&&◌, ◌||◌, List, [], ◌∷◌, ◌++◌, Option, none, some, if◌then◌else◌,
}
use rt_mbms_mw.Prelude.Float.{Float}
use rt_mbms_mw.Prelude.Key.{Bytes}
use rt_mbms_mw.Prelude.Text.{codes, contains}
use rt_mbms_mw.Announcement.Action.{
  Action, Nothing, return, ask, not_null, string_of, fold_each, ◌>>=◌, ◌>>◌,
}
use rt_mbms_mw.Announcement.World.{World, Setting, make_stream, set_stream_base_path, ask_service}
use rt_mbms_mw.Announcement.Xml.{
  first, base_pattern, broadcast_app_service, delivery_method, session_description_uri,
  hls_manifest, dash_manifest,
}
use rt_mbms_mw.Announcement.Setup.{replace_sdp, apply_items, add_streams}
use rt_mbms_mw.Stream.{DeliveryProtocol, is_hls, is_dash}

-- The protocols and base patterns for which a stream is made.
unfoldable pub is_wanted : DeliveryProtocol → Bytes → Bool
is_wanted p url = is_dash p || (is_hls p && not (contains (codes "file://") url))

-- The manifest that belongs to a session description.
unfoldable pub legacy_manifest : DeliveryProtocol → Bytes → Bytes
unfolding replace_sdp
legacy_manifest p sdp_uri =
    replace_sdp (codes "." ++ (if is_hls p then hls_manifest else dash_manifest)) sdp_uri

module _ {E F D : Type 0} ⦃float : Float D⦄ (g : Setting E D) (service : ℕ) where
  unfoldable pub legacy_stream :
      DeliveryProtocol → Bytes → Bytes → List ℕ → Action (World F D) (List ℕ)
  unfolding ◌>>=◌ ◌>>◌ legacy_manifest
  legacy_stream p sdp_uri url streams = do
    place ← make_stream g false url p
    path ← ask (λ w. w.self.base_path)
    set_stream_base_path place path
    apply_items place (is_hls p) (legacy_manifest p sdp_uri) sdp_uri
    return (streams ++ (place ∷ []))

  -- A round of the loop over the base patterns.
  unfoldable pub legacy_pattern : Bytes → E → List ℕ → Action (World F D) (List ℕ)
  unfolding ◌>>=◌ legacy_stream
  legacy_pattern sdp_uri pattern streams = do
    url ← string_of (g.xml.get_text pattern)
    p ← ask_service (λ s. s.delivery_protocol) service
    if is_wanted p url then legacy_stream p sdp_uri url streams else return streams

  unfoldable pub legacy_patterns : Bytes → Option E → List ℕ → Action (World F D) (List ℕ)
  unfolding fold_each
  legacy_patterns sdp_uri none streams = return streams
  legacy_patterns sdp_uri (some e) streams =
      fold_each (legacy_pattern sdp_uri) (g.xml.children base_pattern e) streams

  -- A round of the loop over the delivery methods; the expression reads the URI, null or not.
  unfoldable pub legacy_method : E → List ℕ → Action (World F D) (List ℕ)
  unfolding ◌>>=◌ ◌>>◌ legacy_patterns legacy_pattern
  legacy_method method streams = do
    sdp_uri ← not_null (g.xml.attribute session_description_uri method)
    made ← legacy_patterns sdp_uri (first (g.xml.children broadcast_app_service method)) streams
    add_streams service made
    return made

  -- `_setupBy5GMagLegacyFormat`
  unfoldable pub setup_by_5gmag_legacy_format : E → Action (World F D) Nothing
  unfolding ◌>>=◌ fold_each legacy_method
  setup_by_5gmag_legacy_format usd = do
    fold_each legacy_method (g.xml.children delivery_method usd) []
    return tt
