-- ===== src/Announcement/Setup.antt =====
-- The steps that the three `_setupBy` functions of src/ServiceAnnouncement.cpp share.
pub mod Config
pub mod Legacy
pub mod Alternative
pub mod Names
pub mod Restart
use rt_mbms_mw.Prelude.{
  ℕ, zero, suc, Bool, true, false, ◌&&◌, List, [], ◌∷◌, ◌++◌, Option, none, some, if◌then◌else◌,
}
use rt_mbms_mw.Prelude.Float.{Float}
use rt_mbms_mw.Prelude.Key.{Bytes, equal}
use rt_mbms_mw.Prelude.Text.{codes, starts_with}
use rt_mbms_mw.Announcement.{Item}
use rt_mbms_mw.Announcement.Action.{
  Action, Nothing, return, ask, not_null, string_of, for_each, fold_each, ◌>>=◌, ◌>>◌,
}
use rt_mbms_mw.Announcement.World.{
  World, Setting, read_stream_manifest, configure_stream, add_stream,
}
use rt_mbms_mw.Announcement.Xml.{Xml, first, sdp_type}
use rt_mbms_mw.Stream.Sdp.{is_dot}

-- The text behind a match at its front of the expression `.sdp`.
unfoldable pub match_sdp : Bytes → Bool
match_sdp [] = false
match_sdp (c ∷ s) = is_dot c && starts_with (codes "sdp") s

-- `skip` bytes are left of a match.
unfoldable pub replace_from : Bytes → ℕ → Bytes → Bytes
unfolding match_sdp
replace_from ext skip [] = []
replace_from ext (suc skip) (c ∷ s) = replace_from ext skip s
replace_from ext zero (c ∷ s) = elim (match_sdp (c ∷ s)) [
  | true ↦ ext ++ replace_from ext 3 s
  | false ↦ c ∷ replace_from ext 0 s
]

-- `std::regex_replace(uri, std::regex(".sdp"), ext)`: the dot stands for any character.
unfoldable pub replace_sdp : Bytes → Bytes → Bytes
unfolding replace_from
replace_sdp ext uri = replace_from ext 0 uri

-- `item.uri == uri` for a pointer that is not null.
abbrev pub is_item : Bytes → Item → Bool
is_item uri i = equal i.uri uri

abbrev pub is_sdp_item : Bytes → Item → Bool
is_sdp_item uri i = equal i.content_type sdp_type && equal i.uri uri

module _ {F D : Type 0} where
  abbrev pub items : Action (World F D) (List Item)
  items = ask (λ w. w.self.items)

  module _ ⦃float : Float D⦄ where
    -- A round of the loop over the items.
    unfoldable pub apply_item : ℕ → Bool → Bytes → Bytes → Item → Action (World F D) Nothing
    unfolding ◌>>=◌ ◌>>◌
    apply_item place with_manifest manifest_url sdp_uri i = do
      if is_item manifest_url i && with_manifest
          then read_stream_manifest place i.content
          else return tt
      if is_sdp_item sdp_uri i then (do configure_stream place i.content; return tt) else return tt

    -- The loop over the items, for a new stream.
    unfoldable pub apply_items : ℕ → Bool → Bytes → Bytes → Action (World F D) Nothing
    unfolding apply_item ◌>>=◌ for_each
    apply_items place with_manifest manifest_url sdp_uri = do
      all ← items
      for_each (apply_item place with_manifest manifest_url sdp_uri) all

    -- A loop that adds streams to the service.
    unfoldable pub add_streams : ℕ → List ℕ → Action (World F D) Nothing
    unfolding for_each
    add_streams service = for_each (add_stream service)
