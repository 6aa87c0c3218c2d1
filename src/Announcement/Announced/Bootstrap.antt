-- ===== src/Announcement/Announced/Bootstrap.antt =====
-- `parse_bootstrap` for an announcement with one description.
use rt_mbms_mw.Prelude.{List, [], ◌∷◌, ◌≡◌, refl, ap, ◌∙◌, All-map, true, false}
use rt_mbms_mw.Prelude.Float.{Float}
use rt_mbms_mw.Prelude.Key.{Bytes, equal}
use rt_mbms_mw.Prelude.Result.{ok}
use rt_mbms_mw.Announcement.{Item, add_service_announcement_items}
use rt_mbms_mw.Announcement.Action.{
  Action, Nothing, catching, handled, not_null, for_each, continue, ◌>>=◌, ◌>>◌,
}
use rt_mbms_mw.Announcement.Announced.Steps.{Skips, for_each_one, IsOnly}
use rt_mbms_mw.Announcement.Bundle.{
  if_type, add_items, user_service, handle_bundle, parse_bootstrap,
}
use rt_mbms_mw.Announcement.Envelope.{set_items, handle_mbms_envelope}
use rt_mbms_mw.Announcement.World.{World, Setting}
use rt_mbms_mw.Announcement.Xml.{
  bundle_description, user_service_description, mbms_envelope, mbms_user_service_description,
  default_format,
}
use rt_mbms_mw.Cache.{lookup_value}

-- The items behind the parts of the text.
abbrev pub with_parts : {E F D : Type 0} → Setting E D → Bytes → World F D → World F D
with_parts g str w = set_items (add_service_announcement_items (g.mime_parts str) w.self.items) w

-- The envelopes among the items are handled, and one item is a bundle, of one description.
pub record IsAnnouncement {E F D : Type 0} (g : Setting E D) (str : Bytes) (w : World F D)
    : Type 0 where
  pub dated : World F D
  pub dated_ok :
      for_each
        (if_type mbms_envelope (handle_mbms_envelope g))
        (with_parts g str w).self.items
        (with_parts g str w)
      ≡ (ok tt, dated)
  pub item : Item
  pub only : IsOnly (λ i. equal i.content_type mbms_user_service_description) dated.self.items item
  pub bundle : E
  pub bundles : List E
  pub bundle_at : g.xml.children bundle_description (g.xml.parse item.content) ≡ bundle ∷ bundles
  pub usd : E
  pub usd_at : g.xml.children user_service_description bundle ≡ usd ∷ []

module _ {F D : Type 0} where
  if_type-Skips :
      (type : Bytes) (handle : Item → Action (World F D) Nothing) (i : Item)
      → equal i.content_type type ≡ false
      → Skips (if_type type handle) i
  unfolding if_type
  if_type-Skips type handle i n w = rw n refl

  chosen_type :
      (type : Bytes) (handle : Item → Action (World F D) Nothing) (i : Item) (w : World F D)
      {v : World F D}
      → equal i.content_type type ≡ true
      → handle i w ≡ (ok tt, v)
      → if_type type handle i w ≡ (ok tt, v)
  unfolding if_type
  chosen_type type handle i w y h = rw y h

module _ {E F D : Type 0} ⦃float : Float D⦄ (g : Setting E D) where
  handle_bundle-ok :
      (i : Item) (format : Bytes) (bundle : E) (bundles : List E) (usd : E) (w v : World F D)
      → g.xml.children bundle_description (g.xml.parse i.content) ≡ bundle ∷ bundles
      → g.xml.children user_service_description bundle ≡ usd ∷ []
      → user_service g format usd w ≡ (ok tt, v)
      → handle_bundle g i format w ≡ (ok tt, v)
  unfolding handle_bundle catching handled for_each ◌>>=◌ ◌>>◌ continue not_null
  handle_bundle-ok i format bundle bundles usd w v e f h =
      rw (e, not_null, continue, f, for_each, h, continue, handled) refl

  -- If the handling of the description returns, so does the parser.
  pub parse_bootstrap-ok :
      (str : Bytes) (w v : World F D) (a : IsAnnouncement g str w)
      → user_service g (lookup_value g.bootstrap_format default_format) a.usd a.dated ≡ (ok tt, v)
      → parse_bootstrap g str w ≡ (ok tt, v)
  unfolding parse_bootstrap add_items ◌>>=◌ ◌>>◌ continue
  parse_bootstrap-ok str w v a h =
      let format = lookup_value g.bootstrap_format default_format in
      let handle = λ (i : Item). handle_bundle {F = F} g i format in
      let round = if_type mbms_user_service_description handle in
      rw (a.dated_ok, continue)
        (ap (λ l. for_each round l a.dated) a.only.split
          ∙ for_each_one round a.only.before a.item a.only.after a.dated v
              (All-map a.only.before (if_type-Skips mbms_user_service_description handle)
                a.only.none_before)
              (All-map a.only.after (if_type-Skips mbms_user_service_description handle)
                a.only.none_after)
              (chosen_type mbms_user_service_description handle a.item a.dated a.only.passes (
                handle_bundle-ok a.item format a.bundle a.bundles a.usd a.dated v a.bundle_at
                  a.usd_at h)))
