-- ===== src/Announcement/Updates.antt =====
-- What the metadata envelope does to the items.
use rt_mbms_mw.Prelude.{
  List, [], ◌∷◌, ◌++◌, some, ◌≡◌, refl, sym, ap, ◌∙◌, inl, inr, Bool-cases, if◌then◌else◌,
  append_assoc, ℕ, suc, true, false,
}
use rt_mbms_mw.Prelude.Key.{Bytes, equal}
use rt_mbms_mw.Prelude.Result.{ok}
use rt_mbms_mw.Announcement.{Item}
use rt_mbms_mw.Announcement.Action.{string_of, not_null, continue, ◌>>=◌, ◌>>◌}
use rt_mbms_mw.Announcement.Envelope.{
  to_version, write_item, update_item, envelope_item, envelope_items, envelope_element, read_date,
}
use rt_mbms_mw.Announcement.World.{World, Setting}
use rt_mbms_mw.Announcement.Xml.{Xml, metadata_uri, valid_from, valid_until, version}

-- The attributes of an element for an item.
pub record Metadata : Type 0 where
  pub uri : Bytes
  pub from : Bytes
  pub until : Bytes
  pub version_text : Bytes

-- The element has them all.
pub record HasMetadata {E : Type 0} (xml : Xml E) (e : E) (d : Metadata) : Type 0 where
  pub uri_at : xml.attribute metadata_uri e ≡ some d.uri
  pub from_at : xml.attribute valid_from e ≡ some d.from
  pub until_at : xml.attribute valid_until e ≡ some d.until
  pub version_at : xml.attribute version e ≡ some d.version_text

module _ {E D : Type 0} (g : Setting E D) where
  -- The item with what the calls `n` and `suc n` of `std::get_time` make of the dates.
  abbrev changed : ℕ → Metadata → Item → Item
  changed n d i = record i {
    valid_from = g.read_time n d.from;
    valid_until = g.read_time (suc n) d.until;
    version = to_version d.version_text;
  }

  -- The items with the dates and the version of the element, where they are the ones that are meant;
  -- each of these takes the next two calls.
  unfoldable pub dated : ℕ → Metadata → List Item → List Item
  dated n d [] = []
  dated n d (i ∷ items) =
      let here = changed n d i ∷ dated (suc (suc n)) d items in
      let other = i ∷ dated n d items in if equal i.uri d.uri then here else other

  -- The calls so far, behind these items.
  unfoldable pub calls : ℕ → Metadata → List Item → ℕ
  calls n d [] = n
  calls n d (i ∷ items) =
      let here = calls (suc (suc n)) d items in
      let other = calls n d items in if equal i.uri d.uri then here else other

  module _ {F : Type 0} where
    abbrev pub with_dates : ℕ → List Item → World F D → World F D
    with_dates n items w = record w { self = record (w.self) { items = items; dates_read = n } }

    module _ (e : E) (d : Metadata) (h : HasMetadata g.xml e d) where
      item-changed :
          (before : List Item) (i : Item) (after : List Item) (w : World F D)
          → equal i.uri d.uri ≡ true
          → envelope_item g e before i after w ≡ (
            ok (changed w.self.dates_read d i),
            with_dates
                (suc (suc w.self.dates_read))
                (before ++ (changed w.self.dates_read d i ∷ after))
                w,
          )
      unfolding envelope_item update_item write_item read_date ◌>>=◌ ◌>>◌ continue string_of
          not_null
      item-changed before i after w meant =
          rw (h.uri_at, not_null, continue, meant, h.from_at, h.until_at, h.version_at, string_of)
            refl

      item-left :
          (before : List Item) (i : Item) (after : List Item) (w : World F D)
          → equal i.uri d.uri ≡ false
          → envelope_item g e before i after w ≡ (ok i, w)
      unfolding envelope_item ◌>>=◌ continue not_null
      item-left before i after w other = rw (h.uri_at, not_null, continue, other) refl

      items-dated :
          (before after : List Item) (w : World F D)
          → w.self.items ≡ before ++ after
          → envelope_items g e before after w ≡ (
            ok tt,
            with_dates
                (calls w.self.dates_read d after)
                (before ++ dated w.self.dates_read d after)
                w,
          )
      unfolding envelope_items dated calls ◌>>=◌ continue
      items-dated before [] w s = ap (λ l. (ok tt, with_dates w.self.dates_read l w)) s
      items-dated before (i ∷ after) w s = elim (Bool-cases (equal i.uri d.uri)) [
        | inl meant ↦
            let n = w.self.dates_read in
            let j = changed n d i in
            let v = with_dates (suc (suc n)) (before ++ (j ∷ after)) w in
            rw meant (
              ap (continue (λ x. envelope_items g e (before ++ (x ∷ [])) after))
                (item-changed before i after w meant)
              ∙ items-dated (before ++ (j ∷ [])) after v (sym (append_assoc before (j ∷ []) after))
              ∙ ap (λ l. (ok tt, with_dates (calls (suc (suc n)) d after) l w))
                  (append_assoc before (j ∷ []) (dated (suc (suc n)) d after)))
        | inr other ↦
            let n = w.self.dates_read in
            rw other (
              ap (continue (λ x. envelope_items g e (before ++ (x ∷ [])) after))
                (item-left before i after w other)
              ∙ items-dated (before ++ (i ∷ [])) after w
                  (s ∙ sym (append_assoc before (i ∷ []) after))
              ∙ ap (λ l. (ok tt, with_dates (calls n d after) l w))
                  (append_assoc before (i ∷ []) (dated n d after)))
      ]

      -- An element of the metadata envelope with a URI, two dates and a version goes through the
      -- items in order: an item with that URI, also where several have it, takes the version, and the
      -- dates that the next two calls of `std::get_time` read from the texts, which depend on the
      -- memory of these calls and may differ from item to item. The other items and everything else
      -- stay as they are.
      pub envelope_element-dated :
          (w : World F D)
          → envelope_element g e w ≡ (
            ok tt,
            with_dates
                (calls w.self.dates_read d w.self.items)
                (dated w.self.dates_read d w.self.items)
                w,
          )
      unfolding envelope_element ◌>>=◌ continue
      envelope_element-dated w = items-dated [] w.self.items w refl
