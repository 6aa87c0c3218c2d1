-- ===== src/Announcement/Envelope.antt =====
-- `_handleMbmsEnvelope` of src/ServiceAnnouncement.cpp.
use rt_mbms_mw.Prelude.Result.{ok}
use rt_mbms_mw.Prelude.Int.{ℤ}
use rt_mbms_mw.Prelude.{ℕ, ◌%◌, ◌^◌, List, [], ◌∷◌, ◌++◌, if◌then◌else◌, suc}
use rt_mbms_mw.Prelude.Decimal.{atoi, to_u64}
use rt_mbms_mw.Prelude.Key.{Bytes, equal}
use rt_mbms_mw.Announcement.{Item}
use rt_mbms_mw.Announcement.Action.{
  Action, Nothing, return, ask, change, not_null, string_of, for_each, catching, ◌>>=◌, ◌>>◌,
}
use rt_mbms_mw.Announcement.World.{World, Setting}
use rt_mbms_mw.Announcement.Xml.{
  first, metadata_envelope, metadata_uri, item_element, version, valid_from, valid_until,
}

-- `ir.version = atoi(…)`: an `int` that is stored as an `unsigned`.
unfoldable pub to_version : Bytes → ℕ
to_version s = to_u64 (atoi s) % 2 ^ 32

module _ {F D : Type 0} where
  abbrev pub set_items : List Item → World F D → World F D
  set_items items w = record w { self = record (w.self) { items = items } }

  -- An assignment to a member of the item between `before` and `after`; the item afterwards.
  unfoldable pub write_item : List Item → Item → List Item → Action (World F D) Item
  unfolding ◌>>◌
  write_item before i after = do change (set_items (before ++ (i ∷ after))); return i

-- A date that is read; the members that the text leaves out are what they were in memory.
unfoldable pub read_date : {E F D : Type 0} → Setting E D → Bytes → Action (World F D) ℤ
read_date g s w = (
  ok (g.read_time w.self.dates_read s),
  record w { self = record (w.self) { dates_read = suc w.self.dates_read } },
)

module _ {E F D : Type 0} (g : Setting E D) (element : E) where
  -- The assignments for an item with the URI of the element.
  unfoldable pub update_item : List Item → Item → List Item → Action (World F D) Item
  unfolding ◌>>=◌ write_item read_date
  update_item before i after = do
    from ← string_of (g.xml.attribute valid_from element)
    begin ← read_date g from
    i' ← write_item before (record i { valid_from = begin }) after
    until ← string_of (g.xml.attribute valid_until element)
    end ← read_date g until
    i'' ← write_item before (record i' { valid_until = end }) after
    text ← not_null (g.xml.attribute version element)
    write_item before (record i'' { version = to_version text }) after

  -- A round of the loop over the items; without a URI it reads a null pointer.
  unfoldable pub envelope_item : List Item → Item → List Item → Action (World F D) Item
  unfolding ◌>>=◌ update_item
  envelope_item before i after = do
    uri ← not_null (g.xml.attribute metadata_uri element)
    if equal i.uri uri then update_item before i after else return i

  -- The loop over the items, behind those that it has been at.
  unfoldable pub envelope_items : List Item → List Item → Action (World F D) Nothing
  unfolding ◌>>=◌ envelope_item
  envelope_items before [] = return tt
  envelope_items before (i ∷ after) = do
    j ← envelope_item before i after
    envelope_items (before ++ (j ∷ [])) after

module _ {E F D : Type 0} (g : Setting E D) where
  -- A round of the loop over the elements.
  unfoldable pub envelope_element : E → Action (World F D) Nothing
  unfolding ◌>>=◌ envelope_items
  envelope_element element = do all ← ask (λ w. w.self.items); envelope_items g element [] all

  -- `_handleMbmsEnvelope`
  unfoldable pub handle_mbms_envelope : Item → Action (World F D) Nothing
  unfolding ◌>>=◌ for_each catching envelope_element
  handle_mbms_envelope i = catching (do
    envelope ← not_null (first (g.xml.children metadata_envelope (g.xml.parse i.content)))
    for_each envelope_element (g.xml.children item_element envelope))
