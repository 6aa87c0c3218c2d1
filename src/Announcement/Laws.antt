-- ===== src/Announcement/Laws.antt =====
-- Which items an announcement adds.
use rt_mbms_mw.Prelude.{
  List, [], ◌∷◌, ◌++◌, ◌≡◌, sym, ◌∙◌, inl, inr, if◌then◌else◌, append_assoc, append-nil, Bool-cases,
}
use rt_mbms_mw.Prelude.Key.{equal}
use rt_mbms_mw.Announcement.{
  MimePart, Item, location_text, item_of, add_part, add_service_announcement_items,
}

-- The items of the parts with a location, in order.
pub located : List MimePart → List Item
located [] = []
located (p ∷ ps) =
    if equal (location_text p.location) [] then located ps else item_of p ∷ located ps

-- The parts with a location become items, in order, behind the items that are there; none of those
-- is dropped, and a part that comes again becomes one more item.
pub add_service_announcement_items-located :
    (ps : List MimePart) (items : List Item)
    → add_service_announcement_items ps items ≡ items ++ located ps
unfolding add_service_announcement_items add_part located
add_service_announcement_items-located [] items = sym (append-nil items)
add_service_announcement_items-located (p ∷ ps) items =
    elim (Bool-cases (equal (location_text p.location) [])) [
      | inl bare ↦ rw bare (add_service_announcement_items-located ps items)
      | inr placed ↦ rw placed (
          add_service_announcement_items-located ps (items ++ (item_of p ∷ []))
          ∙ append_assoc items (item_of p ∷ []) (located ps))
    ]
