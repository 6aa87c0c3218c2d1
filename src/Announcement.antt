-- ===== src/Announcement.antt =====
-- The state and the items of src/ServiceAnnouncement.cpp and src/ServiceAnnouncement.h. The MIME
-- library is a parameter: its parts are an argument.
pub mod Action
pub mod World
pub mod Xml
pub mod Setup
pub mod Envelope
pub mod Bundle
pub mod Receiver
pub mod Keeps
pub mod Caught
pub mod Missing
pub mod Address
pub mod Announced
pub mod Known
pub mod Updates
pub mod Sound
pub mod Laws
pub mod Samples
pub mod Runs
pub mod Tests
use rt_mbms_mw.Prelude.{ℕ, Bool, false, List, [], ◌∷◌, ◌++◌, Option, none, some, if◌then◌else◌}
use rt_mbms_mw.Prelude.Int.{ℤ, pos}
use rt_mbms_mw.Prelude.Key.{Bytes, equal}
use rt_mbms_mw.Prelude.Text.{trim_left}

-- A leaf of the MIME tree: its type, its header `Content-Location`, and its text with the headers
-- that are not hidden.
pub record MimePart : Type 0 where
  pub mime_type : Bytes
  pub location : Option Bytes
  pub text : Bytes

-- `ServiceAnnouncement::Item`
pub record Item : Type 0 where
  pub content_type : Bytes
  pub uri : Bytes
  pub valid_from : ℤ
  pub valid_until : ℤ
  pub version : ℕ
  pub content : Bytes

abbrev pub location_text : Option Bytes → Bytes
location_text none = []
location_text (some l) = l

-- The item that is made of a part.
abbrev pub item_of : MimePart → Item
item_of p = record {
  content_type = p.mime_type;
  uri = location_text p.location;
  valid_from = pos 0;
  valid_until = pos 0;
  version = 0;
  content = trim_left p.text;
}

-- A round of the loop; a part without a location is left out.
unfoldable pub add_part : MimePart → List Item → List Item
add_part p items = if equal (location_text p.location) [] then items else items ++ (item_of p ∷ [])

-- The loop of `_addServiceAnnouncementItems`
unfoldable pub add_service_announcement_items : List MimePart → List Item → List Item
add_service_announcement_items [] items = items
add_service_announcement_items (p ∷ ps) items = add_service_announcement_items ps (add_part p items)

-- The members that carry state, with the settings of the constructor; `flute_thread` says whether
-- the thread has been started. `dates_read` is no member of the source: it counts the calls of
-- `std::get_time`, each on a `std::tm` that holds what the stack held.
pub record ServiceAnnouncement : Type 0 where
  pub tmgi : Bytes
  pub tsi : ℕ
  pub iface : Bytes
  pub seamless : Bool
  pub items : List Item
  pub bootstrapped : Bool
  pub toi : ℕ
  pub raw_content : Bytes
  pub mcast_addr : Bytes
  pub mcast_port : Bytes
  pub base_path : Bytes
  pub flute_thread : Bool
  pub dates_read : ℕ

-- The constructor; it does not use the multicast address.
abbrev pub announcement_init : Bytes → ℕ → Bytes → Bool → ServiceAnnouncement
announcement_init tmgi tsi iface seamless = record {
  tmgi = tmgi;
  tsi = tsi;
  iface = iface;
  seamless = seamless;
  items = [];
  bootstrapped = false;
  toi = 0;
  raw_content = [];
  mcast_addr = [];
  mcast_port = [];
  base_path = [];
  flute_thread = false;
  dates_read = 0;
}
