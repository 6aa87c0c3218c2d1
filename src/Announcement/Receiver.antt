-- ===== src/Announcement/Receiver.antt =====
-- `start_flute_receiver` of src/ServiceAnnouncement.cpp, and the callback that it registers.
use rt_mbms_mw.Prelude.{ℕ, true, not, ◌||◌, [], ◌∷◌, Option, none, some, if◌then◌else◌, ◌==◌}
use rt_mbms_mw.Prelude.Float.{Float}
use rt_mbms_mw.Prelude.Key.{Bytes, equal}
use rt_mbms_mw.Prelude.Result.{ok, standard}
use rt_mbms_mw.Prelude.Text.{codes, has}
use rt_mbms_mw.Announcement.{ServiceAnnouncement}
use rt_mbms_mw.Announcement.Action.{
  Action, Nothing, return, crash, raise, ask, change, not_null, ◌>>=◌, ◌>>◌,
}
use rt_mbms_mw.Announcement.Bundle.{parse_bootstrap}
use rt_mbms_mw.Announcement.World.{World, Setting}
use rt_mbms_mw.Flute.{Flute}
use rt_mbms_mw.Service.{before_first}

-- What stands behind the first byte `c`.
unfoldable pub after_first : ℕ → Bytes → Bytes
after_first c [] = []
after_first c (x ∷ s) = let rest = after_first c s in if x == c then s else rest

-- `std::string` of a pointer to these bytes: what stands before the first zero. Without one it reads
-- out of bounds.
unfoldable pub c_string : Bytes → Option Bytes
c_string s = if has 0 s then some (before_first 0 s) else none

-- `start_flute_receiver`; a second thread would end the process.
unfoldable pub start_flute_receiver : Bytes → Action ServiceAnnouncement Nothing
start_flute_receiver mcast_address a =
    if not (has b':' mcast_address)
    then (ok tt, a)
    else let b = record a {
      mcast_addr = before_first b':' mcast_address;
      mcast_port = after_first b':' mcast_address;
    } in
      if a.flute_thread then crash b else (ok tt, record b { flute_thread = true })

module _ {F D : Type 0} where
  unfoldable pub unzipped : Option Bytes → Action (World F D) Bytes
  unzipped none = raise standard
  unzipped (some s) = return s

  unfoldable pub set_toi : ℕ → Action (World F D) Nothing
  set_toi toi = change (λ w. record w { self = record (w.self) { toi = toi } })

  unfoldable pub set_raw_content : Bytes → Action (World F D) Nothing
  set_raw_content raw = change (λ w. record w { self = record (w.self) { raw_content = raw } })

module _ {E F D : Type 0} ⦃flute : Flute F⦄ (g : Setting E D) where
  -- `_raw_content`
  unfoldable pub raw_of : F → Action (World F D) Bytes
  unfolding not_null unzipped
  raw_of file =
      if equal (flute.content_type file) (codes "application/x-gzip")
      then unzipped (g.gzip_decompress (flute.buffer file))
      else not_null (c_string (flute.buffer file))

  -- The callback for a received file; the text that is parsed is that of the buffer.
  unfoldable pub announcement_received : ⦃float : Float D⦄ → F → Action (World F D) Nothing
  unfolding ◌>>=◌ ◌>>◌ raw_of set_toi set_raw_content
  announcement_received file = do
    wanted ← ask (λ w. not w.self.bootstrapped || not (w.self.toi == flute.toi file))
    if wanted
        then (do
          set_toi (flute.toi file)
          raw ← raw_of file
          set_raw_content raw
          text ← not_null (c_string (flute.buffer file))
          parse_bootstrap g text)
        else return tt
