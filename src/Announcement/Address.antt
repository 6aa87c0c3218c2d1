-- ===== src/Announcement/Address.antt =====
-- The multicast address of an announcement.
use rt_mbms_mw.Prelude.{ℕ, true, false, [], ◌∷◌, ◌++◌, ◌≡◌, refl, arith}
use rt_mbms_mw.Prelude.Key.{Bytes}
use rt_mbms_mw.Prelude.Result.{ok}
use rt_mbms_mw.Prelude.Text.{has, Lacks}
use rt_mbms_mw.Announcement.{ServiceAnnouncement}
use rt_mbms_mw.Announcement.Receiver.{after_first, start_flute_receiver}
use rt_mbms_mw.Service.Matching.{before_first-append}

has-middle : (c : ℕ) (s t : Bytes) → has c (s ++ (c ∷ t)) ≡ true
unfolding has
has-middle c [] t = ground arith
has-middle c (x ∷ s) t = ground (arith, has-middle c s t)

after_first-middle : (c : ℕ) (s t : Bytes) → Lacks c s → after_first c (s ++ (c ∷ t)) ≡ t
unfolding after_first
after_first-middle c [] t h = ground arith
after_first-middle c (x ∷ s) t (e, h) = rw (e, after_first-middle c s t h) refl

-- From an address and a port with a colon between them, where the address has no colon, the receiver
-- takes both and starts its thread, if it has none; a text without a colon changes nothing.
pub start_flute_receiver-split :
    (addr port text : Bytes) (a : ServiceAnnouncement)
    → Lacks b':' addr
    → has b':' text ≡ false
    → a.flute_thread ≡ false
    → (start_flute_receiver (addr ++ (b':' ∷ port)) a
        ≡ (ok tt, record a { mcast_addr = addr; mcast_port = port; flute_thread = true }))
      × (start_flute_receiver text a ≡ (ok tt, a))
unfolding start_flute_receiver
start_flute_receiver-split addr port text a h k e = (
  rw
      (
        has-middle b':' addr port,
        before_first-append b':' addr port h,
        after_first-middle b':' addr port h,
        e,
      )
      refl,
  rw k refl,
)
