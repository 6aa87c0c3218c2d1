-- ===== src/Middleware/Laws.antt =====
-- What the timers of the middleware do, and the announcement from a file.
use rt_mbms_mw.Prelude.{
  ℕ, Bool, true, false, [], Option, none, some, ◌≡◌, ◌≢◌, refl, sym, ap, subst, if◌then◌else◌, ◌∙◌,
}
use rt_mbms_mw.Prelude.Float.{Float}
use rt_mbms_mw.Prelude.Int.{ℤ}
use rt_mbms_mw.Prelude.Key.{Bytes, equal}
use rt_mbms_mw.Prelude.Result.{Result, ok, throw, terminate, Exception}
use rt_mbms_mw.Prelude.Text.{codes}
use rt_mbms_mw.Announcement.{ServiceAnnouncement}
use rt_mbms_mw.Announcement.Action.{Nothing, ask, continue, ◌>>=◌}
use rt_mbms_mw.Announcement.Keeps.{Keeps, keeps_rules}
use rt_mbms_mw.Announcement.World.{World, Setting}
use rt_mbms_mw.Clients.{Json, Servers, Hello, send_hello, hello_request, get_status}
use rt_mbms_mw.Middleware.{
  Middleware, Config, caught, read_local, handle_local_service_announcement,
}
use rt_mbms_mw.Middleware.Tick.{
  or_throw, lift, consider, mtch_round, mch_round, read_mch_info, hello_for, control_tick_handler,
}

module _ {F D : Type 0} (m : Middleware F D) where
  abbrev Same : Middleware F D → Type 0
  Same n = n ≡ m

  or_throw-Same : {X : Type 0} (o : Option X) → Keeps Same (or_throw o)
  unfolding or_throw
  or_throw-Same none = search keeps_rules
  or_throw-Same (some x) = search keeps_rules

  lift-Same : {X : Type 0} (r : Result X) → Keeps Same (lift r)
  unfolding lift
  lift-Same r = record { at = λ n h. h }

module _ {F D : Type 0} (m : Middleware F D) (a : ServiceAnnouncement)
    (e : m.backend.announcement ≡ some a) where
  consider-Same :
      (tsi : ℕ) (tmgi dest : Bytes) (b : Bool)
      → Keeps
          (Same m)
          (ask (λ (n : Middleware F D). n.backend.announcement) >>= consider tsi tmgi dest b)
  unfolding ◌>>=◌ continue consider
  consider-Same tsi tmgi dest b = record { at = λ n h. rw h (rw (e, consider) refl) }

  module _ {J : Type 0} (json : Json J D) (cfg : Config) where
    mtch_round-Same : (v : J) → Keeps (Same m) (mtch_round json cfg v)
    unfolding mtch_round
    mtch_round-Same v =
        search (consider-Same, keeps_rules, or_throw-Same m, lift-Same m) depth 16 fits 2000

    mch_round-Same : (v : J) → Keeps (Same m) (mch_round json cfg v)
    unfolding mch_round
    mch_round-Same v = search (keeps_rules, or_throw-Same m, mtch_round-Same) depth 9

    read_mch_info-Same : (v : J) → Keeps (Same m) (read_mch_info json cfg v)
    unfolding read_mch_info
    read_mch_info-Same v = search (keeps_rules, or_throw-Same m, mch_round-Same) depth 9

-- Once there is an announcement, nothing that the modem answers makes another: the loops over the
-- answer change nothing, however they end.
pub read_mch_info_once :
    {F D J : Type 0} (json : Json J D) (cfg : Config) (v : J) (m : Middleware F D)
    (a : ServiceAnnouncement)
    → m.backend.announcement ≡ some a
    → (read_mch_info json cfg v m).1 ≡ m
read_mch_info_once json cfg v m a e = (read_mch_info-Same m a e json cfg v).at m refl

module _ {E F D : Type 0} ⦃float : Float D⦄ (g : Setting E D) where
  caught_never :
      (m : Middleware F D) (r : Result Nothing) (w : World F D) (x : Exception)
      → (caught m (r, w)).0 ≢ throw x
  unfolding caught
  caught_never m (ok y) w x e = cc
  caught_never m (throw y) w x e = cc
  caught_never m terminate w x e = cc

  caught_announces :
      (m : Middleware F D) (r : Result Nothing) (w : World F D)
      → (a : ServiceAnnouncement) × ((caught m (r, w)).1.backend.announcement ≡ some a)
  unfolding caught
  caught_announces m (ok y) w = (w.self, refl)
  caught_announces m (throw y) w = (w.self, refl)
  caught_announces m terminate w = (w.self, refl)

  -- With the local service enabled and a file named, no exception leaves the reading of the file, and
  -- there is an announcement behind it, even if the parser has thrown.
  pub handle_local-announced :
      (read_file : Bytes → Bytes) (cfg : Config) (file : Bytes) (m : Middleware F D)
      → cfg.local_service_enabled ≡ some true
      → cfg.local_service_bootstrap_file ≡ some file
      → equal file [] ≡ false
      → let (r, n) = handle_local_service_announcement g read_file cfg m in
        ((x : Exception) → r ≢ throw x)
        × ((a : ServiceAnnouncement) × (n.backend.announcement ≡ some a))
  unfolding handle_local_service_announcement read_local
  handle_local-announced read_file cfg file m e f n =
      rw (e, f, n) ((λ x. caught_never m _ _ x), caught_announces m _ _)

module _ {F D J : Type 0} (json : Json J D) (servers : Servers J D) where
  sent_hello :
      (m : Middleware F D) (now : ℤ) (cinr : D) (h : Hello D)
      → (send_hello json servers m.control now cinr []).0 ≡ some h
      → (h.services ≡ [])
        × (h.sn ≡ m.control.machine_id)
        × (h.timestamp ≡ now)
        × (h.cinr ≡ cinr)
        × ((url : Bytes) × (m.control.client ≡ some url))
  unfolding send_hello hello_request
  sent_hello m now cinr h = posted m.control.client refl
    where
      posted :
          (o : Option Bytes)
          → m.control.client ≡ o
          → (send_hello json servers m.control now cinr []).0 ≡ some h
          → (h.services ≡ [])
            × (h.sn ≡ m.control.machine_id)
            × (h.timestamp ≡ now)
            × (h.cinr ≡ cinr)
            × ((url : Bytes) × (m.control.client ≡ some url))
      posted none e = rw (e, send_hello) (λ q. cc)
      posted (some url) e =
          rw (e, send_hello)
            (λ q.
              let same : hello_request m.control now cinr [] ≡ h = cc in
              subst
                (λ (k : Hello D).
                  (k.services ≡ [])
                  × (k.sn ≡ m.control.machine_id)
                  × (k.timestamp ≡ now)
                  × (k.cinr ≡ cinr)
                  × ((u : Bytes) × (some url ≡ some u)))
                same (refl, refl, refl, refl, (url, refl)))

  -- What is posted, for a status with a value `cinr`.
  pub record Posted (m : Middleware F D) (now : ℤ) (h : Hello D) : Type 0 where
    pub enabled : m.control_system ≡ true
    pub endpoint : (url : Bytes) × (m.control.client ≡ some url)
    pub status :
        (v : J) × (get_status json servers m.rp ≡ ok v)
        × ((w : J) × (json.at (codes "cinr_db") v ≡ some w) × (json.as_double w ≡ some h.cinr))
    pub sn : h.sn ≡ m.control.machine_id
    pub timestamp : h.timestamp ≡ now
    pub services : h.services ≡ []

  Posted-for :
      (m : Middleware F D) (now : ℤ) (h : Hello D) (r : Result J)
      → m.control_system ≡ true
      → get_status json servers m.rp ≡ r
      → hello_for json servers m now r ≡ some h
      → Posted m now h
  unfolding hello_for
  Posted-for m now h terminate b s q = cc
  Posted-for m now h (throw e) b s q = cc
  Posted-for m now h (ok v) b s q = read (json.at (codes "cinr_db") v) refl q
    where
      converted :
          (w : J) (d : Option D)
          → json.at (codes "cinr_db") v ≡ some w
          → json.as_double w ≡ d
          → elim d [ none ↦ none | some cinr ↦ (send_hello json servers m.control now cinr []).0 ]
            ≡ some h
          → Posted m now h
      converted w none f t q = cc
      converted w (some cinr) f t q =
          let (e, n, c, k, l) = sent_hello m now cinr h q in
          record {
            enabled = b;
            endpoint = l;
            status = (v, s, (w, f, t ∙ ap some (sym k)));
            sn = n;
            timestamp = c;
            services = e;
          }

      read :
          (o : Option J)
          → json.at (codes "cinr_db") v ≡ o
          → hello_for json servers m now (ok v) ≡ some h
          → Posted m now h
      read none f = rw (f, hello_for) (λ q. cc)
      read (some w) f = rw (f, hello_for) (λ q. converted w (json.as_double w) f refl q)

  -- The control timer posts a `hello` only if the control system is enabled, has an endpoint, and the
  -- status of the modem has a number `cinr_db`. The request carries that number, the machine id and
  -- the time, and an empty list of services.
  pub control_tick-Posted :
      (m : Middleware F D) (now : ℤ) (h : Hello D)
      → control_tick_handler json servers m now ≡ some h
      → Posted m now h
  unfolding control_tick_handler
  control_tick-Posted m now h = enabled m.control_system refl
    where
      enabled :
          (b : Bool)
          → m.control_system ≡ b
          → (if b then hello_for json servers m now (get_status json servers m.rp) else none)
            ≡ some h
          → Posted m now h
      enabled true e = Posted-for m now h (get_status json servers m.rp) e refl
      enabled false e = λ q. cc
