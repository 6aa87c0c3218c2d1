-- ===== src/Middleware/Sound.antt =====
-- The runs of the middleware, and the invariant that holds along them.
use rt_mbms_mw.Backend.Lifetime.{all_held}
use rt_mbms_mw.Prelude.{ℕ, Bool, Option, none, some, ◌≡◌, subst, All, true, false, if◌then◌else◌}
use rt_mbms_mw.Prelude.Float.{Float}
use rt_mbms_mw.Prelude.Int.{ℤ}
use rt_mbms_mw.Prelude.Key.{Bytes, bytes_key}
use rt_mbms_mw.Prelude.Result.{Result, ok, WhenOk-all, WhenOk-eq, terminate}
use rt_mbms_mw.Announcement.{ServiceAnnouncement}
use rt_mbms_mw.Announcement.Action.{Action, Nothing}
use rt_mbms_mw.Announcement.Keeps.{Keeps, keeps_rules, settle-kept}
use rt_mbms_mw.Announcement.Receiver.{announcement_received}
use rt_mbms_mw.Announcement.World.{World, Setting}
use rt_mbms_mw.Backend.{Backend, stream_received, stream_ticked, stream_fetched, segment_answered}
use rt_mbms_mw.Backend.Sound.{EntryIn, IsSound, room}
use rt_mbms_mw.Backend.Streams.{with_cache-IsSound}
use rt_mbms_mw.Cache.{CacheManagement, cache_init, check_file_expiry_and_cache_size}
use rt_mbms_mw.Cache.Kept.{check-All}
use rt_mbms_mw.Cache.Laws.{IsValid, check_returns}
use rt_mbms_mw.Cdn.{Http, CdnFile}
use rt_mbms_mw.Clients.{Json, Servers}
use rt_mbms_mw.Flute.{Flute}
use rt_mbms_mw.Middleware.{Middleware, Config, middleware_init, with_world}
use rt_mbms_mw.Middleware.Tick.{
  or_throw, lift, set_backend, started_announcement, start_announcement, consider, mtch_round,
  mch_round, read_mch_info, check_cache, tick_handler,
}
use rt_mbms_mw.Rest.{RestHandler, Request, Reply, rest_get}
use rt_mbms_mw.Rest.Rows.{heap_of}

module _ {E F D J : Type 0} ⦃flute : Flute F⦄ ⦃float : Float D⦄ (g : Setting E D) (json : Json J D)
    (cfg : Config) where
  -- What may happen: a request, a file for a stream or its timer, a file for the announcement, the
  -- timer of the middleware, and a completion callback of the CDN client, for a segment or for a
  -- stream, which runs in a thread of the HTTP library and may come at any time. A call that throws
  -- has no step: it ends the run.
  pub data Step (m : Middleware F D) : Middleware F D → Type 0 where
    requested :
        (r : RestHandler) (http : Http) (now : ℕ) (q : Request) (reply : Reply D) (b : Backend F D)
        → rest_get r http now q m.backend ≡ ok (reply, b)
        → Step m (set_backend b m)
    stream_file :
        (garbage : ℤ) (place : ℕ) (file : F) (b : Backend F D)
        → stream_received garbage place file m.backend ≡ ok b
        → Step m (set_backend b m)
    stream_timer :
        (http : Http) (garbage : ℤ) (place : ℕ) (b : Backend F D)
        → stream_ticked http garbage place m.backend ≡ ok b
        → Step m (set_backend b m)
    segment_answer :
        (now place : ℕ) (file : CdnFile) (b : Backend F D)
        → segment_answered now place file m.backend ≡ ok b
        → Step m (set_backend b m)
    stream_answer :
        (garbage : ℤ) (place : ℕ) (file : CdnFile) (b : Backend F D)
        → stream_fetched garbage place file m.backend ≡ ok b
        → Step m (set_backend b m)
    announcement_file :
        (a : ServiceAnnouncement) (file : F) (w : World F D)
        → m.backend.announcement ≡ some a
        → announcement_received g file (record { self = a; backend = m.backend }) ≡ (ok tt, w)
        → Step m (with_world w m)
    timer :
        (servers : Servers J D) (now : ℕ) (n : Middleware F D)
        → tick_handler json cfg servers now m ≡ (ok tt, n)
        → Step m n

  pub data Reach (m : Middleware F D) : Middleware F D → Type 0 where
    here : Reach m m
    next : {n k : Middleware F D} → Reach m n → Step n k → Reach m k

module _ {F D : Type 0} where
  abbrev pub SoundMiddleware : Middleware F D → Type 0
  SoundMiddleware m = IsSound m.backend

  abbrev KeepsSound : {X : Type 0} → Action (Middleware F D) X → Type 0
  KeepsSound m = Keeps SoundMiddleware m

  -- The announcement of the state does not count.
  pub announced-IsSound :
      (b : Backend F D) (o : Option ServiceAnnouncement)
      → IsSound b
      → IsSound (record b { announcement = o })
  announced-IsSound b o h = record {
    cache_in = h.cache_in;
    streams_in = h.streams_in;
    services_in = h.services_in;
    registry_sorted = h.registry_sorted;
    registered = h.registered;
  }

  pub init-IsSound :
      (cfg : Config) (iface : Bytes) → SoundMiddleware (middleware_init {F = F} {D = D} cfg iface)
  unfolding middleware_init cache_init
  init-IsSound cfg iface = record {
    cache_in = record { sorted = tt; entries = tt };
    streams_in = tt;
    services_in = tt;
    registry_sorted = tt;
    registered = tt;
  }

  or_throw-Keeps : {X : Type 0} (o : Option X) → KeepsSound (or_throw o)
  unfolding or_throw
  or_throw-Keeps none = search keeps_rules
  or_throw-Keeps (some x) = search keeps_rules

  lift-Keeps : {X : Type 0} (r : Result X) → KeepsSound (lift r)
  unfolding lift
  lift-Keeps r = record { at = λ m h. h }

  start-Keeps : (tsi : ℕ) (tmgi dest : Bytes) → KeepsSound (start_announcement tsi tmgi dest)
  unfolding start_announcement started_announcement
  start-Keeps tsi tmgi dest = record { at = λ m h. announced-IsSound m.backend _ h }

  consider-Keeps :
      (tsi : ℕ) (tmgi dest : Bytes) (b : Bool) (o : Option ServiceAnnouncement)
      → KeepsSound (consider tsi tmgi dest b o)
  unfolding consider
  consider-Keeps tsi tmgi dest b (some a) = search keeps_rules
  consider-Keeps tsi tmgi dest b none = search (keeps_rules, start-Keeps)

  module _ {J : Type 0} (json : Json J D) (cfg : Config) where
    mtch_round-Keeps : (v : J) → KeepsSound (mtch_round json cfg v)
    unfolding mtch_round
    mtch_round-Keeps v =
        search (keeps_rules, or_throw-Keeps, lift-Keeps, consider-Keeps) depth 16 fits 2000

    mch_round-Keeps : (v : J) → KeepsSound (mch_round json cfg v)
    unfolding mch_round
    mch_round-Keeps v = search (keeps_rules, or_throw-Keeps, mtch_round-Keeps) depth 9

    pub read_mch_info-Keeps : (v : J) → KeepsSound (read_mch_info json cfg v)
    unfolding read_mch_info
    read_mch_info-Keeps v = search (keeps_rules, or_throw-Keeps, mch_round-Keeps) depth 9

    module _ ⦃flute : Flute F⦄ where
      checked :
          (b : Backend F D) (now : ℕ) (c : CacheManagement F)
          → IsSound b
          → check_file_expiry_and_cache_size (heap_of b) now b.cache ≡ ok c
          → IsSound (record b { cache = c })
      checked b now c h e =
          let (d, f, v) =
            check_returns (heap_of b) now b.cache (record { sorted = h.cache_in.sorted }) in
          let same : d ≡ c = cc in
          with_cache-IsSound b c
            (record {
              sorted = (subst IsValid same v).sorted;
              entries =
                  WhenOk-eq (λ (x : CacheManagement F). All (EntryIn (room b)) x.cache_items) _
                    (check-All (EntryIn (room b)) (heap_of b) now b.cache h.cache_in.entries) e;
            })
            h

      guarded :
          (m : Middleware F D) (x : Result Nothing × Middleware F D) (held : Bool)
          → SoundMiddleware m
          → SoundMiddleware x.1
          → SoundMiddleware (if held then x else (terminate, m)).1
      guarded m x true h k = k
      guarded m x false h k = h

      pub check_cache-Keeps : (now : ℕ) → KeepsSound (check_cache now)
      unfolding check_cache
      check_cache-Keeps now = record {
        at = λ m h. guarded m _ (all_held m.backend) h (
            settle-kept SoundMiddleware _ _ m h
              (WhenOk-all _ _ λ c e. checked m.backend now c h e));
      }

      pub tick-Keeps :
          (servers : Servers J D) (now : ℕ) → KeepsSound (tick_handler json cfg servers now)
      unfolding tick_handler
      tick-Keeps servers now =
          search (keeps_rules, lift-Keeps, read_mch_info-Keeps, check_cache-Keeps) depth 9
