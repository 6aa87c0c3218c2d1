-- ===== src/Middleware/Tick.antt =====
-- `tick_handler` and `control_tick_handler` of src/Middleware.cpp. They set their timers again when
-- they return.
use rt_mbms_mw.Backend.Lifetime.{all_held}
use rt_mbms_mw.Prelude.{ℕ, Bool, not, ◌&&◌, [], Option, none, some, if◌then◌else◌, ltb, take}
use rt_mbms_mw.Prelude.Int.{ℤ}
use rt_mbms_mw.Prelude.Key.{Bytes, equal}
use rt_mbms_mw.Prelude.Result.{Result, ok, throw, terminate, standard}
use rt_mbms_mw.Prelude.Strtoul.{stoul_base}
use rt_mbms_mw.Prelude.Text.{codes}
use rt_mbms_mw.Announcement.{ServiceAnnouncement, announcement_init}
use rt_mbms_mw.Announcement.Action.{
  Action, Nothing, return, raise, ask, settle, for_each, ◌>>=◌, ◌>>◌,
}
use rt_mbms_mw.Announcement.Receiver.{start_flute_receiver}
use rt_mbms_mw.Backend.{Backend}
use rt_mbms_mw.Cache.{check_file_expiry_and_cache_size, lookup_value}
use rt_mbms_mw.Clients.{Json, Servers, Hello, get_mch_info, get_status, send_hello}
use rt_mbms_mw.Flute.{Flute}
use rt_mbms_mw.Middleware.{Middleware, Config}
use rt_mbms_mw.Rest.Rows.{heap_of}

module _ {W X : Type 0} where
  -- A value of a library that may throw instead.
  unfoldable pub or_throw : Option X → Action W X
  or_throw none = raise standard
  or_throw (some x) = return x

  -- A result of a call that changes nothing here.
  unfoldable pub lift : Result X → Action W X
  lift r w = (r, w)

-- `std::stoul(tmgi.substr(0, 6), nullptr, 16) < 0xF`
unfoldable pub is_service_announcement : Bytes → Result Bool
is_service_announcement tmgi = tested (stoul_base 16 (take 6 tmgi))
  where
    tested : Result ℕ → Result Bool
    tested (ok n) = ok (ltb n 15)
    tested (throw e) = throw e
    tested terminate = terminate

module _ {F D : Type 0} where
  abbrev pub set_backend : Backend F D → Middleware F D → Middleware F D
  set_backend b m = record m { backend = b }

  unfoldable pub started_announcement :
      Result Nothing × ServiceAnnouncement → Middleware F D → Result Nothing × Middleware F D
  started_announcement (r, a) m = (r, set_backend (record (m.backend) { announcement = some a }) m)

  -- A new announcement, which starts to receive.
  unfoldable pub start_announcement : ℕ → Bytes → Bytes → Action (Middleware F D) Nothing
  unfolding started_announcement
  start_announcement tsi tmgi dest m =
      started_announcement
        (start_flute_receiver dest (announcement_init tmgi tsi m.interface m.seamless)) m

  -- The last statement of a round.
  unfoldable pub consider :
      ℕ → Bytes → Bytes → Bool → Option ServiceAnnouncement → Action (Middleware F D) Nothing
  unfolding start_announcement
  consider tsi tmgi dest wanted (some a) = return tt
  consider tsi tmgi dest wanted none =
      if not (equal dest []) && wanted then start_announcement tsi tmgi dest else return tt

  -- The check of the cache at the time `now`. A generated item is never too old, so its closure is
  -- called for its length (the time 0 apart).
  unfoldable pub check_cache : ⦃flute : Flute F⦄ → ℕ → Action (Middleware F D) Nothing
  unfolding settle
  check_cache now m =
      if all_held m.backend
      then settle (check_file_expiry_and_cache_size (heap_of m.backend) now m.backend.cache)
          (λ c. set_backend (record (m.backend) { cache = c }) m) m
      else (terminate, m)

module _ {J F D : Type 0} (json : Json J D) (cfg : Config) where
  -- A round of the inner loop.
  unfoldable pub mtch_round : J → Action (Middleware F D) Nothing
  unfolding ◌>>=◌ or_throw lift consider
  mtch_round mtch = do
    tmgi_value ← or_throw (json.at (codes "tmgi") mtch)
    tmgi ← or_throw (json.as_string tmgi_value)
    dest_value ← or_throw (json.at (codes "dest") mtch)
    dest ← or_throw (json.as_string dest_value)
    wanted ← lift (is_service_announcement tmgi)
    announcement ← ask (λ (m : Middleware F D). m.backend.announcement)
    consider (lookup_value cfg.service_announcement_tsi 0) tmgi dest wanted announcement

  -- A round of the outer loop.
  unfoldable pub mch_round : J → Action (Middleware F D) Nothing
  unfolding ◌>>=◌ or_throw for_each mtch_round
  mch_round mch = do
    mtchs ← or_throw (json.at (codes "mtchs") mch)
    list ← or_throw (json.as_array mtchs)
    for_each mtch_round list

  -- The two loops over the answer of the modem.
  unfoldable pub read_mch_info : J → Action (Middleware F D) Nothing
  unfolding ◌>>=◌ or_throw for_each mch_round
  read_mch_info mchs = do list ← or_throw (json.as_array mchs); for_each mch_round list

  -- `tick_handler`
  unfoldable pub tick_handler :
      ⦃flute : Flute F⦄ → Servers J D → ℕ → Action (Middleware F D) Nothing
  unfolding ◌>>=◌ ◌>>◌ lift read_mch_info check_cache
  tick_handler servers now = do
    url ← ask (λ m. m.rp)
    mchs ← lift (get_mch_info json servers url)
    read_mch_info mchs
    check_cache now

module _ {J F D : Type 0} (json : Json J D) (servers : Servers J D) where
  -- The request that is posted for a status.
  unfoldable pub hello_for : Middleware F D → ℤ → Result J → Option (Hello D)
  hello_for m now terminate = none
  hello_for m now (throw e) = none
  hello_for m now (ok status) = elim (json.at (codes "cinr_db") status) [
    | none ↦ none
    | some v ↦ elim (json.as_double v) [
      | none ↦ none
      | some cinr ↦ (send_hello json servers m.control now cinr []).0
    ]
  ]

  -- `control_tick_handler` at the time `now`: the request that it posts. It catches every exception,
  -- only logs the answer, and changes nothing.
  unfoldable pub control_tick_handler : Middleware F D → ℤ → Option (Hello D)
  unfolding hello_for
  control_tick_handler m now =
      if m.control_system then hello_for m now (get_status json servers m.rp) else none
