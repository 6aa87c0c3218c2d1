-- ===== src/Middleware.antt =====
-- src/Middleware.cpp and src/Middleware.h.
pub mod Tick
pub mod Sound
pub mod Runs
pub mod Unowned
pub mod Laws
pub mod Tests
pub mod Scenario
use rt_mbms_mw.Prelude.{
  ℕ, Bool, true, false, not, ◌&&◌, List, [], ◌∷◌, Option, none, some, if◌then◌else◌,
}
use rt_mbms_mw.Prelude.Float.{Float}
use rt_mbms_mw.Prelude.Int.{ℤ, pos}
use rt_mbms_mw.Prelude.Key.{Bytes, equal}
use rt_mbms_mw.Prelude.Result.{Result, ok, throw, terminate}
use rt_mbms_mw.Announcement.{ServiceAnnouncement, announcement_init}
use rt_mbms_mw.Announcement.Action.{Action, Nothing}
use rt_mbms_mw.Announcement.Bundle.{parse_bootstrap}
use rt_mbms_mw.Announcement.World.{World, Setting}
use rt_mbms_mw.Backend.{Backend}
use rt_mbms_mw.Cache.{CacheManagement, cache_init, lookup_value}
use rt_mbms_mw.Clients.{ControlSystemRestClient, rp_url, control_init}

-- The members, with the objects that they lead to.
pub record Middleware (F D : Type 0) : Type 0 where
  pub seamless : Bool
  pub rp : Bytes
  pub control : ControlSystemRestClient
  pub control_system : Bool
  -- in seconds
  pub control_tick_interval : ℤ
  pub interface : Bytes
  pub backend : Backend F D

-- The settings of the configuration, by the paths below `mw`; `machine_id` is the content of
-- `/etc/machine-id`.
pub record Config : Type 0 where
  pub seamless_switching_enabled : Option Bool
  pub control_system_enabled : Option Bool
  pub control_system_interval : Option ℤ
  pub control_system_endpoint : Option Bytes
  pub machine_id : Bytes
  pub modem_restful_api_uri : Option Bytes
  pub cache_max_total_size : Option ℕ
  pub cache_max_file_age : Option ℕ
  pub service_announcement_tsi : Option ℕ
  pub local_service_enabled : Option Bool
  pub local_service_bootstrap_file : Option Bytes
  pub local_service_tmgi : Option Bytes

-- The members as they are initialized, with the settings that the constructor looks up.
unfoldable pub middleware_init : {F D : Type 0} → Config → Bytes → Middleware F D
middleware_init cfg iface =
    let control = lookup_value cfg.control_system_enabled false in
    record {
      seamless = lookup_value cfg.seamless_switching_enabled false;
      rp = rp_url cfg.modem_restful_api_uri;
      control = control_init cfg.control_system_endpoint cfg.machine_id;
      control_system = control;
      control_tick_interval =
          if control then lookup_value cfg.control_system_interval (pos 10) else pos 10;
      interface = iface;
      backend = record {
        cache = cache_init cfg.cache_max_total_size cfg.cache_max_file_age;
        segments = [];
        streams = [];
        services = [];
        registry = [];
        announcement = none;
      };
    }

-- The member `_service_announcement`, and what it has changed.
abbrev pub with_world : {F D : Type 0} → World F D → Middleware F D → Middleware F D
with_world w m = record m { backend = record (w.backend) { announcement = some w.self } }

-- `catch (...)` round a block that returns true.
unfoldable pub caught :
    {F D : Type 0} → Middleware F D → Result Nothing × World F D → Result Bool × Middleware F D
caught m (ok r, w) = (ok true, with_world w m)
caught m (throw e, w) = (ok false, with_world w m)
caught m (terminate, w) = (terminate, with_world w m)

module _ {E F D : Type 0} ⦃float : Float D⦄ (g : Setting E D) where
  -- A file that cannot be opened reads as an empty text.
  unfoldable pub read_local : (Bytes → Bytes) → Bytes → Bytes → Action (Middleware F D) Bool
  unfolding caught
  read_local read_file bootstrap_file tmgi m = caught m (
      parse_bootstrap g (read_file bootstrap_file)
        (record { self = announcement_init tmgi 0 m.interface m.seamless; backend = m.backend }))

  -- `_handle_local_service_announcement`
  unfoldable pub handle_local_service_announcement :
      (Bytes → Bytes) → Config → Action (Middleware F D) Bool
  unfolding read_local
  handle_local_service_announcement read_file cfg m =
      let bootstrap_file = lookup_value cfg.local_service_bootstrap_file [] in
      if lookup_value cfg.local_service_enabled false && not (equal bootstrap_file [])
      then read_local read_file bootstrap_file (lookup_value cfg.local_service_tmgi []) m
      else (ok false, m)

  -- The constructor.
  unfoldable pub middleware_start : (Bytes → Bytes) → Config → Bytes → Result Bool × Middleware F D
  unfolding handle_local_service_announcement
  middleware_start read_file cfg iface =
      handle_local_service_announcement read_file cfg (middleware_init cfg iface)
