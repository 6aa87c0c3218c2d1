-- ===== src/Process.antt =====
-- src/main.cpp. The libraries for options and configuration are parameters: the options are what
-- `argp_parse` hands to `parse_opt`.
pub mod Laws
pub mod Tests
use rt_mbms_mw.Prelude.{ℕ, ◌%◌, ◌^◌, List, [], ◌∷◌, Option, none, some, if◌then◌else◌, ◌==◌}
use rt_mbms_mw.Prelude.Key.{Bytes}
use rt_mbms_mw.Prelude.Result.{Result, ok, throw, terminate, literal, standard}
use rt_mbms_mw.Prelude.Strtoul.{strtoul}
use rt_mbms_mw.Prelude.Text.{codes}
use rt_mbms_mw.Announcement.Action.{Nothing}
use rt_mbms_mw.Cache.{lookup_value}

-- `mw_arguments`
pub record Arguments : Type 0 where
  pub config_file : Bytes
  pub flute_interface : Bytes
  pub log_level : ℕ

-- The default values of `main`.
abbrev pub default_arguments : Arguments
default_arguments = record {
  config_file = codes "/etc/5gmag-rt.conf";
  flute_interface = codes "0.0.0.0";
  log_level = 2;
}

-- `parse_opt`; `none` stands for `ARGP_ERR_UNKNOWN`.
unfoldable pub parse_opt : ℕ → Bytes → Arguments → Option Arguments
parse_opt key arg a =
    if key == b'c'
    then some (record a { config_file = arg })
    else if key == b'i'
    then some (record a { flute_interface = arg })
    else if key == b'l'
    then some (record a { log_level = strtoul 10 arg % 2 ^ 32 })
    else none

-- The outcome of `readFile`, with the setting `mw.http_server.uri`.
pub data ConfigFile : Type 0 where
  io_error parse_error : ConfigFile
  settings : Option Bytes → ConfigFile

pub data ExitStatus : Type 0 where
  exited : ℕ → ExitStatus
  aborted : ExitStatus

-- The handler round the middleware; the run comes back when there is nothing left to wait for.
unfoldable pub exit_status : Result Nothing → ExitStatus
exit_status (ok r) = exited 0
exit_status (throw standard) = exited 0
exit_status (throw literal) = aborted
exit_status terminate = aborted

unfoldable pub run_configured : (Bytes → Bytes → Result Nothing) → Bytes → ConfigFile → ExitStatus
unfolding exit_status
run_configured run iface ConfigFile.io_error = exited 1
run_configured run iface ConfigFile.parse_error = exited 1
run_configured run iface (settings uri) =
    exit_status (run (lookup_value uri (codes "http://0.0.0.0:3020/")) iface)

-- `main`, behind the options; `run` is the middleware with a URL and an interface.
unfoldable pub main_status :
    (Bytes → ConfigFile) → (Bytes → Bytes → Result Nothing) → Arguments → ExitStatus
unfolding run_configured
main_status read_file run a = run_configured run a.flute_interface (read_file a.config_file)
