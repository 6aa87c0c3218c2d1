-- ===== src/Process/Laws.antt =====
-- How the process ends, and what the options of its command line do.
use rt_mbms_mw.Prelude.{◌≡◌, refl, ◌⊎◌, inl, inr}
use rt_mbms_mw.Prelude.Key.{Bytes}
use rt_mbms_mw.Prelude.Result.{Result, ok, throw, terminate, literal, standard}
use rt_mbms_mw.Announcement.Action.{Nothing}
use rt_mbms_mw.Process.{
  Arguments, ConfigFile, settings, ExitStatus, exited, aborted, exit_status, run_configured,
  main_status,
}

-- The exit status tells a refused configuration from everything else, and only that.
abbrev pub Ending : ConfigFile → ExitStatus → Type 0
Ending ConfigFile.io_error s = s ≡ exited 1
Ending ConfigFile.parse_error s = s ≡ exited 1
Ending (settings uri) s = (s ≡ exited 0) ⊎ (s ≡ aborted)

exit_status-cases : (r : Result Nothing) → (exit_status r ≡ exited 0) ⊎ (exit_status r ≡ aborted)
unfolding exit_status
exit_status-cases (ok x) = inl refl
exit_status-cases (throw standard) = inl refl
exit_status-cases (throw literal) = inr refl
exit_status-cases terminate = inr refl

run_configured-Ending :
    (run : Bytes → Bytes → Result Nothing) (iface : Bytes) (c : ConfigFile)
    → Ending c (run_configured run iface c)
unfolding run_configured
run_configured-Ending run iface ConfigFile.io_error = refl
run_configured-Ending run iface ConfigFile.parse_error = refl
run_configured-Ending run iface (settings uri) = exit_status-cases _

-- If the configuration file cannot be read or parsed, the process exits with 1; otherwise, however
-- the middleware ends, it exits with 0 or is aborted.
pub main_status-Ending :
    (read_file : Bytes → ConfigFile) (run : Bytes → Bytes → Result Nothing) (a : Arguments)
    → Ending (read_file a.config_file) (main_status read_file run a)
unfolding main_status
main_status-Ending read_file run a =
    run_configured-Ending run a.flute_interface (read_file a.config_file)
