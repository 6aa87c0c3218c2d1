-- ===== src/Process/Tests.antt =====
-- Runs of the process, and its theorem at a concrete one.
use rt_mbms_mw.Prelude.{none, some, ◌≡◌, refl}
use rt_mbms_mw.Prelude.Key.{Bytes}
use rt_mbms_mw.Prelude.Result.{Result, throw, standard}
use rt_mbms_mw.Prelude.Strtoul.{strtoul, digit_value}
use rt_mbms_mw.Prelude.Text.{codes, trim_left, is_space}
use rt_mbms_mw.Announcement.Action.{Nothing}
use rt_mbms_mw.Process.{ConfigFile, settings, default_arguments, exited, parse_opt, main_status}
use rt_mbms_mw.Process.Laws.{Ending, main_status-Ending}

abbrev read_settings : Bytes → ConfigFile
read_settings path = settings none

abbrev failing : Bytes → Bytes → Result Nothing
failing uri iface = throw standard

failing-Ending : Ending (settings none) (main_status read_settings failing default_arguments)
failing-Ending = main_status-Ending read_settings failing default_arguments

exits_with_zero : main_status read_settings failing default_arguments ≡ exited 0
unfolding main_status
exits_with_zero = refl

level :
    parse_opt b'l' (codes "-1x") default_arguments
    ≡ some (record default_arguments { log_level = 4294967295 })
unfolding parse_opt strtoul digit_value trim_left is_space
level = refl
