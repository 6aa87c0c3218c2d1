-- ===== src/Middleware/Tests.antt =====
-- Runs of the middleware, and its theorems at concrete states.
use rt_mbms_mw.Cache.{cache_init}
use rt_mbms_mw.Backend.Lifetime.{all_held}
use rt_mbms_mw.Prelude.{
  ℕ, zero, suc, true, false, List, [], ◌∷◌, Option, none, some, ◌≡◌, ◌≢◌, refl,
}
use rt_mbms_mw.Prelude.Int.{pos}
use rt_mbms_mw.Prelude.Key.{Bytes, equal}
use rt_mbms_mw.Prelude.Result.{Exception, throw, ok}
use rt_mbms_mw.Prelude.Text.{codes}
use rt_mbms_mw.Announcement.{ServiceAnnouncement}
use rt_mbms_mw.Announcement.Samples.{test_setting, fresh, empty_backend}
use rt_mbms_mw.Backend.Sound.{IsSound}
use rt_mbms_mw.Cdn.{Http, http_exception}
use rt_mbms_mw.Clients.{
  Json, JsonBody, Servers, Hello, answer, failed, send_hello, get_status, take_answer,
}
use rt_mbms_mw.Flute.Tests.{TestFile, test_flute}
use rt_mbms_mw.Hls.Media.Tests.{text_float}
use rt_mbms_mw.Middleware.{
  Middleware, Config, middleware_start, handle_local_service_announcement, middleware_init,
}
use rt_mbms_mw.Middleware.Laws.{
  read_mch_info_once, handle_local-announced, Posted, control_tick-Posted,
}
use rt_mbms_mw.Middleware.Runs.{run-IsSound, run-tick_returns}
use rt_mbms_mw.Middleware.Sound.{requested, Reach, here, next}
use rt_mbms_mw.Middleware.Tick.{
  read_mch_info, tick_handler, control_tick_handler, hello_for, is_service_announcement,
}
use rt_mbms_mw.Prelude.Strtoul.{stoul_base, digit_value}
use rt_mbms_mw.Prelude.Text.{trim_left, is_space}
use rt_mbms_mw.Rest.{RestHandler, Request, rest_get, is_authorized}

-- JSON values as numbers: 0 is an empty array, 1 an array with 0 in it, and the rest numbers.
abbrev pub test_json : Json ℕ Bytes
test_json = record {
  empty_array = 0;
  as_array = listed;
  at = λ key v. some 1;
  as_string = λ v. some (codes "000001");
  as_double = λ v. some (codes "20.0");
}
  where
    listed : ℕ → Option (List ℕ)
    listed zero = some []
    listed (suc zero) = some (0 ∷ [])
    listed (suc (suc n)) = none

abbrev pub silent : Servers ℕ Bytes
silent = record { get = λ url path. failed; post = λ url path h. failed }

abbrev modem : Servers ℕ Bytes
modem = record { get = λ url path. answer 200 (JsonBody.value 1); post = λ url path h. failed }

abbrev config : Config
config = record {
  seamless_switching_enabled = none;
  control_system_enabled = some true;
  control_system_interval = none;
  control_system_endpoint = some (codes "http://control");
  machine_id = codes "id";
  modem_restful_api_uri = none;
  cache_max_total_size = none;
  cache_max_file_age = none;
  service_announcement_tsi = none;
  local_service_enabled = some true;
  local_service_bootstrap_file = some (codes "sa.multipart");
  local_service_tmgi = none;
}

abbrev no_file : Bytes → Bytes
no_file path = []

abbrev started : Middleware TestFile Bytes
started = (middleware_start test_setting no_file config (codes "0.0.0.0")).1

abbrev handler : RestHandler
handler = record { require_bearer_token = false; api_key = []; api_path = codes "mw-api" }

abbrev root_request : Request
root_request = record { relative_uri = codes "/"; paths = []; authorization = [] }

abbrev no_server : Http
no_server base path = http_exception

-- The constructor reads the announcement of the samples, and a request comes in.
run : Reach test_setting test_json config started started
unfolding rest_get is_authorized
run = next here (requested handler no_server 5 root_request _ started.backend refl)

run-IsSound_example : IsSound started.backend
run-IsSound_example =
    run-IsSound test_setting test_json config no_file (codes "0.0.0.0") started run

-- Without the file of the local service.
abbrev pub bare_config : Config
bare_config = record config { local_service_enabled = none }

abbrev pub bare : Middleware TestFile Bytes
bare = (middleware_start test_setting no_file bare_config (codes "0.0.0.0")).1

bare_run : Reach test_setting test_json bare_config bare bare
unfolding rest_get is_authorized
bare_run = next here (requested handler no_server 5 root_request _ bare.backend refl)

bare_held : all_held bare.backend ≡ true
unfolding all_held middleware_start handle_local_service_announcement middleware_init cache_init
bare_held = refl

run-tick_returns_example :
    (k : Middleware TestFile Bytes) × (tick_handler test_json bare_config silent 9 bare
      ≡ (ok tt, k))
run-tick_returns_example =
    run-tick_returns test_setting test_json bare_config no_file (codes "0.0.0.0") bare silent 9
      bare_run refl refl bare_held

abbrev announced : Middleware TestFile Bytes
announced = record {
  seamless = false;
  rp = codes "http://modem";
  control = record { client = some (codes "http://control"); machine_id = codes "id" };
  control_system = true;
  control_tick_interval = pos 10;
  interface = codes "0.0.0.0";
  backend = record empty_backend { announcement = some fresh };
}

read_mch_info_once_example : (read_mch_info test_json config 1 announced).1 ≡ announced
read_mch_info_once_example = read_mch_info_once test_json config 1 announced fresh refl

handle_local-announced_example :
    ((x : Exception)
      → (handle_local_service_announcement test_setting no_file config announced).0 ≢ throw x)
    × ((a : ServiceAnnouncement) × ((handle_local_service_announcement test_setting no_file config
            announced).1.backend.announcement
          ≡ some a))
handle_local-announced_example =
    handle_local-announced test_setting no_file config (codes "sa.multipart") announced refl refl
      (unfold equal in refl)

abbrev hello : Hello Bytes
hello = record {
  sn = codes "id";
  cinr = codes "20.0";
  timestamp = pos 7;
  lat = pos 0;
  long = pos 0;
  services = [];
}

hello_sent : control_tick_handler test_json modem announced (pos 7) ≡ some hello
unfolding control_tick_handler hello_for send_hello get_status take_answer
hello_sent = refl

control_tick-Posted_example : Posted test_json modem announced (pos 7) hello
control_tick-Posted_example = control_tick-Posted test_json modem announced (pos 7) hello hello_sent

-- The first six digits of the TMGI decide: 14 is for an announcement, 15 is not.
announcement_ids :
    (is_service_announcement (codes "00000E00f110") ≡ ok true)
    × (is_service_announcement (codes "00000f00f110") ≡ ok false)
unfolding is_service_announcement stoul_base digit_value trim_left is_space
announcement_ids = (refl, refl)
