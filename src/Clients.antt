-- ===== src/Clients.antt =====
-- src/RpRestClient.cpp and src/on_demand/ControlSystemRestClient.cpp. The HTTP and the JSON library
-- are parameters.
use rt_mbms_mw.Prelude.{ℕ, List, [], Option, none, some, if◌then◌else◌, ◌==◌}
use rt_mbms_mw.Prelude.Int.{ℤ, pos}
use rt_mbms_mw.Prelude.Key.{Bytes, equal}
use rt_mbms_mw.Prelude.Result.{Result, ok, throw, standard}
use rt_mbms_mw.Prelude.Text.{codes, trim}
use rt_mbms_mw.Cache.{lookup_value}

-- JSON values; `none` where the library throws. `D` are the floating point numbers.
pub record Json (J D : Type 0) : Type 0 where
  pub empty_array : J
  pub as_array : J → Option (List J)
  pub at : Bytes → J → Option J
  pub as_string : J → Option Bytes
  pub as_double : J → Option D

-- What `extract_json` makes of a body: a value, an `http_exception` or another exception.
pub data JsonBody (J : Type 0) : Type 0 where
  value : J → JsonBody J
  no_json malformed : JsonBody J

-- The outcome of a request; `failed` is an `http_exception`.
pub data JsonAnswer (J : Type 0) : Type 0 where
  answer : ℕ → JsonBody J → JsonAnswer J
  failed : JsonAnswer J

-- The request `hello`.
pub record Hello (D : Type 0) : Type 0 where
  pub sn : Bytes
  pub cinr : D
  pub timestamp : ℤ
  pub lat : ℤ
  pub long : ℤ
  pub services : List Bytes

-- The servers, by URL.
pub record Servers (J D : Type 0) : Type 0 where
  pub get : Bytes → Bytes → JsonAnswer J
  pub post : Bytes → Bytes → Hello D → JsonAnswer J

module _ {J : Type 0} where
  extracted : J → JsonBody J → Result J
  extracted res (JsonBody.value v) = ok v
  extracted res JsonBody.no_json = ok res
  extracted res JsonBody.malformed = throw standard

  -- The continuation of a request, and the handler of `http_exception`; `res` is an empty array.
  unfoldable pub take_answer : J → JsonAnswer J → Result J
  unfolding extracted
  take_answer res (answer status body) = if status == 200 then extracted res body else ok res
  take_answer res failed = ok res

-- The URL of the constructor, from `modem.restful_api.uri`.
unfoldable pub rp_url : Option Bytes → Bytes
rp_url uri = lookup_value uri (codes "http://localhost:3010/modem-api/")

pub record ControlSystemRestClient : Type 0 where
  -- the URL of `_client`
  pub client : Option Bytes
  pub machine_id : Bytes

-- The constructor, from `mw.control_system.endpoint` and the content of `/etc/machine-id`.
unfoldable pub control_init : Option Bytes → Bytes → ControlSystemRestClient
control_init endpoint machine_file =
    let ep = lookup_value endpoint [] in
    record { client = if equal ep [] then none else some ep; machine_id = trim machine_file }

module _ {J D : Type 0} (json : Json J D) (servers : Servers J D) where
  -- `getMchInfo`
  unfoldable pub get_mch_info : Bytes → Result J
  unfolding take_answer
  get_mch_info url = take_answer json.empty_array (servers.get url (codes "mch_info"))

  -- `getStatus`
  unfoldable pub get_status : Bytes → Result J
  unfolding take_answer
  get_status url = take_answer json.empty_array (servers.get url (codes "status"))

-- The request of `sendHello`. The list of the services is left out of it.
unfoldable pub hello_request : {D : Type 0} → ControlSystemRestClient → ℤ → D → List Bytes → Hello D
hello_request c now cinr service_tmgis = record {
  sn = c.machine_id;
  cinr = cinr;
  timestamp = now;
  lat = pos 0;
  long = pos 0;
  services = [];
}

module _ {J D : Type 0} (json : Json J D) (servers : Servers J D) where
  -- `sendHello` at the time `now`: the request that is posted, and the result.
  unfoldable pub send_hello :
      ControlSystemRestClient → ℤ → D → List Bytes → Option (Hello D) × Result J
  unfolding take_answer hello_request
  send_hello c now cinr service_tmgis = elim c.client [
    | none ↦ (none, ok json.empty_array)
    | some url ↦
        let req = hello_request c now cinr service_tmgis in
        (some req, take_answer json.empty_array (servers.post url (codes "hello") req))
  ]
