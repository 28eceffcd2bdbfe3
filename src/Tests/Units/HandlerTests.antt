-- ===== src/Tests/Units/HandlerTests.antt =====
-- The unit tests of fault_config_server/handler.rs, each over an application with one route.
use red_monkey.Common.{
  ℕ, Text, codes, ◌≡◌, refl, eqb, Bool, true, false, ◌&&◌, Option, none, some, List, [], ◌∷◌, ◌++◌,
  text_dec,
}
use red_monkey.Common.Int.{pos}
use red_monkey.Store.Fault.{Fault}
use red_monkey.Store.Interface.{FaultStore}
use red_monkey.Store.Mem
use red_monkey.Store.Mem.{MemStore, mem_store, new_db, store}
use red_monkey.FaultConfigServer.Http.{
  StatusCode, created, conflict, no_content, as_u16, Body, json_fault, json_faults,
}
use red_monkey.FaultConfigServer.Handler
use red_monkey.FaultConfigServer.Server.{
  Method, get, post, delete, Endpoint, Route, HttpRequest, Reply, responded, not_routed,
  body_refused, panicked, call, dispatch,
}
use red_monkey.Tests.Fixtures.{h, same, get_custom_err}
use red_monkey.Tests.Paths.{matcher, match_path}
use red_monkey.Tests.Units.Asserts.{fault_eq}

abbrev db : FaultStore ℕ
db = mem_store same h

abbrev mock : Fault ℕ
mock = get_custom_err

abbrev stored : MemStore h
stored = (store h (new_db h) mock.name mock).1

-- `test::init_service` of an application with one route, and `test::call_service`.
abbrev call_service : Route → HttpRequest ℕ → MemStore h → Reply ℕ × MemStore h
call_service route q s = call db pos q (dispatch matcher (route ∷ []) q.method q.path) s

abbrev route_of : Text → Method → Endpoint → Route
route_of pattern method endpoint = record {
  pattern = pattern;
  method = method;
  endpoint = endpoint;
}

abbrev request_of : Method → Text → Option (Fault ℕ) → HttpRequest ℕ
request_of method path body = record { method = method; path = path; body = body; time = 7 }

abbrev has_status : StatusCode → Reply ℕ → Bool
has_status status (responded response) = eqb response.status (as_u16 status)
has_status status not_routed = false
has_status status body_refused = false
has_status status panicked = false

-- `serde_json::from_slice` of the body, into one fault or a list of faults.
abbrev as_fault : Body ℕ → List (Fault ℕ) → Bool
as_fault (json_fault f) (g ∷ []) = fault_eq f g
as_fault (json_faults (f ∷ [])) (g ∷ []) = fault_eq f g
as_fault _ _ = false

abbrev has_fault : Reply ℕ → Fault ℕ → Bool
has_fault (responded response) g = as_fault response.body (g ∷ [])
has_fault not_routed g = false
has_fault body_refused g = false
has_fault panicked g = false

abbrev post_mock : MemStore h → Reply ℕ × MemStore h
post_mock =
    call_service (route_of (codes "/fault") post Endpoint.store_fault)
      (request_of post (codes "/fault") (some mock))

abbrev test_store_fault : Bool
test_store_fault = has_status created (post_mock (new_db h)).0

test_store_fault_passes : test_store_fault ≡ true
unfolding dispatch match_path Handler.store_fault Mem.get_all_faults store text_dec
test_store_fault_passes = refl

abbrev test_conflict_store : Bool
test_conflict_store =
    let (first, s) = post_mock (new_db h) in
    let (second, s') = post_mock s in has_status created first && has_status conflict second

test_conflict_store_passes : test_conflict_store ≡ true
unfolding dispatch match_path Handler.store_fault Mem.get_all_faults store text_dec
test_conflict_store_passes = refl

abbrev test_get_all_faults : Bool
test_get_all_faults =
    has_fault
      (call_service (route_of (codes "/faults") get Endpoint.get_all_faults)
        (request_of get (codes "/faults") none) stored).0
      mock

test_get_all_faults_passes : test_get_all_faults ≡ true
unfolding dispatch match_path Handler.get_all_faults Mem.get_all_faults store text_dec
test_get_all_faults_passes = refl

abbrev by_name : Text
by_name = codes "/fault/{fault_name}"

abbrev test_get_fault : Bool
test_get_fault =
    has_fault
      (call_service (route_of by_name get Endpoint.get_fault)
        (request_of get (codes "/fault/" ++ mock.name) none) stored).0
      mock

test_get_fault_passes : test_get_fault ≡ true
unfolding dispatch match_path Handler.get_fault Mem.get_by_fault_name store text_dec
test_get_fault_passes = refl

abbrev test_delete_fault : Bool
test_delete_fault =
    has_status no_content
      (call_service (route_of by_name delete Endpoint.delete_fault)
        (request_of delete (codes "/fault/" ++ mock.name) none) stored).0

test_delete_fault_passes : test_delete_fault ≡ true
unfolding dispatch match_path Handler.delete_fault Mem.delete_fault store text_dec
test_delete_fault_passes = refl

abbrev test_delete_all_faults : Bool
test_delete_all_faults =
    has_status no_content
      (call_service (route_of (codes "/faults") delete Endpoint.delete_all_faults)
        (request_of delete (codes "/faults") none) stored).0

test_delete_all_faults_passes : test_delete_all_faults ≡ true
unfolding dispatch match_path Handler.delete_all_faults Mem.get_all_faults Mem.delete_fault store
    text_dec
test_delete_all_faults_passes = refl
