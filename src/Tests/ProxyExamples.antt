-- ===== src/Tests/ProxyExamples.antt =====
-- The theorems on proxy/faulter.rs, proxy/resp_util.rs and the relay at concrete requests.
use red_monkey.Common.{
  ℕ, codes, ◌≡◌, refl, ◌↔◌, ◌⊎◌, none, some, List, [], ◌∷◌, ◌++◌, ok, err, text_dec,
}
use red_monkey.Utf8.{is_utf8}
use red_monkey.Store.Fault.{Fault}
use red_monkey.Store.Interface.{FaultStore}
use red_monkey.Store.Mem.{MemStore, mem_store, new_db, store, get_by_redis_cmd, matches}
use red_monkey.Store.Lowercase.{to_lowercase}
use red_monkey.Proxy.Error.{faulter_error, encode_err_msg_error}
use red_monkey.Proxy.RespUtil.{decode, fetch_redis_command, get_host_name, array, bulk, string}
use red_monkey.Proxy.RespUtil.Laws.{fetch_redis_command-ok_iff, get_host_name-ok_iff, HasHost}
use red_monkey.Proxy.Net.{pure, ◌>>◌, copy_to_client, shutdown_client}
use red_monkey.Proxy.Faulter.{check_fault, execute_fault, fallthrough, exit}
use red_monkey.Proxy.Faulter.Check.{Checked, check_fault-Checked}
use red_monkey.Proxy.Faulter.Effects.{
  Passes, error_line, execute_error_fault_lem, execute_error_fault-no_message,
  execute_fault-fallthrough_iff,
}
use red_monkey.Proxy.Relay.{Poll, send, receive, deliver, run, joined, open_relay}
use red_monkey.Proxy.Relay.Invariant.{relay_prefixes, joined_complete}
use red_monkey.Proxy.Relay.Progress.{rounds, left, relay_ends}
use red_monkey.Tests.Crates.{resp, read_value, url, RespValue, array_value}
use red_monkey.Tests.Fixtures.{
  h, same, set_error, mock_fault_store, set_request, get_request, ping_request, good_net,
  delay_1_second, drop_conn_for_ping_cmd,
}

abbrev pub db : FaultStore ℕ
db = mem_store same h

abbrev pub faults : MemStore h
faults = mock_fault_store 5

pub check_fault_set : check_fault resp db faults set_request ≡ ok (some (set_error 5))
unfolding check_fault decode fetch_redis_command read_value get_by_redis_cmd store matches
    to_lowercase text_dec
check_fault_set = refl

pub check_fault_get : check_fault resp db faults get_request ≡ ok (some (delay_1_second 5))
unfolding check_fault decode fetch_redis_command read_value get_by_redis_cmd store matches
    to_lowercase text_dec
check_fault_get = refl

pub check_fault_ping : check_fault resp db faults ping_request ≡ ok (some drop_conn_for_ping_cmd)
unfolding check_fault decode fetch_redis_command read_value get_by_redis_cmd store matches
    to_lowercase text_dec
check_fault_ping = refl

pub check_fault_no_match : check_fault resp db (new_db h) set_request ≡ ok none
unfolding check_fault decode fetch_redis_command read_value get_by_redis_cmd matches to_lowercase
    text_dec
check_fault_no_match = refl

check_fault-Checked_example :
    Checked resp same h faults set_request (check_fault resp db faults set_request)
check_fault-Checked_example = check_fault-Checked resp same h faults set_request

error_line_written :
    execute_fault (good_net set_request) resp (some (set_error 5)) []
    ≡ (do
      copy_to_client (good_net set_request) (error_line (codes "SET ERROR"))
      shutdown_client (good_net set_request)
      pure exit)
        []
unfolding is_utf8
error_line_written =
    execute_error_fault_lem resp (good_net set_request) (set_error 5) [] (codes "SET ERROR") refl
      refl refl

abbrev no_message : Fault ℕ
no_message = record (set_error 5) { error_msg = none }

no_message_fails :
    execute_fault (good_net set_request) resp (some no_message) []
    ≡ (err (faulter_error encode_err_msg_error), [])
no_message_fails =
    execute_error_fault-no_message resp (good_net set_request) no_message [] refl refl

drop_ends_request :
    ((execute_fault (good_net ping_request) resp (some drop_conn_for_ping_cmd) []).0
      ≡ ok fallthrough)
    ↔ Passes (some drop_conn_for_ping_cmd)
drop_ends_request =
    execute_fault-fallthrough_iff resp (good_net ping_request) (some drop_conn_for_ping_cmd) []

abbrev set_value : RespValue
set_value = array_value (codes "set" ∷ codes "mykey" ∷ codes "1" ∷ [])

fetch_redis_command-ok_iff_test : (fetch_redis_command resp set_value ≡ ok (codes "set")) ↔ (
    (first : resp.Value) × (rest : List resp.Value) × (resp.view set_value ≡ array (first ∷ rest))
    × ((resp.view first ≡ bulk (codes "set")) ⊎ (resp.view first ≡ string (codes "set"))))
fetch_redis_command-ok_iff_test = fetch_redis_command-ok_iff resp set_value (codes "set")

host_of_address :
    (get_host_name url (codes "redis:6379") ≡ ok (codes "redis"))
    ↔ HasHost url (codes "redis:6379") (codes "redis") (url.parse (codes "redis:6379"))
host_of_address = get_host_name-ok_iff url (codes "redis:6379") (codes "redis")

pub host_name : get_host_name url (codes "redis:6379") ≡ ok (codes "redis")
unfolding get_host_name url text_dec
host_name = refl

-- A short exchange: a part of the request is sent, and a part of the response is delivered.
abbrev pub schedule : List Poll
schedule = send 3 ∷ receive 9 ∷ deliver 1 ∷ []

relay_prefixes_test :
    let c = run schedule (open_relay ping_request (codes "+PONG")) in
    (c.server_got ++ c.unsent ≡ ping_request)
    × (c.client_got ++ (c.buffer ++ c.incoming) ≡ codes "+PONG")
relay_prefixes_test = relay_prefixes ping_request (codes "+PONG") schedule

joined_complete_example :
    let c = run (rounds 6) (open_relay (codes "ab") (codes "c")) in
    (c.server_got ≡ codes "ab") × (c.client_got ≡ codes "c")
unfolding run
joined_complete_example = joined_complete (codes "ab") (codes "c") (rounds 6) refl

relay_ends_example :
    let c = run schedule (open_relay ping_request (codes "+PONG")) in
    joined (run (rounds (left c)) c) ≡ some (ok tt)
unfolding run
relay_ends_example = relay_ends ping_request (codes "+PONG") schedule refl
