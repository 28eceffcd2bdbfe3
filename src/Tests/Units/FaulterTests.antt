-- ===== src/Tests/Units/FaulterTests.antt =====
-- The unit tests of proxy/faulter.rs. A test that executes a fault does so on a connection to an
-- echoing server; what it reads back is what was written. Its check of the kind of a failing write
-- is left out.
use red_monkey.Common.{
  ℕ, Bytes, codes, ◌++◌, ◌≡◌, refl, ◌==◌, leb, Bool, true, false, ◌&&◌, Option, none, some, [],
  text_dec, take,
}
use red_monkey.Store.Fault.{Fault, error}
use red_monkey.Store.Interface.{FaultStore}
use red_monkey.Store.Mem.{MemStore, mem_store, new_db, store, get_by_redis_cmd, matches}
use red_monkey.Store.Lowercase.{to_lowercase}
use red_monkey.Utf8.{from_utf8_lossy}
use red_monkey.Proxy.RespUtil.{decode, fetch_redis_command, encode_error_message, crlf}
use red_monkey.Proxy.Net.{Trace}
use red_monkey.Proxy.Faulter.{RequestAction, exit, fallthrough, check_fault, execute_fault}
use red_monkey.Tests.Crates.{resp, read_value}
use red_monkey.Tests.Fixtures.{
  h, same, mock_fault_store, set_request, get_request, ping_request, good_net, mock_origin_server,
  client_read, slept_for,
}
use red_monkey.Tests.Units.Asserts.{variant_eq, ok_and, some_and}

abbrev db : FaultStore ℕ
db = mem_store same h

abbrev faults : MemStore h
faults = mock_fault_store 5

abbrev test_check_fault : Bool
test_check_fault =
    ok_and
      (some_and (λ (fault : Fault ℕ).
        fault.name == codes "SET Error"
        && variant_eq fault.fault_type error
        && fault.command == codes "SET"))
      (check_fault resp db faults set_request)

test_check_fault_passes : test_check_fault ≡ true
unfolding check_fault decode fetch_redis_command read_value get_by_redis_cmd store matches
    to_lowercase text_dec
test_check_fault_passes = refl

abbrev is_none : Option (Fault ℕ) → Bool
is_none none = true
is_none (some fault) = false

abbrev test_check_fault_no_match : Bool
test_check_fault_no_match = ok_and is_none (check_fault resp db (new_db h) set_request)

test_check_fault_no_match_passes : test_check_fault_no_match ≡ true
unfolding check_fault decode fetch_redis_command read_value get_by_redis_cmd matches to_lowercase
    text_dec
test_check_fault_no_match_passes = refl

abbrev action_eq : RequestAction → RequestAction → Bool
action_eq exit exit = true
action_eq fallthrough fallthrough = true
action_eq _ _ = false

-- The assertions on the action and the events of the fault that a request meets.
abbrev executes : Bytes → (RequestAction → Trace → Bool) → Bool
executes request test =
    ok_and
      (λ fault.
        let (action, trace) = execute_fault (good_net request) resp fault [] in
        ok_and (λ a. test a trace) action)
      (check_fault resp db faults request)

abbrev test_execute_delay_fault : Bool
test_execute_delay_fault =
    executes get_request
      (λ action trace. action_eq action fallthrough && leb 1000 (slept_for trace))

test_execute_delay_fault_passes : test_execute_delay_fault ≡ true
unfolding check_fault decode fetch_redis_command read_value get_by_redis_cmd store matches
    to_lowercase text_dec execute_fault
test_execute_delay_fault_passes = refl

abbrev test_execute_error_fault : Bool
test_execute_error_fault = executes set_request (λ action trace.
    action_eq action exit
    && take 32 (mock_origin_server (client_read trace)) == codes "-SET ERROR" ++ crlf)

test_execute_error_fault_passes : test_execute_error_fault ≡ true
unfolding check_fault decode fetch_redis_command read_value get_by_redis_cmd store matches
    to_lowercase text_dec execute_fault encode_error_message from_utf8_lossy
test_execute_error_fault_passes = refl

abbrev test_execute_drop_fault : Bool
test_execute_drop_fault = executes ping_request (λ action trace.
    action_eq action exit && take 32 (mock_origin_server (client_read trace)) == [])

test_execute_drop_fault_passes : test_execute_drop_fault ≡ true
unfolding check_fault decode fetch_redis_command read_value get_by_redis_cmd store matches
    to_lowercase text_dec execute_fault
test_execute_drop_fault_passes = refl
