-- ===== src/Tests/Units/ConnectionTests.antt =====
-- The unit tests of proxy/connection.rs: a client of a proxy before an echoing server.
use red_monkey.Common.{
  ℕ, Text, Bytes, codes, ◌++◌, ◌≡◌, refl, ◌==◌, leb, eqb, Bool, true, false, ◌&&◌, Option, none,
  some, [], text_dec, take, length,
}
use red_monkey.Store.Fault.{Fault, delay, error, drop_conn}
use red_monkey.Store.Interface.{FaultStore}
use red_monkey.Store.Mem.{MemStore, mem_store, new_db, store, get_by_redis_cmd, matches}
use red_monkey.Store.Lowercase.{to_lowercase}
use red_monkey.Utf8.{is_utf8, from_utf8, from_utf8_lossy}
use red_monkey.Proxy.RespUtil.{decode, fetch_redis_command, encode_error_message, crlf}
use red_monkey.Proxy.Faulter.{check_fault, execute_fault}
use red_monkey.Proxy.Relay.{Relay, open_relay, run}
use red_monkey.Proxy.Relay.Progress.{rounds, left}
use red_monkey.Proxy.Connection.{Handled, handle, create_server_stream}
use red_monkey.Tests.Crates.{resp, read_value, url}
use red_monkey.Tests.Fixtures.{
  h, same, set_mykey, good_net, mock_origin_server, client_read, slept_for,
}

abbrev db : FaultStore ℕ
db = mem_store same h

abbrev fault_of : Text → Text → Fault ℕ
fault_of name description = record {
  name = name;
  description = some description;
  fault_type = drop_conn;
  duration = none;
  error_msg = none;
  command = codes "SET";
  last_modified = none;
}

abbrev drop_conn_for_set_cmd : Fault ℕ
drop_conn_for_set_cmd = fault_of (codes "drop_conn_for_set_cmd") (codes "SET drop connection error")

abbrev set_custom_err : Fault ℕ
set_custom_err = record (fault_of (codes "set_custom_err") (codes "SET custom error")) {
  fault_type = error;
  error_msg = some (codes "SET FAILED");
}

abbrev delay_fault : Fault ℕ
delay_fault = record (fault_of (codes "delay_fault") (codes "SET delay fault")) {
  fault_type = delay;
  duration = some 20;
}

abbrev stores : Fault ℕ → MemStore h
stores fault = (store h (new_db h) fault.name fault).1

-- `run_red_monkey_server`, and a client of it that sends a request: the connection is without TLS,
-- and the relay is polled until it ends.
abbrev run_red_monkey_server : MemStore h → Bytes → Handled
run_red_monkey_server fault_store request =
    let answer = mock_origin_server request in
    handle resp url db (record { server_addr = codes "127.0.0.1:10000"; is_tls_conn = false })
      (good_net request) fault_store answer (rounds (left (open_relay request answer)))

abbrev relay_read : Option Relay → Bytes
relay_read none = []
relay_read (some c) = c.client_got

-- What the client reads, into a buffer of 32 bytes.
abbrev read_buffer : Handled → Bytes
read_buffer y = take 32 (client_read y.trace ++ relay_read y.relay)

abbrev test_proxy_without_fault : Bool
test_proxy_without_fault =
    let got = read_buffer (run_red_monkey_server (new_db h) set_mykey) in
    eqb (length got) (length set_mykey) && got == set_mykey

test_proxy_without_fault_passes : test_proxy_without_fault ≡ true
unfolding handle is_utf8 from_utf8 check_fault decode fetch_redis_command read_value
    get_by_redis_cmd matches to_lowercase text_dec execute_fault create_server_stream run
test_proxy_without_fault_passes = refl

abbrev test_proxy_drop_fault : Bool
test_proxy_drop_fault =
    eqb (length (read_buffer (run_red_monkey_server (stores drop_conn_for_set_cmd) set_mykey))) 0

test_proxy_drop_fault_passes : test_proxy_drop_fault ≡ true
unfolding handle is_utf8 from_utf8 check_fault decode fetch_redis_command read_value
    get_by_redis_cmd store matches to_lowercase text_dec execute_fault
test_proxy_drop_fault_passes = refl

abbrev test_proxy_custom_error_fault : Bool
test_proxy_custom_error_fault =
    read_buffer (run_red_monkey_server (stores set_custom_err) set_mykey)
    == codes "-SET FAILED" ++ crlf

test_proxy_custom_error_fault_passes : test_proxy_custom_error_fault ≡ true
unfolding handle is_utf8 from_utf8 check_fault decode fetch_redis_command read_value
    get_by_redis_cmd store matches to_lowercase text_dec execute_fault encode_error_message
    from_utf8_lossy
test_proxy_custom_error_fault_passes = refl

abbrev test_proxy_delay_fault : Bool
test_proxy_delay_fault =
    let y = run_red_monkey_server (stores delay_fault) set_mykey in
    read_buffer y == set_mykey && leb 20 (slept_for y.trace)

test_proxy_delay_fault_passes : test_proxy_delay_fault ≡ true
unfolding handle is_utf8 from_utf8 check_fault decode fetch_redis_command read_value
    get_by_redis_cmd store matches to_lowercase text_dec execute_fault create_server_stream run
test_proxy_delay_fault_passes = refl
