-- ===== src/Tests/ConnectionExamples.antt =====
-- The theorems on `handle` of proxy/connection.rs at concrete requests.
use red_monkey.Common.{
  ◌++◌, ℕ, arith, Text, Bytes, codes, ◌≡◌, refl, ap, inl, Option, none, some, true, false, [], ◌∷◌,
  ok, err,
}
use mathlib.Core.Path.{subst}
use red_monkey.Utf8.{is_utf8}
use red_monkey.Store.Fault.{Fault}
use red_monkey.Store.Mem.{new_db}
use red_monkey.Proxy.Net.{write_failed, client_wrote, client_shut, connected, handshake, slept}
use red_monkey.Proxy.Faulter.Effects.{error_line}
use red_monkey.Proxy.Relay.{Relay, run, joined, open_relay}
use red_monkey.Proxy.Connection.{
  OriginServerConfig, Handled, is_closed, handle, create_server_stream,
}
use red_monkey.Proxy.Connection.Safety.{handle-drop, handle-error}
use red_monkey.Proxy.Connection.Proxied.{Relayed, handle-relay, handle-tcp, handle-tls}
use red_monkey.Proxy.Connection.Touches.{IsUntouched, Ends, handle-Ends, Provoked, handle-Provoked}
use red_monkey.Proxy.Net.{Net}
use red_monkey.Proxy.Faulter.Effects.{delays}
use red_monkey.Proxy.Connection.Cuts.{IsCut, handle-IsCut}
use red_monkey.Proxy.Connection.FirstChunk.{handle-first_chunk}
use red_monkey.Tests.Crates.{resp, url}
use red_monkey.Tests.Fixtures.{
  h, set_error, set_request, get_request, ping_request, good_net, delay_1_second,
  drop_conn_for_ping_cmd, mock_origin_server,
}
use red_monkey.Tests.ProxyExamples.{
  db, faults, schedule, check_fault_set, check_fault_get, check_fault_ping, check_fault_no_match,
  host_name,
}

abbrev pub config : OriginServerConfig
config = record { server_addr = codes "redis:6379"; is_tls_conn = false }

abbrev tls_config : OriginServerConfig
tls_config = record { server_addr = codes "redis:6379"; is_tls_conn = true }

-- `test_execute_drop_fault` through the whole connection.
abbrev cut_off : Net
cut_off = record (good_net set_request) { connect = λ addr. err (codes "refused") }

handle-drop_test :
    handle resp url db config
      (good_net ping_request)
      faults
      (mock_origin_server ping_request)
      schedule
    ≡ record { result = some (ok tt); trace = client_shut ∷ []; relay = none }
unfolding is_utf8
handle-drop_test =
    handle-drop resp url db config (good_net ping_request) faults (mock_origin_server ping_request)
      schedule ping_request drop_conn_for_ping_cmd refl refl check_fault_ping refl refl

-- `test_execute_error_fault` through the whole connection.
handle-error_example :
    handle resp url db config
      (good_net set_request)
      faults
      (mock_origin_server set_request)
      schedule
    ≡ record {
      result = some (ok tt);
      trace = client_shut ∷ client_wrote (error_line (codes "SET ERROR")) ∷ [];
      relay = none;
    }
unfolding is_utf8
handle-error_example =
    handle-error resp url db config (good_net set_request) faults (mock_origin_server set_request)
      schedule set_request (set_error 5) refl refl check_fault_set (codes "SET ERROR") refl refl
      refl refl refl

tcp_relayed :
    let c = run schedule (open_relay set_request (mock_origin_server set_request)) in
    handle resp url db config
      (good_net set_request)
      (new_db h)
      (mock_origin_server set_request)
      schedule
    ≡ record { result = joined c; trace = connected (codes "redis:6379") ∷ []; relay = some c }
unfolding is_utf8
tcp_relayed =
    handle-tcp resp url db config (good_net set_request) (new_db h) (mock_origin_server set_request)
      schedule set_request none refl refl check_fault_no_match tt refl refl

tls_relayed :
    let c = run schedule (open_relay get_request (mock_origin_server get_request)) in
    handle resp url db tls_config
      (good_net get_request)
      faults
      (mock_origin_server get_request)
      schedule
    ≡ record {
      result = joined c;
      trace = handshake (codes "redis") ∷ connected (codes "10.0.0.7:6379") ∷ slept 1000 ∷ [];
      relay = some c;
    }
unfolding is_utf8
tls_relayed =
    handle-tls resp url db tls_config (good_net get_request) faults (mock_origin_server get_request)
      schedule get_request (some (delay_1_second 5)) refl refl check_fault_get refl
      (codes "10.0.0.7:6379") [] (codes "redis") refl refl refl refl host_name refl

tcp_run :
    (handle resp url db config
      (good_net set_request)
      (new_db h)
      (mock_origin_server set_request)
      schedule).relay
    ≡ some (run schedule (open_relay set_request (mock_origin_server set_request)))
unfolding is_utf8
tcp_run =
    ap (λ (y : Handled). y.relay)
      (handle-tcp resp url db config (good_net set_request) (new_db h)
        (mock_origin_server set_request) schedule set_request none refl refl check_fault_no_match tt
        refl refl)

abbrev proxied : Relay
proxied = run schedule (open_relay set_request (mock_origin_server set_request))

handle-relay_example :
    (body : Bytes) × (fault : Option (Fault ℕ)) × Relayed resp url db config
      (good_net set_request)
      (new_db h)
      (mock_origin_server set_request)
      schedule
      body
      fault
      proxied
handle-relay_example =
    handle-relay resp url db config (good_net set_request) (new_db h)
      (mock_origin_server set_request) schedule proxied tcp_run

-- The origin server cannot be connected to.
handle-Ends_example :
    let y = handle resp url db config cut_off (new_db h) [] schedule in
    IsUntouched y.trace
    × Ends [] schedule set_request (create_server_stream url config cut_off (delays {T = ℕ} none)) y
unfolding is_utf8
handle-Ends_example =
    handle-Ends resp url db config cut_off (new_db h) [] schedule set_request none refl refl
      check_fault_no_match tt

handle-Provoked_example :
    (body : Bytes) × (fault : Fault ℕ) × Provoked resp url db config
      (good_net ping_request)
      faults
      (mock_origin_server ping_request)
      schedule
      body
      fault
handle-Provoked_example =
    handle-Provoked resp url db config (good_net ping_request) faults
      (mock_origin_server ping_request) schedule
      (inl (client_shut, rw handle-drop_test (inl refl), refl))

-- The client goes away in the middle of the error reply.
abbrev broken_pipe : Net
broken_pipe = record (good_net set_request) {
  client_write = λ b. write_failed 4 (codes "broken pipe");
  client_shutdown = err (codes "not connected");
}

readable : (message : Text) → (set_error 5).error_msg ≡ some message → is_utf8 message ≡ true
unfolding is_utf8
readable message e =
    let same : codes "SET ERROR" ≡ message = ground (arith, e) in
    subst (λ x. is_utf8 x ≡ true) same refl

handle-IsCut_test :
    let y = handle resp url db config broken_pipe faults [] schedule in
    (y.relay ≡ none) × (is_closed y ≡ true) × IsCut (error_line (codes "SET ERROR")) y.trace
unfolding is_utf8
handle-IsCut_test =
    handle-IsCut resp url db config broken_pipe faults [] schedule set_request (set_error 5) refl
      refl check_fault_set (λ e. cc) readable

-- A client that sends a second command.
abbrev two_commands : Net
two_commands = record (good_net set_request) {
  client_stream = ok set_request ∷ ok get_request ∷ [];
}

first_run :
    (handle resp url db config two_commands
      (new_db h)
      (mock_origin_server set_request)
      schedule).relay
    ≡ some proxied
unfolding is_utf8
first_run =
    ap (λ (y : Handled). y.relay)
      (handle-tcp resp url db config two_commands (new_db h) (mock_origin_server set_request)
        schedule set_request none refl refl check_fault_no_match tt refl refl)

handle-first_chunk_example : proxied.server_got ++ proxied.unsent ≡ set_request
handle-first_chunk_example =
    handle-first_chunk resp url db config two_commands (new_db h) (mock_origin_server set_request)
      schedule set_request (ok get_request ∷ []) proxied refl first_run
