-- ===== src/Tests/Fixtures.antt =====
-- The faults, the stores and the origin server of the unit tests in the source. Times are numbers
-- of seconds.
use red_monkey.Common.{ℕ, ◌+◌, Text, Bytes, codes, none, some, List, [], ◌∷◌, ◌++◌, ok, take}
use red_monkey.Store.Fault.{Fault, delay, error, drop_conn}
use red_monkey.Store.HashMap.{HashMap}
use red_monkey.Store.Mem.{MemStore, new_db, store}
use red_monkey.Proxy.RespUtil.{crlf}
use red_monkey.Proxy.Net.{
  Net, wrote_all, Trace, client_wrote, client_shut, slept, connected, handshake,
}
use red_monkey.Tests.AssocMap.{assoc_map}

abbrev pub h : HashMap (Fault ℕ)
h = assoc_map (Fault ℕ)

-- The lowercase of texts that are not ASCII does not matter to the tests.
abbrev pub same : Text → Text
same s = s

-- `get_mock_fault` of store/mem_store.rs
abbrev pub delay_10_milliseconds : Fault ℕ
delay_10_milliseconds = record {
  name = codes "delay 10 milliseconds";
  description = some (codes "inject a delay of 10 milliseconds");
  fault_type = delay;
  duration = some 20;
  error_msg = none;
  command = codes "SET";
  last_modified = none;
}

-- `get_mock_fault` of fault_config_server/handler.rs
abbrev pub get_custom_err : Fault ℕ
get_custom_err = record {
  name = codes "get_custom_err";
  description = some (codes "GET custom error");
  fault_type = error;
  duration = none;
  error_msg = some (codes "KEY not found");
  command = codes "GET";
  last_modified = none;
}

-- The faults of `get_mock_fault_store` of proxy/faulter.rs, at a time `now`.
abbrev pub delay_1_second : ℕ → Fault ℕ
delay_1_second now = record {
  name = codes "delay 1 second";
  description = some (codes "inject a delay of 1 second");
  fault_type = delay;
  duration = some 1000;
  error_msg = none;
  command = codes "GET";
  last_modified = some now;
}

abbrev pub set_error : ℕ → Fault ℕ
set_error now = record {
  name = codes "SET Error";
  description = some (codes "inject set error");
  fault_type = error;
  duration = none;
  error_msg = some (codes "SET ERROR");
  command = codes "SET";
  last_modified = some (now + 60);
}

abbrev pub drop_conn_for_ping_cmd : Fault ℕ
drop_conn_for_ping_cmd = record {
  name = codes "drop_conn_for_ping_cmd";
  description = some (codes "PING error");
  fault_type = drop_conn;
  duration = none;
  error_msg = none;
  command = codes "PING";
  last_modified = none;
}

abbrev pub store_each : List (Fault ℕ) → MemStore h → MemStore h
store_each [] m = m
store_each (fault ∷ faults) m = store_each faults (store h m fault.name fault).1

-- `get_mock_fault_store` of proxy/faulter.rs
abbrev pub mock_fault_store : ℕ → MemStore h
mock_fault_store now =
    store_each (delay_1_second now ∷ set_error now ∷ drop_conn_for_ping_cmd ∷ []) (new_db h)

-- `run_mock_origin_server` of proxy/connection.rs: it echoes what it reads at once, into a buffer
-- of 1028 bytes.
abbrev pub mock_origin_server : Bytes → Bytes
mock_origin_server request = take 1028 request

-- The requests of the tests.
abbrev line : Text → Bytes
line s = s ++ crlf

abbrev pub set_request : Bytes
set_request =
    line (codes "*3")
    ++ (line (codes "$3")
        ++ (line (codes "set")
            ++ (line (codes "$4")
                ++ (line (codes "key1") ++ (line (codes "$8") ++ line (codes "value100"))))))

abbrev pub get_request : Bytes
get_request =
    line (codes "*2")
    ++ (line (codes "$3") ++ (line (codes "get") ++ (line (codes "$4") ++ line (codes "key1"))))

abbrev pub ping_request : Bytes
ping_request = line (codes "*1") ++ (line (codes "$4") ++ line (codes "ping"))

-- A network on which every call succeeds, for a client that sends the bytes.
abbrev pub good_net : Bytes → Net
good_net bytes = record {
  client_stream = ok bytes ∷ [];
  client_write = λ b. wrote_all;
  client_shutdown = ok tt;
  to_socket_addrs = λ addr. ok (codes "10.0.0.7:6379" ∷ []);
  connect = λ addr. ok tt;
  tls_build = ok tt;
  tls_connect = λ host. ok tt;
}

-- The request of the tests of proxy/connection.rs and proxy/resp_util.rs.
abbrev pub set_mykey : Bytes
set_mykey =
    line (codes "*3")
    ++ (line (codes "$3")
        ++ (line (codes "set")
            ++ (line (codes "$5")
                ++ (line (codes "mykey") ++ (line (codes "$1") ++ line (codes "1"))))))

-- What was written, in its order, and the milliseconds slept.
abbrev pub client_read : Trace → Bytes
client_read [] = []
client_read (client_wrote bytes ∷ trace) = client_read trace ++ bytes
client_read (client_shut ∷ trace) = client_read trace
client_read (slept ms ∷ trace) = client_read trace
client_read (connected addr ∷ trace) = client_read trace
client_read (handshake host ∷ trace) = client_read trace

abbrev pub slept_for : Trace → ℕ
slept_for [] = 0
slept_for (slept ms ∷ trace) = ms + slept_for trace
slept_for (client_wrote bytes ∷ trace) = slept_for trace
slept_for (client_shut ∷ trace) = slept_for trace
slept_for (connected addr ∷ trace) = slept_for trace
slept_for (handshake host ∷ trace) = slept_for trace
