-- ===== src/Tests/FateExamples.antt =====
-- The fate of a client of the proxy, at the faults of the unit tests.
use red_monkey.Common.{ℕ, Text, codes, ◌≡◌, ap, true, some, arith, text_dec}
use red_monkey.Utf8.{is_utf8}
use red_monkey.Store.Fault.{Fault}
use red_monkey.Store.Mem.{store}
use red_monkey.Proxy.Connection.{handle}
use red_monkey.Proxy.Connection.Fates.{Fate, handle-Fate}
use red_monkey.Tests.Crates.{resp, url}
use red_monkey.Tests.Fixtures.{h, same, mock_fault_store, mock_origin_server, set_request, good_net}
use red_monkey.Tests.ServerExamples.{db}
use red_monkey.Tests.ConnectionExamples.{config}
use red_monkey.Tests.ProxyExamples.{schedule}

-- The one message of the stored faults.
message_of :
    (k : Text) (f : Fault ℕ) (message : Text)
    → h.get (mock_fault_store 5).map k ≡ some f
    → f.error_msg ≡ some message
    → message ≡ codes "SET ERROR"
unfolding store text_dec
message_of k f message at e = ground arith

readable :
    (k : Text) (f : Fault ℕ) (message : Text)
    → h.get (mock_fault_store 5).map k ≡ some f
    → f.error_msg ≡ some message
    → is_utf8 message ≡ true
unfolding is_utf8
readable k f message at e = ap is_utf8 (message_of k f message at e)

handle-Fate_example :
    Fate resp url same h config
      (good_net set_request)
      (mock_fault_store 5)
      (mock_origin_server set_request)
      schedule
      (handle resp url db config
        (good_net set_request)
        (mock_fault_store 5)
        (mock_origin_server set_request)
        schedule)
handle-Fate_example =
    handle-Fate resp url same h config (good_net set_request) (mock_fault_store 5)
      (mock_origin_server set_request) schedule readable
