-- ===== src/Tests/ProgramExamples.antt =====
-- The theorems on the program of main.rs at a concrete run: two faults are posted, the sections of
-- the two POSTs interleave, and a client sends a SET.
use red_monkey.Common.{
  ℕ, codes, ◌≡◌, ◌≢◌, refl, sym, ◌∙◌, ◌⊎◌, ◌≤◌, none, some, [], ◌∷◌, Member, arith, inl, text_dec,
}
use red_monkey.Common.Int.{pos}
use red_monkey.Utf8.{is_utf8, from_utf8, from_utf8_lossy}
use red_monkey.Store.Fault.{Fault}
use red_monkey.Store.Mem
use red_monkey.Store.Mem.{MemStore, new_db, matches}
use red_monkey.Store.Lowercase.{to_lowercase}
use red_monkey.FaultConfigServer.Handler.{
  get_all_faults, store_fault_check, store_fault_write, find_conflict,
}
use red_monkey.FaultConfigServer.Handler.Invariant.{IsOrderly, IsValid}
use red_monkey.FaultConfigServer.Server.{HttpRequest, Reply, panicked, dispatch}
use red_monkey.Proxy.RespUtil.{decode, fetch_redis_command, encode_error_message}
use red_monkey.Proxy.Net.{client_wrote, client_shut}
use red_monkey.Proxy.Faulter.{check_fault, execute_fault}
use red_monkey.Proxy.Faulter.Effects.{error_line}
use red_monkey.Proxy.Connection.{Handled, handle}
use red_monkey.Proxy.Connection.Configured.{get-eq-table}
use red_monkey.Program.{
  waiting, replied, Client, System, requests, start, updated, section, advanced, arrive, advance,
  accept_client, accept_fails, serve_client, waiting_for_ctrl_c, Reach, here, next,
}
use red_monkey.Program.Reachable.{IsPosted, Reach-NoPanic, Reach-IsPosted}
use red_monkey.Program.Clients.{Configured, Reach-Configured}
use red_monkey.Program.Stopping.{served_before_stop}
use red_monkey.Program.Answers.{turns, AnswerableSince, Reach-answered}
use red_monkey.Tests.Crates.{resp, read_value, url}
use red_monkey.Tests.Paths.{matcher, match_path}
use red_monkey.Tests.Fixtures.{h, same, set_error, get_custom_err, set_request, good_net}
use red_monkey.Tests.ServerExamples.{db, is_table, empty_table}
use red_monkey.Tests.ConnectionExamples.{config}
use red_monkey.FaultConfigServer.Http.{created, empty_response}
use red_monkey.FaultConfigServer.Server.{responded}
use red_monkey.FaultConfigServer.Handler.{stamp}
use red_monkey.Tests.ServerExamples.{other_get_err, names_differ, no_conflict}
use red_monkey.Program.Race.{post_of, Reach-race}

abbrev arrived : ℕ → HttpRequest ℕ → System db → System db
arrived i q y = record y { tasks = updated y.tasks i (waiting q); posted = (i, q) ∷ y.posted }

abbrev pub one_arrived : System db
one_arrived = arrived 0 (post_of 7 (set_error 5)) (start db (new_db h))

abbrev pub both_arrived : System db
both_arrived = arrived 1 (post_of 9 get_custom_err) one_arrived

-- Both have passed their checks, and then the first has stored its fault.
abbrev pub one_stored : System db
one_stored =
    advanced db pos matcher 0 (advanced db pos matcher 1 (advanced db pos matcher 0 both_arrived))

abbrev pub client : Client
client = record { net = good_net set_request; response = []; schedule = [] }

abbrev handled : Handled
handled = handle resp url db config client.net one_stored.store client.response client.schedule

-- The client is accepted, and then `accept` fails.
abbrev pub accepted_at : System db → System db
accepted_at y = record y { clients = updated y.clients 0 (some client) }

abbrev one_failed : System db
one_failed = record (accepted_at one_stored) { loop = waiting_for_ctrl_c }

abbrev one_served : System db
one_served = record one_failed {
  clients = updated one_failed.clients 0 none;
  served = (client, handled) ∷ [];
}

reached : Reach db pos matcher resp url config (start db (new_db h)) one_served
reached =
    next
      (next
        (next
          (next
            (next
              (next
                (next (next here (arrive 0 (post_of 7 (set_error 5)) refl))
                  (arrive 1 (post_of 9 get_custom_err) refl))
                (advance 0))
              (advance 1))
            (advance 0))
          (accept_client 0 client refl refl))
        (accept_fails refl))
      (serve_client 0 client refl)

-- The client that is served was waiting when `accept` failed.
served_before_stop_example :
    Member (client, handled) (accepted_at one_stored).served
    ⊎ ((j : ℕ) × ((accepted_at one_stored).clients j ≡ some client))
served_before_stop_example =
    served_before_stop db pos matcher resp url config (accepted_at one_stored) one_failed one_served
      client handled (accept_fails refl) tt (next here (serve_client 0 client refl)) (inl refl)

Reach-NoPanic_example :
    ((i : ℕ) → one_served.tasks i ≢ replied panicked)
    × IsOrderly (is_table.table one_served.store)
    × (get_all_faults db pos one_served.store ≢ none)
Reach-NoPanic_example =
    Reach-NoPanic db is_table pos matcher resp url config (new_db h) empty_table one_served reached

abbrev pub set_error_7 : Fault ℕ
set_error_7 = record (set_error 5) { last_modified = some 7 }

stored : h.get one_served.store.map (codes "SET Error") ≡ some set_error_7
unfolding section dispatch match_path store_fault_check store_fault_write find_conflict
    Mem.get_all_faults Mem.store text_dec
stored = refl

Reach-IsPosted_example :
    (codes "SET Error" ≡ codes "SET Error") × IsPosted matcher (requests db one_served) set_error_7
Reach-IsPosted_example =
    Reach-IsPosted db is_table pos matcher resp url config (new_db h) empty_table one_served reached
      (codes "SET Error") set_error_7
      (sym (get-eq-table same h is_table one_served.store (codes "SET Error")) ∙ stored)

written : handled.trace ≡ client_shut ∷ client_wrote (error_line (codes "SET ERROR")) ∷ []
unfolding section dispatch match_path store_fault_check store_fault_write find_conflict
    Mem.get_all_faults Mem.store text_dec handle is_utf8 from_utf8 check_fault decode
    fetch_redis_command read_value Mem.get_by_redis_cmd matches to_lowercase execute_fault
    encode_error_message from_utf8_lossy
written = refl

-- The client has been sent the error of the fault that was posted.
Reach-Configured_example :
    Configured same h pos matcher resp url config (requests db one_served) client
Reach-Configured_example =
    Reach-Configured same h pos matcher resp url config (new_db h) (λ k. refl) one_served reached
      client handled (inl refl) (inl (client_shut, rw written (inl refl), refl))

abbrev both_answered : System db
both_answered = advanced db pos matcher 1 one_stored

-- The sections of both POSTs, one after the other.
abbrev answering : Reach db pos matcher resp url config both_arrived both_answered
answering = next (next (next (next here (advance 0)) (advance 1)) (advance 0)) (advance 1)

answering-turns : 2 ≤ turns db is_table pos matcher resp url config 0 answering
answering-turns = omega arith

Reach-answered_example :
    (reply : Reply ℕ) × (both_answered.tasks 0 ≡ replied reply)
    × AnswerableSince db is_table pos matcher resp url config
        (post_of 7 (set_error 5))
        both_arrived
        both_answered
        reply
Reach-answered_example =
    Reach-answered db is_table pos matcher resp url config (new_db h) empty_table both_arrived
      (next (next here (arrive 0 (post_of 7 (set_error 5)) refl))
        (arrive 1 (post_of 9 get_custom_err) refl))
      0 (post_of 7 (set_error 5)) refl both_answered answering answering-turns

-- POSTs of two faults for GET.
Reach-race_example :
    (y : System db) × Reach db pos matcher resp url config (start db (new_db h)) y
    × (y.tasks 0 ≡ replied (responded (empty_response created)))
    × (y.tasks 1 ≡ replied (responded (empty_response created)))
    × (is_table.table y.store (codes "get_custom_err") ≡ some (stamp 7 get_custom_err))
    × (is_table.table y.store (codes "other_get_err") ≡ some (stamp 9 other_get_err))
    × ¬ IsValid (is_table.table y.store)
Reach-race_example =
    Reach-race db is_table pos matcher resp url config (new_db h) 7 9 get_custom_err other_get_err
      names_differ refl no_conflict
