-- ===== src/Tests/SerialExamples.antt =====
-- The theorems on runs in which no two POSTs of one command are between their two sections at once,
-- at the run of `ProgramExamples`.
use red_monkey.Common.{
  ℕ, codes, ◌≡◌, refl, ◌⊎◌, none, some, List, [], ◌∷◌, All, ◌++◌, arith, inl, inr, text_dec,
}
use red_monkey.Common.Int.{pos}
use red_monkey.Store.Fault.{Fault}
use red_monkey.Store.Mem
use red_monkey.Store.Mem.{MemStore, new_db, matches}
use red_monkey.FaultConfigServer.Handler.{store_fault_check, find_conflict}
use red_monkey.FaultConfigServer.Handler.Invariant.{IsValid}
use red_monkey.FaultConfigServer.Server.{HttpRequest, dispatch}
use red_monkey.Proxy.Connection.{handle}
use red_monkey.Proxy.Connection.{Handled}
use red_monkey.Program.{
  Client, Task, checked, System, start, updated, section, advanced, arrive, advance, accept_client,
  serve_client,
}
use red_monkey.Program.Exclusive
use red_monkey.Program.Exclusive.{IsExclusive, ReachExclusive, ReachExclusive-IsValid}
use red_monkey.Program.Sections.{updated-all}
use red_monkey.Program.Serial.{IsSerial}
use red_monkey.Program.Serial.Reads.{Saw, ReachExclusive-Saw, SawSince, ReachExclusive-SawSince}
use red_monkey.Program.Serial.Runs.{ReachExclusive-IsSerial}
use red_monkey.Program.{replied}
use red_monkey.Program.Serial.{IsOnce}
use red_monkey.Program.Promises.{PromisedAll, ReachExclusive-PromisedAll}
use red_monkey.FaultConfigServer.Server.{Reply}
use red_monkey.Common.{Member, map}
use red_monkey.Tests.Crates.{resp, url}
use red_monkey.Tests.Paths.{matcher, match_path}
use red_monkey.Tests.Fixtures.{h, set_error, get_custom_err}
use red_monkey.Tests.ServerExamples.{db, is_table, empty_table}
use red_monkey.Tests.ConnectionExamples.{config}
use red_monkey.Program.Race.{post_of}
use red_monkey.Tests.ProgramExamples.{
  one_arrived, both_arrived, one_stored, client, accepted_at, set_error_7,
}

-- What a task of the run may have checked: 0 a fault for SET, and 1 one for GET.
abbrev Assigned : ℕ → Task ℕ → Type 0
Assigned i task =
    (f : Fault ℕ)
    → task ≡ checked f
    → ((i ≡ 0) × (f.command ≡ codes "SET")) ⊎ ((i ≡ 1) × (f.command ≡ codes "GET"))

Assigned-IsExclusive :
    (y : System db) → ((j : ℕ) → Assigned j (y.tasks j)) → IsExclusive db is_table pos matcher y
Assigned-IsExclusive y all i j f g a b e = ground (arith, all i f a, all j g b)

start-Assigned : (j : ℕ) → Assigned j ((start db (new_db h)).tasks j)
start-Assigned j f e = cc

both_arrived-Assigned : (j : ℕ) → Assigned j (both_arrived.tasks j)
both_arrived-Assigned =
    updated-all Assigned _ 1 _ (λ f e. cc) (updated-all Assigned _ 0 _ (λ f e. cc) start-Assigned)

abbrev get_err_9 : Fault ℕ
get_err_9 = record get_custom_err { last_modified = some 9 }

abbrev one_checked : System db
one_checked = advanced db pos matcher 0 both_arrived

abbrev both_checked : System db
both_checked = advanced db pos matcher 1 one_checked

first_check :
    (section db pos matcher (both_arrived.tasks 0) both_arrived.store).0 ≡ checked set_error_7
unfolding section dispatch match_path store_fault_check Mem.get_all_faults find_conflict text_dec
first_check = refl

second_check :
    (section db pos matcher (one_checked.tasks 1) one_checked.store).0 ≡ checked get_err_9
unfolding section dispatch match_path store_fault_check Mem.get_all_faults find_conflict text_dec
second_check = refl

one_checked-Assigned : (j : ℕ) → Assigned j (one_checked.tasks j)
one_checked-Assigned =
    updated-all Assigned _ 0 _ (λ f e. inl (refl, ground (arith, e, first_check)))
      both_arrived-Assigned

both_checked-Assigned : (j : ℕ) → Assigned j (both_checked.tasks j)
both_checked-Assigned =
    updated-all Assigned _ 1 _ (λ f e. inr (refl, ground (arith, e, second_check)))
      one_checked-Assigned

both_reached :
    ReachExclusive db is_table pos matcher resp url config (start db (new_db h)) both_checked
both_reached =
    Exclusive.next
      (Exclusive.next
        (Exclusive.next
          (Exclusive.next Exclusive.here (Assigned-IsExclusive (start db (new_db h)) start-Assigned)
            (arrive 0 (post_of 7 (set_error 5)) refl))
          (Assigned-IsExclusive one_arrived (updated-all Assigned _ 0 _ (λ f e. cc) start-Assigned))
          (arrive 1 (post_of 9 get_custom_err) refl))
        (Assigned-IsExclusive both_arrived both_arrived-Assigned) (advance 0))
      (Assigned-IsExclusive one_checked one_checked-Assigned) (advance 1)

reached_exclusive :
    ReachExclusive db is_table pos matcher resp url config (start db (new_db h)) one_stored
reached_exclusive =
    Exclusive.next both_reached (Assigned-IsExclusive both_checked both_checked-Assigned)
      (advance 0)

last_step : ReachExclusive db is_table pos matcher resp url config both_checked one_stored
last_step =
    Exclusive.next Exclusive.here (Assigned-IsExclusive both_checked both_checked-Assigned)
      (advance 0)

-- Both tasks have passed their checks at once, for different commands.
ReachExclusive-IsValid_example : IsValid (is_table.table one_stored.store)
ReachExclusive-IsValid_example =
    ReachExclusive-IsValid db is_table pos matcher resp url config (new_db h) empty_table one_stored
      reached_exclusive

ReachExclusive-IsSerial_test :
    (order more : List (ℕ × HttpRequest ℕ)) × IsSerial db pos matcher (new_db h) both_checked order
    × IsSerial db pos matcher (new_db h) one_stored (more ++ order)
ReachExclusive-IsSerial_test =
    ReachExclusive-IsSerial db is_table pos matcher resp url config (new_db h) empty_table
      both_checked one_stored both_reached last_step

-- The client is served while both POSTs are between their sections.
abbrev read_before : System db
read_before = record (accepted_at both_checked) {
  clients = updated (accepted_at both_checked).clients 0 none;
  served =
      (
        client,
        handle resp url db config client.net both_checked.store client.response client.schedule,
      )
      ∷ [];
}

ReachExclusive-Saw_test :
    (order : List (ℕ × HttpRequest ℕ)) × IsSerial db pos matcher (new_db h) read_before order
    × All (Saw db is_table pos matcher resp url config (new_db h) order) read_before.served
ReachExclusive-Saw_test =
    ReachExclusive-Saw db is_table pos matcher resp url config (new_db h) empty_table read_before (
      Exclusive.next
        (Exclusive.next both_reached (Assigned-IsExclusive both_checked both_checked-Assigned)
          (accept_client 0 client refl refl))
        (Assigned-IsExclusive (accepted_at both_checked) both_checked-Assigned)
        (serve_client 0 client refl))

-- The client is served after both POSTs have passed their checks.
ReachExclusive-SawSince_example :
    (order more : List (ℕ × HttpRequest ℕ)) × (since : List (Client × Handled)) × IsSerial db pos
      matcher
      (new_db h)
      both_checked
      order
    × All (Saw db is_table pos matcher resp url config (new_db h) order) both_checked.served
    × IsSerial db pos matcher (new_db h) read_before (more ++ order)
    × (read_before.served ≡ since ++ both_checked.served)
    × All (SawSince db is_table pos matcher resp url config (new_db h) order more) since
ReachExclusive-SawSince_example =
    ReachExclusive-SawSince db is_table pos matcher resp url config (new_db h) empty_table
      both_checked read_before both_reached
      (Exclusive.next
        (Exclusive.next Exclusive.here (Assigned-IsExclusive both_checked both_checked-Assigned)
          (accept_client 0 client refl refl))
        (Assigned-IsExclusive (accepted_at both_checked) both_checked-Assigned)
        (serve_client 0 client refl))

-- One of the POSTs has been answered.
ReachExclusive-PromisedAll_example :
    (order : List (ℕ × HttpRequest ℕ)) × (replies : List (Reply ℕ)) × IsOnce order
    × ((i : ℕ) (reply : Reply ℕ)
        → one_stored.tasks i ≡ replied reply
        → Member i (map (λ p. p.0) order))
    × All (λ p. Member p one_stored.posted) order
    × (map (λ p. one_stored.tasks p.0) order ≡ map replied replies)
    × PromisedAll pos matcher
        (map (λ p. p.1) order)
        replies
        (is_table.table (new_db h))
        (is_table.table one_stored.store)
ReachExclusive-PromisedAll_example =
    ReachExclusive-PromisedAll db is_table pos matcher resp url config (new_db h) empty_table
      one_stored reached_exclusive
