-- ===== src/Tests/ServerExamples.antt =====
-- The theorems on the fault configuration server at concrete requests.
use mathlib.Core.List.{Perm}
use red_monkey.Common.{
  ℕ, Text, codes, ◌≡◌, ◌≢◌, refl, sym, ◌∙◌, inl, inr, Option, none, some, List, [], ◌∷◌, map, All,
  ok, err, arith, text_dec, if◌then◌else◌, ◌==◌,
}
use red_monkey.Common.Int.{ℤ, pos}
use red_monkey.Store.Fault.{Fault, StoreError}
use red_monkey.Store.Interface.{FaultStore, IsTable, found, value}
use red_monkey.Store.Mem
use red_monkey.Store.Mem.{MemStore, mem_store, new_db}
use red_monkey.Store.Mem.Table.{mem_store-IsTable}
use red_monkey.FaultConfigServer.Http.{created, no_content, empty_response, json_fault, json_faults}
use red_monkey.FaultConfigServer.Sort.Laws.{IsNewestFirst, with_key}
use red_monkey.FaultConfigServer.Handler.{
  stamp, store_fault, get_fault, get_all_faults, delete_fault, delete_all_faults,
}
use red_monkey.FaultConfigServer.Handler.Replies.{
  Posted, store_fault-Posted, delete_fault_lem, get_fault-store_fault,
}
use red_monkey.FaultConfigServer.Handler.Invariant.{
  IsValid, IsOrderly, IsValid-empty, store_fault-IsValid,
}
use red_monkey.FaultConfigServer.Handler.DeleteAll.{delete_all_faults_lem}
use red_monkey.FaultConfigServer.Handler.Listing.{
  changed, get_all_faults_lem, get_all_faults-panics,
}
use red_monkey.FaultConfigServer.Handler.Race.{
  two_requests, run, System, answered, race_stores_both, NoConflict,
}
use red_monkey.FaultConfigServer.Handler.Schedules.{run-IsOrderly}
use red_monkey.FaultConfigServer.Server.{
  get, post, delete, other_method, HttpRequest, serve, dispatch, routes, Endpoint,
}
use red_monkey.FaultConfigServer.Server.Routing.{Reaches, ReachesNamed, dispatch-routes}
use red_monkey.FaultConfigServer.Server.Safety.{NoPanic, serve-Served}
use red_monkey.Tests.Fixtures.{
  h, same, get_custom_err, delay_10_milliseconds, mock_fault_store, delay_1_second, set_error,
  drop_conn_for_ping_cmd,
}
use red_monkey.Tests.Paths.{matcher}

abbrev pub db : FaultStore ℕ
db = mem_store same h

abbrev pub is_table : IsTable db
is_table = mem_store-IsTable same h

-- A name that the store does not find is not in the table.
table-missing :
    {T : Type 0} (d : FaultStore T) (c : IsTable d) (s : d.Store) (k : Text) (e : StoreError)
    → d.get_by_fault_name s k ≡ err e
    → c.table s k ≡ none
table-missing {T} d c s k e h = missing (c.table s k) (sym (c.get_reply s k) ∙ h)
  where
    missing : (o : Option (Fault T)) → found k o ≡ err e → o ≡ none
    missing none p = refl
    missing (some f) p = cc

pub empty_table : (k : Text) → is_table.table (new_db h) k ≡ none
unfolding Mem.get_by_fault_name
empty_table k = table-missing db is_table (new_db h) k _ refl

store_fault-Posted_example :
    Posted db is_table
      (stamp 7 get_custom_err)
      (new_db h)
      (store_fault db 7 get_custom_err (new_db h))
store_fault-Posted_example = store_fault-Posted db is_table 7 get_custom_err (new_db h)

-- A store that two requests have filled.
abbrev one_fault : MemStore h
one_fault = (store_fault db 7 get_custom_err (new_db h)).1

abbrev pub two_faults : MemStore h
two_faults = (store_fault db 9 delay_10_milliseconds one_fault).1

pub two_faults-IsValid : IsValid (is_table.table two_faults)
two_faults-IsValid = store_fault-IsValid db is_table 9 delay_10_milliseconds one_fault (
    store_fault-IsValid db is_table 7 get_custom_err (new_db h)
      (IsValid-empty (is_table.table (new_db h)) empty_table))

get_fault-store_fault_example :
    get_fault db (some (codes "get_custom_err")) one_fault
    ≡ ok (record { status = 200; body = json_fault (stamp 7 get_custom_err) })
unfolding store_fault Mem.get_all_faults Mem.store
get_fault-store_fault_example =
    get_fault-store_fault db is_table 7 get_custom_err (new_db h)
      {response = empty_response created} refl

delete_fault_lem_test :
    let (answer, s') = delete_fault db (some (codes "get_custom_err")) two_faults in
    (answer ≡ ok (empty_response no_content))
    × ((j : Text)
        → is_table.table s' j
          ≡ (if codes "get_custom_err" == j then none else is_table.table two_faults j))
delete_fault_lem_test = delete_fault_lem db is_table two_faults (codes "get_custom_err")

delete_all_faults_lem_test :
    let (answer, s') = delete_all_faults db two_faults in
    (answer ≡ ok (empty_response no_content)) × ((k : Text) → is_table.table s' k ≡ none)
delete_all_faults_lem_test = delete_all_faults_lem db is_table two_faults two_faults-IsValid.orderly

get_all_faults_lem_example :
    (faults : List (Fault ℕ)) × (get_all_faults db pos two_faults
      ≡ some (ok (record { status = 200; body = json_faults faults })))
    × Perm faults (map value (is_table.entries two_faults))
    × IsNewestFirst (changed pos) faults
    × ((t : ℤ)
        → with_key (changed pos) t faults
          ≡ with_key (changed pos) t (map value (is_table.entries two_faults)))
get_all_faults_lem_example =
    get_all_faults_lem pos db is_table two_faults two_faults-IsValid.orderly

-- One of the three faults of the fixture has no time.
get_all_faults-panics_test : get_all_faults db pos (mock_fault_store 5) ≡ none
unfolding Mem.get_all_faults Mem.store text_dec
get_all_faults-panics_test =
    get_all_faults-panics pos db (mock_fault_store 5)
      (delay_1_second 5 ∷ set_error 5 ∷ drop_conn_for_ping_cmd ∷ []) drop_conn_for_ping_cmd refl
      (inr (inr (inl refl))) refl (omega arith)

-- Two faults for GET under different names, on an empty store.
abbrev pub other_get_err : Fault ℕ
other_get_err = record get_custom_err { name = codes "other_get_err" }

pub names_differ : get_custom_err.name ≢ other_get_err.name
names_differ e = ground arith

pub no_conflict : NoConflict db is_table get_custom_err (new_db h)
no_conflict k g e = cc (e, empty_table k)

race_stores_both_test :
    let y = run db (0 ∷ 1 ∷ 0 ∷ 1 ∷ []) (two_requests db (new_db h) get_custom_err other_get_err) in
    ((y.requests 0).phase ≡ answered (ok (empty_response created)))
    × ((y.requests 1).phase ≡ answered (ok (empty_response created)))
    × (is_table.table y.store (codes "get_custom_err") ≡ some get_custom_err)
    × (is_table.table y.store (codes "other_get_err") ≡ some other_get_err)
    × ¬ IsValid (is_table.table y.store)
race_stores_both_test =
    race_stores_both db is_table (new_db h) get_custom_err other_get_err names_differ refl
      no_conflict

-- The two requests with their times.
abbrev racing : System db
racing = two_requests db (new_db h) (stamp 7 get_custom_err) (stamp 7 other_get_err)

race_listed :
    let s = (run db (0 ∷ 1 ∷ 0 ∷ 1 ∷ []) racing).store in
    IsOrderly (is_table.table s) × (get_all_faults db pos s ≢ none)
race_listed =
    run-IsOrderly db is_table pos (0 ∷ 1 ∷ 0 ∷ 1 ∷ []) racing (λ i. ground arith)
      (IsValid-empty _ empty_table).orderly

-- A session: a fault is posted, all faults are listed, all are deleted, and a path that is not
-- served.
abbrev session : List (HttpRequest ℕ)
session =
    record { method = post; path = codes "/fault"; body = some get_custom_err; time = 7 }
    ∷ record { method = get; path = codes "/faults"; body = none; time = 8 }
    ∷ record { method = delete; path = codes "/faults"; body = none; time = 9 }
    ∷ record { method = get; path = codes "/"; body = none; time = 10 }
    ∷ []

serve-Served_example :
    let (replies, s') = serve db pos matcher session (new_db h) in
    All NoPanic replies × IsValid (is_table.table s')
serve-Served_example =
    serve-Served db is_table pos matcher session (new_db h)
      (IsValid-empty (is_table.table (new_db h)) empty_table)

dispatch-routes_example :
    (Reaches matcher post (codes "/fault") Endpoint.store_fault
      × Reaches matcher get (codes "/faults") Endpoint.get_all_faults
      × Reaches matcher delete (codes "/faults") Endpoint.delete_all_faults
      × (dispatch matcher routes other_method (codes "/metrics") ≡ none))
    × ReachesNamed matcher get (codes "get_custom_err") Endpoint.get_fault
    × ReachesNamed matcher delete (codes "get_custom_err") Endpoint.delete_fault
dispatch-routes_example = dispatch-routes matcher (codes "/metrics") (codes "get_custom_err") refl
