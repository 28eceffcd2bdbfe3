-- ===== src/Tests/HandlerExamples.antt =====
-- The theorems on requests that are sent again, on the order of the listing and on the interface of
-- the server, at concrete stores.
use mathlib.Core.List.{Perm}
use mathlib.Core.Quot.{Quot}
use red_monkey.Common.{
  ℕ, Text, codes, ◌≡◌, refl, none, some, List, ok, err, arith, if◌then◌else◌, ◌==◌, ◌⊎◌,
}
use red_monkey.Common.Int.{pos}
use red_monkey.Store.Fault.{Fault}
use red_monkey.Store.Mem
use red_monkey.Store.Mem.{MemStore, new_db, store}
use red_monkey.FaultConfigServer.Http.{created, json_faults, empty_response}
use red_monkey.FaultConfigServer.Handler.{
  stamp, store_fault, get_all_faults, delete_fault, delete_all_faults, conflict_error,
}
use red_monkey.FaultConfigServer.Handler.Repeats.{Repeats, deletes_idempotent, store_fault-refused}
use red_monkey.FaultConfigServer.Handler.Order.{
  SameTable, DistinctSeconds, get_all_faults-same_faults, get_all_faults-same_answer,
}
use red_monkey.FaultConfigServer.Handler.Invariant.{IsOrderly}
use red_monkey.FaultConfigServer.Server.{HttpRequest, get, serve_request, dispatch, routes}
use red_monkey.FaultConfigServer.Api.{Promised}
use red_monkey.FaultConfigServer.Api.Refinement.{serve_request-Promised}
use red_monkey.Tests.Paths.{matcher}
use red_monkey.Tests.Fixtures.{h, get_custom_err, delay_10_milliseconds}
use red_monkey.Tests.ServerExamples.{db, is_table, two_faults, two_faults-IsValid, empty_table}

deletes_idempotent_test :
    let name = some (codes "get_custom_err") in
    Repeats db is_table
      (delete_fault db name two_faults)
      (delete_fault db name (delete_fault db name two_faults).1)
    × Repeats db is_table
        (delete_all_faults db two_faults)
        (delete_all_faults db (delete_all_faults db two_faults).1)
deletes_idempotent_test =
    deletes_idempotent db is_table two_faults (codes "get_custom_err") two_faults-IsValid.orderly

store_fault-refused_example :
    let s' = (store_fault db 7 get_custom_err (new_db h)).1 in
    store_fault db 8 get_custom_err s' ≡ (err (conflict_error get_custom_err), s')
unfolding store_fault Mem.get_all_faults Mem.store
store_fault-refused_example =
    store_fault-refused db is_table 7 8 get_custom_err get_custom_err (new_db h)
      {response = empty_response created} refl refl

-- Two faults with their times, stored in either order.
abbrev first : Fault ℕ
first = stamp 7 get_custom_err

abbrev second : Fault ℕ
second = stamp 9 delay_10_milliseconds

abbrev stored_both : Fault ℕ → Fault ℕ → MemStore h
stored_both f g = (db.store (db.store (new_db h) f.name f).1 g.name g).1

stored_both_lem :
    (f g : Fault ℕ) (k : Text)
    → is_table.table (stored_both f g) k
      ≡ (if g.name == k then some g else if f.name == k then some f else none)
stored_both_lem f g k =
    rw
      (
        is_table.table-store (db.store (new_db h) f.name f).1 g.name g k,
        is_table.table-store (new_db h) f.name f k,
        empty_table k,
      )
      refl

one_of_two :
    (f g x : Fault ℕ) (k : Text)
    → is_table.table (stored_both f g) k ≡ some x
    → ((x ≡ f) × (k ≡ f.name)) ⊎ ((x ≡ g) × (k ≡ g.name))
one_of_two f g x k e = ground (arith, stored_both_lem f g k)

same_tables :
    SameTable pos db db is_table is_table (stored_both first second) (stored_both second first)
same_tables k = rw (stored_both_lem first second k, stored_both_lem second first k) (ground arith)

listed-IsOrderly : IsOrderly (is_table.table (stored_both first second))
listed-IsOrderly = record {
  keyed = λ k f e. ground (arith, one_of_two first second f k e);
  stamped = λ k f e. ground (arith, one_of_two first second f k e);
}

listed-DistinctSeconds : DistinctSeconds pos (is_table.table (stored_both second first))
listed-DistinctSeconds j k f g ef eg e =
    ground (arith, one_of_two second first f j ef, one_of_two second first g k eg)

get_all_faults-same_faults_test :
    (faults : List (Fault ℕ)) × (faults' : List (Fault ℕ)) × (get_all_faults db pos
        (stored_both first second)
      ≡ some (ok (record { status = 200; body = json_faults faults })))
    × (get_all_faults db pos (stored_both second first)
        ≡ some (ok (record { status = 200; body = json_faults faults' })))
    × (◌≡◌ {A = Quot (Perm {A = Fault ℕ})} (Quot.mk faults) (Quot.mk faults'))
get_all_faults-same_faults_test =
    get_all_faults-same_faults pos db db is_table is_table (stored_both first second)
      (stored_both second first) same_tables listed-IsOrderly

get_all_faults-same_answer_example :
    get_all_faults db pos (stored_both first second)
    ≡ get_all_faults db pos (stored_both second first)
get_all_faults-same_answer_example =
    get_all_faults-same_answer pos db db is_table is_table (stored_both first second)
      (stored_both second first) same_tables listed-IsOrderly listed-DistinctSeconds

abbrev list_request : HttpRequest ℕ
list_request = record { method = get; path = codes "/faults"; body = none; time = 11 }

serve_request-Promised_example :
    let (reply, s') = serve_request db pos matcher list_request two_faults in
    Promised pos list_request
      (dispatch matcher routes get (codes "/faults"))
      (is_table.table two_faults)
      reply
      (is_table.table s')
serve_request-Promised_example =
    serve_request-Promised db is_table pos matcher list_request two_faults
      two_faults-IsValid.orderly
