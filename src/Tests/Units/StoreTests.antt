-- ===== src/Tests/Units/StoreTests.antt =====
-- The unit tests of store/mem_store.rs.
use mathlib.Core.List.{reverse}
use red_monkey.Common.{
  ℕ, codes, ◌==◌, ltb, eqb, ◌≡◌, refl, Bool, true, false, not, ◌&&◌, Option, none, some, List, [],
  ◌∷◌, map, length, text_dec,
}
use red_monkey.Store.Fault.{Fault}
use red_monkey.Store.Mem.{MemStore, new_db, store, get_by_fault_name, get_all_faults, delete_fault}
use red_monkey.FaultConfigServer.Sort.{sort_by}
use red_monkey.Tests.Fixtures.{h, delay_10_milliseconds, set_error, store_each}
use red_monkey.Tests.Units.Asserts.{fault_eq, ok_and, is_ok, some_and, texts_eq}

abbrev db : MemStore h
db = new_db h

-- `get_mock_fault`
abbrev mock : Fault ℕ
mock = delay_10_milliseconds

abbrev stored : MemStore h
stored = (store h db mock.name mock).1

abbrev test_store : Bool
test_store = ok_and (λ val. val) (store h db mock.name mock).0

test_store_passes : test_store ≡ true
unfolding store text_dec
test_store_passes = refl

abbrev get_command : Fault ℕ
get_command = record mock { command = codes "GET" }

abbrev test_duplicate_store : Bool
test_duplicate_store =
    let (first, s) = store h db mock.name mock in
    let (second, s') = store h s get_command.name get_command in
    ok_and (λ val. val) first
    && ok_and (λ val. val) second
    && ok_and (λ (f : Fault ℕ). f.command == codes "GET") (get_by_fault_name h s' get_command.name)

test_duplicate_store_passes : test_duplicate_store ≡ true
unfolding store get_by_fault_name text_dec
test_duplicate_store_passes = refl

abbrev test_get_fault_by_name : Bool
test_get_fault_by_name =
    let (first, s) = store h db mock.name mock in
    is_ok first && ok_and (λ f. fault_eq f mock) (get_by_fault_name h s mock.name)

test_get_fault_by_name_passes : test_get_fault_by_name ≡ true
unfolding store get_by_fault_name text_dec
test_get_fault_by_name_passes = refl

-- The faults of `test_get_all_faults`, at a time `now`.
abbrev mock_faults : ℕ → List (Fault ℕ)
mock_faults now = record mock { last_modified = some now } ∷ set_error now ∷ []

-- `b.last_modified.cmp(&a.last_modified)` is `Greater`: none is below every time.
abbrev later : Option ℕ → Option ℕ → Bool
later a none = false
later none (some b) = true
later (some a) (some b) = ltb a b

abbrev test_get_all_faults : ℕ → Bool
test_get_all_faults now =
    ok_and
      (λ faults.
        eqb (length faults) (length (mock_faults now))
        && some_and
            (λ sorted.
              texts_eq (map (λ (f : Fault ℕ). f.name) sorted)
                (reverse (map (λ (f : Fault ℕ). f.name) (mock_faults now))))
            (sort_by (λ (a b : Fault ℕ). some (later a.last_modified b.last_modified)) faults))
      (get_all_faults h (store_each (mock_faults now) db))

test_get_all_faults_passes : test_get_all_faults 100 ≡ true
unfolding store get_all_faults sort_by text_dec
test_get_all_faults_passes = refl

abbrev test_delete_fault : Bool
test_delete_fault =
    let (first, s) = store h db mock.name mock in
    is_ok first && ok_and (λ is_deleted. is_deleted) (delete_fault h s mock.name).0

test_delete_fault_passes : test_delete_fault ≡ true
unfolding store delete_fault text_dec
test_delete_fault_passes = refl

abbrev test_delete_invalid_fault : Bool
test_delete_invalid_fault =
    ok_and (λ is_deleted. not is_deleted) (delete_fault h db (codes "invalid_fault")).0

test_delete_invalid_fault_passes : test_delete_invalid_fault ≡ true
unfolding delete_fault text_dec
test_delete_invalid_fault_passes = refl
