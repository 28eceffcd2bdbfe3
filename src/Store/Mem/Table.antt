-- ===== src/Store/Mem/Table.antt =====
-- `MemStore` of store/mem_store.rs and the contract of the trait `FaultStore`.
use red_monkey.Common.{Text, ◌≡◌, refl, ap, List, [], ◌∷◌, map, arith, ok}
use red_monkey.Store.Fault.{Fault}
use red_monkey.Store.Interface.{IsTable, value}
use red_monkey.Store.HashMap.{HashMap}
use red_monkey.Store.Mem.{
  mem_store, store, get_by_fault_name, get_all_faults, collect, delete_fault,
}

pub collect-eq-map : {T : Type 0} (l : List (Text × Fault T)) → collect l ≡ map value l
unfolding collect
collect-eq-map [] = refl
collect-eq-map {T} ((k, v) ∷ l) = ap (λ (t : List (Fault T)). v ∷ t) (collect-eq-map l)

module _ {T : Type 0} (unicode_lower : Text → Text) (h : HashMap (Fault T)) where
  -- The in-memory store refines a finite table from names to faults, whatever order the map
  -- yields its entries in.
  pub mem_store-IsTable : IsTable (mem_store unicode_lower h)
  unfolding store get_by_fault_name get_all_faults delete_fault
  mem_store-IsTable = record {
    table = λ m k. h.get m.map k;
    entries = λ m. h.into_iter m.map;
    store_reply = λ m k f. ground arith;
    table-store = λ m k f j. h.get-insert m.map k f j;
    get_reply = λ m k. ground arith;
    delete_reply = λ m k. ground (arith, h.remove_old m.map k);
    table-delete = λ m k j. h.get-remove m.map k j;
    all_reply = λ m. ap ok (collect-eq-map (h.into_iter m.map));
    lookup-entries = λ m k. h.lookup-into_iter m.map k;
    entries-NodupKeys = λ m. h.into_iter-NodupKeys m.map;
  }
