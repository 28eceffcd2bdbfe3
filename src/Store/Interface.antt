-- ===== src/Store/Interface.antt =====
-- The trait `FaultStore` of store/fault_store.rs: its operations, which the handlers and the proxy
-- call through a trait object, and what an implementation promises.
use red_monkey.Common.{
  Text, ◌≡◌, Option, none, some, Bool, true, List, ◌==◌, if◌then◌else◌, is_some, map, Result, ok,
  err, codes, ◌++◌,
}
use red_monkey.Store.Fault.{Fault, StoreError, new_store_error}
use red_monkey.Store.HashMap.{lookup, NodupKeys}

-- A store is changed in place behind `&self`; here the changed store comes back beside the result.
pub record FaultStore (T : Type 0) : Type 1 where
  pub Store : Type 0
  pub store : Store → Text → Fault T → Result StoreError Bool × Store
  pub get_by_fault_name : Store → Text → Result StoreError (Fault T)
  pub get_all_faults : Store → Result StoreError (List (Fault T))
  pub get_by_redis_cmd : Store → Text → Option (Fault T)
  pub delete_fault : Store → Text → Result StoreError Bool × Store

-- The reply of `get_by_fault_name` for what a table has at the name.
abbrev pub found : {T : Type 0} → Text → Option (Fault T) → Result StoreError (Fault T)
found name none = err (new_store_error (codes "Fault " ++ name ++ codes " not found"))
found name (some f) = ok f

abbrev pub value : {T : Type 0} → Text × Fault T → Fault T
value (k, f) = f

-- The specification: a store is a finite table from names to faults. Every operation succeeds, and
-- a listing holds each entry of the table once.
pub record IsTable {T : Type 0} (d : FaultStore T) : Type 1 where
  pub table : d.Store → Text → Option (Fault T)
  pub entries : d.Store → List (Text × Fault T)
  pub store_reply : (s : d.Store) (k : Text) (f : Fault T) → (d.store s k f).0 ≡ ok true
  pub table-store :
      (s : d.Store) (k : Text) (f : Fault T) (j : Text)
      → table (d.store s k f).1 j ≡ (if k == j then some f else table s j)
  pub get_reply : (s : d.Store) (k : Text) → d.get_by_fault_name s k ≡ found k (table s k)
  pub delete_reply : (s : d.Store) (k : Text) → (d.delete_fault s k).0 ≡ ok (is_some (table s k))
  pub table-delete :
      (s : d.Store) (k j : Text)
      → table (d.delete_fault s k).1 j ≡ (if k == j then none else table s j)
  pub all_reply : (s : d.Store) → d.get_all_faults s ≡ ok (map value (entries s))
  pub lookup-entries : (s : d.Store) (k : Text) → lookup k (entries s) ≡ table s k
  pub entries-NodupKeys : (s : d.Store) → NodupKeys (entries s)
