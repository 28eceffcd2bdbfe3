-- ===== src/Store/Mem.antt =====
-- store/mem_store.rs: `MemStore`, over the map `h` and the lowercase tables. The logging calls
-- change nothing and are left out.
pub mod Table
pub mod Choice
pub mod Shadow
use red_monkey.Common.{
  Text, codes, ◌==◌, if◌then◌else◌, Option, none, some, Bool, true, false, List, [], ◌∷◌, ◌++◌,
  Result, ok, err,
}
use red_monkey.Store.Fault.{Fault, StoreError, new_store_error}
use red_monkey.Store.Interface.{FaultStore}
use red_monkey.Store.HashMap.{HashMap}
use red_monkey.Store.Lowercase.{to_lowercase}

-- What a choice of `None` or `Some` of the first yields: `if a != None { return a; } b`.
abbrev pub or_else {ℓ} : {A : Type ℓ} → Option A → Option A → Option A
or_else none b = b
or_else (some a) b = some a

module _ {T : Type 0} (unicode_lower : Text → Text) where
  unfoldable pub matches : Text → Fault T → Bool
  matches redis_cmd fault =
      to_lowercase unicode_lower redis_cmd == to_lowercase unicode_lower fault.command

  -- The loop of `get_by_redis_cmd`, on `is_all_faulter` and `matched_fault`.
  unfoldable pub scan :
      Text
      → List (Fault T)
      → Option (Fault T)
      → Option (Fault T)
      → Option (Fault T) × Option (Fault T)
  scan cmd [] is_all_faulter matched_fault = (is_all_faulter, matched_fault)
  scan cmd (fault ∷ faults) is_all_faulter matched_fault =
      scan cmd faults (if fault.command == codes "*" then some fault else is_all_faulter)
        (if matches cmd fault then some fault else matched_fault)

  -- The end of `get_by_redis_cmd`: the matched fault, or else the fault for all commands.
  unfoldable pub choose : Text → List (Fault T) → Option (Fault T)
  unfolding scan
  choose cmd faults =
      let (is_all_faulter, matched_fault) = scan cmd faults none none in
      or_else matched_fault is_all_faulter

pub record MemStore {T : Type 0} (h : HashMap (Fault T)) : Type 0 where
  pub map : h.Map

module _ {T : Type 0} where
  abbrev pub stored : Option (Fault T) → Result StoreError Bool
  stored none = ok true
  stored (some val) = ok true

  abbrev pub found_or : Text → Option (Fault T) → Result StoreError (Fault T)
  found_or fault_name (some val) = ok val
  found_or fault_name none =
      err (new_store_error (codes "Fault " ++ fault_name ++ codes " not found"))

  -- The loop of `get_all_faults`, which pushes each value of the clone.
  unfoldable pub collect : List (Text × Fault T) → List (Fault T)
  collect [] = []
  collect ((_, value) ∷ rest) = value ∷ collect rest

  abbrev pub removed : Option (Fault T) → Result StoreError Bool
  removed none = ok false
  removed (some fault) = ok true

module _ {T : Type 0} (h : HashMap (Fault T)) where
  -- `MemStore::new_db`: the lock and the shared pointer around the store are left to its users.
  abbrev pub new_db : MemStore h
  new_db = record { map = h.new }

  unfoldable pub store : MemStore h → Text → Fault T → Result StoreError Bool × MemStore h
  store m fault_name fault =
      let (old, map') = h.insert m.map fault_name fault in (stored old, record { map = map' })

  unfoldable pub get_by_fault_name : MemStore h → Text → Result StoreError (Fault T)
  get_by_fault_name m fault_name = found_or fault_name (h.get m.map fault_name)

  unfoldable pub get_all_faults : MemStore h → Result StoreError (List (Fault T))
  unfolding collect
  get_all_faults m = ok (collect (h.into_iter m.map))

  unfoldable pub delete_fault : MemStore h → Text → Result StoreError Bool × MemStore h
  delete_fault m fault_name =
      let (old, map') = h.remove m.map fault_name in (removed old, record { map = map' })

module _ {T : Type 0} (unicode_lower : Text → Text) (h : HashMap (Fault T)) where
  chosen_of : Text → Result StoreError (List (Fault T)) → Option (Fault T)
  unfolding choose
  chosen_of redis_cmd (ok faults) = choose unicode_lower redis_cmd faults
  chosen_of redis_cmd (err e) = none

  unfoldable pub get_by_redis_cmd : MemStore h → Text → Option (Fault T)
  unfolding chosen_of get_all_faults
  get_by_redis_cmd m redis_cmd = chosen_of redis_cmd (get_all_faults h m)

  -- `impl FaultStore for MemStore`
  abbrev pub mem_store : FaultStore T
  mem_store = record {
    Store = MemStore h;
    store = store h;
    get_by_fault_name = get_by_fault_name h;
    get_all_faults = get_all_faults h;
    get_by_redis_cmd = get_by_redis_cmd;
    delete_fault = delete_fault h;
  }
