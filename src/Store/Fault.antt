-- ===== src/Store/Fault.antt =====
-- store/fault_store.rs: a fault configuration and the error of a store. `T` stands for
-- `chrono::DateTime<Utc>`, a type of another crate.
use red_monkey.Common.{ℕ, Text, Option}

pub data FaultVariants : Type 0 where
  delay error drop_conn : FaultVariants

pub record Fault (T : Type 0) : Type 0 where
  pub name : Text
  pub description : Option Text
  pub fault_type : FaultVariants
  pub duration : Option ℕ
  pub error_msg : Option Text
  pub command : Text
  pub last_modified : Option T

pub record StoreError : Type 0 where
  pub message : Text

-- `StoreError::new`
abbrev pub new_store_error : Text → StoreError
new_store_error msg = record { message = msg }

-- `Display` writes the message, so `to_string` returns it.
abbrev pub store_error_to_string : StoreError → Text
store_error_to_string e = e.message
