-- ===== src/FaultConfigServer/Handler/Invariant.antt =====
-- What holds of a store that only the handlers change, and what follows for the other handlers.
use red_monkey.Common.{
  Text, ◌≡◌, ◌≢◌, refl, Option, none, some, ◌==◌, if◌then◌else◌, arith, ok, err, true, is_some,
}
use red_monkey.Store.Fault.{Fault}
use red_monkey.Store.Interface.{FaultStore, IsTable}
use red_monkey.FaultConfigServer.Handler.{Answer, stamp, store_fault, delete_fault}
use red_monkey.FaultConfigServer.Handler.Replies.{Posted, store_fault-Posted}

module _ {T : Type 0} where
  -- A table of faults under their own names, each with the time of its last change.
  pub record IsOrderly (table : Text → Option (Fault T)) : Type 0 where
    pub keyed : (k : Text) (f : Fault T) → table k ≡ some f → f.name ≡ k
    pub stamped : (k : Text) (f : Fault T) → table k ≡ some f → is_some f.last_modified ≡ true

  pub put-IsOrderly :
      (table table' : Text → Option (Fault T)) (fault : Fault T)
      → IsOrderly table
      → is_some fault.last_modified ≡ true
      → ((j : Text) → table' j ≡ (if fault.name == j then some fault else table j))
      → IsOrderly table'
  put-IsOrderly table table' fault v time at = record {
    keyed = λ k f e. ground (arith, at k, v.keyed k f);
    stamped = λ k f e. ground (arith, at k, v.stamped k f);
  }

  -- An orderly table with at most one fault for a command.
  pub record IsValid (table : Text → Option (Fault T)) : Type 0 where
    pub orderly : IsOrderly table
    pub one_per_command :
        (j k : Text) (f g : Fault T)
        → table j ≡ some f
        → table k ≡ some g
        → f.command ≡ g.command
        → j ≡ k

  pub put-IsValid :
      (table table' : Text → Option (Fault T)) (fault : Fault T)
      → IsValid table
      → is_some fault.last_modified ≡ true
      → ((k : Text) (g : Fault T) → table k ≡ some g → g.command ≢ fault.command)
      → ((j : Text) → table' j ≡ (if fault.name == j then some fault else table j))
      → IsValid table'
  put-IsValid table table' fault v time new at = record {
    orderly = put-IsOrderly table table' fault v.orderly time at;
    one_per_command = λ j k f g ef eg same.
        ground (arith, at j, at k, new j f, new k g, v.one_per_command j k f g);
  }

  -- Taking faults away keeps a table valid.
  pub less-IsValid :
      (table table' : Text → Option (Fault T))
      → IsValid table
      → ((j : Text) (f : Fault T) → table' j ≡ some f → table j ≡ some f)
      → IsValid table'
  less-IsValid table table' v less = record {
    orderly = record {
      keyed = λ k f e. v.orderly.keyed k f (less k f e);
      stamped = λ k f e. v.orderly.stamped k f (less k f e);
    };
    one_per_command = λ j k f g ef eg. v.one_per_command j k f g (less j f ef) (less k g eg);
  }

  -- The empty table is valid.
  pub IsValid-empty :
      (table : Text → Option (Fault T)) → ((k : Text) → table k ≡ none) → IsValid table
  IsValid-empty table h = record {
    orderly = record { keyed = λ k f e. cc (h k); stamped = λ k f e. cc (h k) };
    one_per_command = λ j k f g ef eg same. cc (h j);
  }

module _ {T : Type 0} (d : FaultStore T) (c : IsTable d) where
  Posted-IsValid :
      (fault : Fault T) (s : d.Store) (r : Answer T × d.Store)
      → is_some fault.last_modified ≡ true
      → Posted d c fault s r
      → IsValid (c.table s)
      → IsValid (c.table r.1)
  Posted-IsValid fault s (ok x, s') time (_, new, at) v =
      put-IsValid (c.table s) _ fault v time new at
  Posted-IsValid fault s (err x, s') time (_, _, same) v = rw same v

  -- POST /fault keeps a valid table valid.
  pub store_fault-IsValid :
      (now : T) (body : Fault T) (s : d.Store)
      → IsValid (c.table s)
      → IsValid (c.table (store_fault d now body s).1)
  store_fault-IsValid now body s v =
      Posted-IsValid (stamp now body) s _ refl (store_fault-Posted d c now body s) v

  pub delete_fault-IsValid :
      (name : Option Text) (s : d.Store)
      → IsValid (c.table s)
      → IsValid (c.table (delete_fault d name s).1)
  unfolding delete_fault
  delete_fault-IsValid none s v = v
  delete_fault-IsValid (some name) s v =
      less-IsValid (c.table s) _ v (λ j f e. ground (arith, c.table-delete s name j))
