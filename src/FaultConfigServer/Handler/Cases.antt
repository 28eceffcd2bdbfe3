-- ===== src/FaultConfigServer/Handler/Cases.antt =====
-- Faults whose commands differ only in their case: `store_fault` in fault_config_server/handler.rs
-- compares commands as they are, and `get_by_redis_cmd` in store/mem_store.rs up to case.
use red_monkey.Common.{
  Text, codes, ◌≡◌, ◌≢◌, refl, ◌∙◌, ap, some, ◌⊎◌, ◌==◌, ==_refl, if◌then◌else◌, arith, ok, err,
}
use red_monkey.Store.Fault.{Fault}
use red_monkey.Store.HashMap.{HashMap}
use red_monkey.Store.Interface.{FaultStore, IsTable}
use red_monkey.Store.Lowercase.{to_lowercase}
use red_monkey.Store.Mem.{MemStore, mem_store, get_by_redis_cmd}
use red_monkey.Store.Mem.Table.{mem_store-IsTable}
use red_monkey.Store.Mem.Shadow.{one_shadowed}
use red_monkey.FaultConfigServer.Http.{created, empty_response}
use red_monkey.FaultConfigServer.Handler.{Answer, stamp, store_fault}
use red_monkey.FaultConfigServer.Handler.Replies.{Posted, store_fault-Posted}
use red_monkey.FaultConfigServer.Handler.Race.{NoConflict}

module _ {T : Type 0} (d : FaultStore T) (c : IsTable d) where
  -- A POST is answered 201, and the table has the fault.
  abbrev Created : Fault T → d.Store → Answer T × d.Store → Type 0
  Created fault s (answer, s') =
      (answer ≡ ok (empty_response created))
      × ((j : Text) → c.table s' j ≡ (if fault.name == j then some fault else c.table s j))

  Posted-Created :
      (fault : Fault T) (s : d.Store) (r : Answer T × d.Store)
      → Posted d c fault s r
      → NoConflict d c fault s
      → Created fault s r
  Posted-Created fault s (ok x, s') (same, _, at) new = (ap ok same, at)
  Posted-Created fault s (err x, s') (_, (k, g, e, q), _) new = absurd (new k g e q)

  pub store_fault-Created :
      (now : T) (fault : Fault T) (s : d.Store)
      → NoConflict d c fault s
      → Created (stamp now fault) s (store_fault d now fault s)
  store_fault-Created now fault s new =
      Posted-Created (stamp now fault) s _ (store_fault-Posted d c now fault s) new

  -- A fault for another command, letter by letter, is no conflict.
  NoConflict-Created :
      (fault other : Fault T) (s : d.Store) (r : Answer T × d.Store)
      → Created fault s r
      → fault.command ≢ other.command
      → NoConflict d c other s
      → NoConflict d c other r.1
  NoConflict-Created fault other s (answer, s') (_, at) differ new k g e =
      ground (arith, at k, new k g)

module _ {T : Type 0} (unicode_lower : Text → Text) (h : HashMap (Fault T)) where
  abbrev db : FaultStore T
  db = mem_store unicode_lower h

  abbrev c : IsTable db
  c = mem_store-IsTable unicode_lower h

  -- If two faults of different names are posted to the in-memory store, one after the other, for
  -- commands that differ only in their case and are not `*`, and no stored fault is for either, then
  -- both are answered 201 and stored, but one of the two is never chosen, whatever the command.
  pub store_fault-shadowed :
      (now later : T) (a b : Fault T) (s : MemStore h)
      → a.name ≢ b.name
      → a.command ≢ b.command
      → to_lowercase unicode_lower a.command ≡ to_lowercase unicode_lower b.command
      → a.command ≢ codes "*"
      → b.command ≢ codes "*"
      → NoConflict db c a s
      → NoConflict db c b s
      → let (first, s') = store_fault db now a s in
        let (second, s'') = store_fault db later b s' in
        (first ≡ ok (empty_response created))
        × (second ≡ ok (empty_response created))
        × (c.table s'' a.name ≡ some (stamp now a))
        × (c.table s'' b.name ≡ some (stamp later b))
        × (((cmd : Text) → get_by_redis_cmd unicode_lower h s'' cmd ≢ some (stamp now a))
            ⊎ ((cmd : Text) → get_by_redis_cmd unicode_lower h s'' cmd ≢ some (stamp later b)))
  store_fault-shadowed now later a b s names differ same na nb free_a free_b =
      let made = store_fault-Created db c now a s free_a in
      let made_b =
        store_fault-Created db c later b (store_fault db now a s).1
          (NoConflict-Created db c (stamp now a) b s _ made differ free_b) in
      (
        made.0,
        made_b.0,
        made_b.1 a.name ∙ ground (arith, made.1 a.name),
        made_b.1 b.name ∙ rw ==_refl refl,
        one_shadowed unicode_lower h _ (stamp now a) (stamp later b) names same na nb,
      )
