-- ===== src/FaultConfigServer/Handler/Repeats.antt =====
-- Requests that are sent again. The DELETE handlers of fault_config_server/handler.rs do not depend
-- on what the store had at the name, and POST /fault refuses what it has stored before.
use red_monkey.Common.{Text, ◌≡◌, refl, sym, ◌∙◌, some, arith, ok, err}
use red_monkey.Store.Fault.{Fault}
use red_monkey.Store.Interface.{FaultStore, IsTable}
use red_monkey.FaultConfigServer.Http.{HttpResponse}
use red_monkey.FaultConfigServer.Handler.{
  Answer, stamp, conflict_error, store_fault, delete_fault, delete_all_faults,
}
use red_monkey.FaultConfigServer.Handler.Replies.{
  Posted, store_fault-Posted, table-Posted, delete_fault_lem,
}
use red_monkey.FaultConfigServer.Handler.DeleteAll.{delete_all_faults_lem}
use red_monkey.FaultConfigServer.Handler.Invariant.{IsOrderly, IsValid-empty}

module _ {T : Type 0} (d : FaultStore T) (c : IsTable d) where
  -- The second of two requests is answered as the first, and leaves the table that the first left.
  abbrev pub Repeats : Answer T × d.Store → Answer T × d.Store → Type 0
  Repeats (answer, s) (answer', s') = (answer' ≡ answer) × ((k : Text) → c.table s' k ≡ c.table s k)

  -- On a store that is an orderly table, DELETE /fault/{fault_name} sent twice is answered the same
  -- twice, and the second leaves the table as the first left it; and so is DELETE /faults.
  pub deletes_idempotent :
      (s : d.Store) (name : Text)
      → IsOrderly (c.table s)
      → Repeats
          (delete_fault d (some name) s)
          (delete_fault d (some name) (delete_fault d (some name) s).1)
        × Repeats (delete_all_faults d s) (delete_all_faults d (delete_all_faults d s).1)
  deletes_idempotent s name v =
      let (deleted, cleared) = delete_fault_lem d c s name in
      let (again, kept) = delete_fault_lem d c (delete_fault d (some name) s).1 name in
      let (all, empty) = delete_all_faults_lem d c s v in
      let (none_left, still) =
        delete_all_faults_lem d c (delete_all_faults d s).1 (IsValid-empty _ empty).orderly in
      (
        (again ∙ sym deleted, λ k. ground (arith, kept k, cleared k)),
        (none_left ∙ sym all, λ k. still k ∙ sym (empty k)),
      )

  Posted-refused :
      (fault : Fault T) (s : d.Store) (r : Answer T × d.Store) (k : Text) (g : Fault T)
      → Posted d c fault s r
      → c.table s k ≡ some g
      → g.command ≡ fault.command
      → r ≡ (err (conflict_error fault), s)
  Posted-refused fault s (ok x, s') k g (_, new, _) e eq = absurd (new k g e eq)
  Posted-refused fault s (err x, s') k g (same, _, kept) e eq = rw (same, kept) refl

  -- On a store that is a table, once a POST /fault has been answered 201, the next POST of a fault
  -- for the same command, the same one included, is answered 409 and leaves the store as it is.
  pub store_fault-refused :
      (now later : T) (body again : Fault T) (s : d.Store) {response : HttpResponse T}
      → (store_fault d now body s).0 ≡ ok response
      → body.command ≡ again.command
      → let s' = (store_fault d now body s).1 in
        store_fault d later again s' ≡ (err (conflict_error again), s')
  store_fault-refused now later body again s created_it same =
      Posted-refused (stamp later again) (store_fault d now body s).1 _ body.name (stamp now body)
        (store_fault-Posted d c later again (store_fault d now body s).1)
        (table-Posted d c (stamp now body) s _ (store_fault-Posted d c now body s) created_it) same
