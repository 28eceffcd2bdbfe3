-- ===== src/Program/Sections.antt =====
-- What one section of a task of the HTTP server keeps, whatever section it is: main.rs and
-- fault_config_server/handler.rs.
use mathlib.Core.Path.{subst}
use red_monkey.Common.{
  ℕ, eqb, Text, codes, ◌≡◌, refl, ap, Option, none, some, true, is_some, ◌==◌, Bool-cases, inl, inr,
  ==_iff, arith, Result, ok, err,
}
use red_monkey.Common.Int.{ℤ}
use red_monkey.Store.Fault.{Fault}
use red_monkey.Store.Interface.{FaultStore, IsTable}
use red_monkey.FaultConfigServer.Http.{ServerErrorResponse, created, empty_response}
use red_monkey.FaultConfigServer.Handler
use red_monkey.FaultConfigServer.Handler.{stamp, store_fault_write}
use red_monkey.FaultConfigServer.Handler.Replies.{delete_fault_lem}
use red_monkey.FaultConfigServer.Handler.Race.{store_fault_write_lem}
use red_monkey.FaultConfigServer.Handler.Invariant.{IsOrderly}
use red_monkey.FaultConfigServer.Handler.DeleteAll.{delete_all_faults_lem}
use red_monkey.FaultConfigServer.Handler.Listing.{get_all_faults_lem}
use red_monkey.FaultConfigServer.Server.{
  HttpRequest, Matcher, Endpoint, store_fault, get_fault, get_all_faults, delete_fault,
  delete_all_faults, Info, respond_unless_panic, dispatch, routes,
}
use red_monkey.FaultConfigServer.Server.Safety.{NoPanic, respond-NoPanic}
use red_monkey.Program.{
  updated, Task, idle, waiting, checked, replied, section, first_section, check_post, after_check,
}

-- What holds of every task holds after one has moved on.
pub updated-all :
    {A : Type 0} (P : ℕ → A → Type 0) (tasks : ℕ → A) (i : ℕ) (task : A)
    → P i task
    → ((j : ℕ) → P j (tasks j))
    → (j : ℕ) → P j (updated tasks i task j)
updated-all P tasks i task h all j = elim (Bool-cases (eqb i j)) [
  | inl e ↦ let same : i ≡ j = ground arith in rw e (subst (λ k. P k task) same h)
  | inr e ↦ rw e (all j)
]

-- `P` is what every fault on its way into the store has; it says that the fault has a time.
module _ {T : Type 0} (d : FaultStore T) (c : IsTable d) (timestamp : T → ℤ) (m : Matcher)
    (P : Fault T → Type 0) (timed : (f : Fault T) → P f → is_some f.last_modified ≡ true) where
  abbrev pub TableHas : (Text → Option (Fault T)) → Type 0
  TableHas table = (k : Text) (f : Fault T) → table k ≡ some f → (f.name ≡ k) × P f

  abbrev pub TaskHas : Task T → Type 0
  TaskHas idle = Unit
  TaskHas (waiting q) =
      (info : Info) (body : Fault T)
      → dispatch m routes q.method q.path ≡ some (store_fault, info)
      → q.body ≡ some body
      → P (stamp q.time body)
  TaskHas (checked fault) = P fault
  TaskHas (replied reply) = NoPanic reply

  abbrev pub Kept : Task T × d.Store → Type 0
  Kept (task, s) = TaskHas task × TableHas (c.table s)

  pub TableHas-IsOrderly : (s : d.Store) → TableHas (c.table s) → IsOrderly (c.table s)
  TableHas-IsOrderly s h = record {
    keyed = λ k f e. (h k f e).0;
    stamped = λ k f e. timed f (h k f e).1;
  }

  after_check-TaskHas :
      (fault : Fault T) (r : Result ServerErrorResponse (Unit {0}))
      → P fault
      → TaskHas (after_check fault r)
  after_check-TaskHas fault (ok _) p = p
  after_check-TaskHas fault (err e) p = respond-NoPanic (err e)

  check_post-Kept :
      (now : T) (body : Option (Fault T)) (s : d.Store)
      → ((b : Fault T) → body ≡ some b → P (stamp now b))
      → TableHas (c.table s)
      → Kept (check_post d timestamp m now body s)
  check_post-Kept now none s p h = (λ e. cc, h)
  check_post-Kept now (some body) s p h = (after_check-TaskHas (stamp now body) _ (p body refl), h)

  delete_fault-TableHas :
      (name : Option Text) (s : d.Store)
      → TableHas (c.table s)
      → TableHas (c.table (Handler.delete_fault d name s).1)
  delete_fault-TableHas none s h = unfold Handler.delete_fault in h
  delete_fault-TableHas (some name) s h =
      λ k f e. ground (arith, (delete_fault_lem d c s name).1 k, h k f)

  first_section-Kept :
      (q : HttpRequest T) (target : Option (Endpoint × Info)) (s : d.Store)
      → dispatch m routes q.method q.path ≡ target
      → TaskHas (waiting q)
      → TableHas (c.table s)
      → Kept (first_section d timestamp m q target s)
  first_section-Kept q none s to p h = (λ e. cc, h)
  first_section-Kept q (some (store_fault, info)) s to p h =
      check_post-Kept q.time q.body s (λ b. p info b to) h
  first_section-Kept q (some (get_fault, info)) s to p h = (respond-NoPanic _, h)
  first_section-Kept q (some (get_all_faults, info)) s to p h =
      let (faults, e, _, _, _) = get_all_faults_lem timestamp d c s (TableHas-IsOrderly s h) in
      (λ n. cc (n, ap respond_unless_panic e), h)
  first_section-Kept q (some (delete_fault, info)) s to p h =
      (respond-NoPanic _, delete_fault-TableHas (info (codes "fault_name")) s h)
  first_section-Kept q (some (delete_all_faults, info)) s to p h = (
    respond-NoPanic _,
    λ k f e. cc ((delete_all_faults_lem d c s (TableHas-IsOrderly s h)).1 k, e),
  )

  write-TableHas :
      (fault : Fault T) (s : d.Store)
      → P fault
      → TableHas (c.table s)
      → TableHas (c.table (d.store s fault.name fault).1)
  write-TableHas fault s p h k f e = elim (Bool-cases (fault.name == k)) [
    | inl same ↦
        let stored : f ≡ fault = ground (arith, c.table-store s fault.name fault k) in
        rw stored ((==_iff fault.name k).0 same, p)
    | inr other ↦ h k f (ground (arith, c.table-store s fault.name fault k))
  ]

  -- The section of any task keeps what the faults have.
  pub section-Kept :
      (task : Task T) (s : d.Store)
      → TaskHas task
      → TableHas (c.table s)
      → Kept (section d timestamp m task s)
  unfolding section
  section-Kept idle s p h = (tt, h)
  section-Kept (waiting q) s p h =
      first_section-Kept q (dispatch m routes q.method q.path) s refl p h
  section-Kept (checked fault) s p h =
      rw (store_fault_write_lem d c fault s)
        (respond-NoPanic (ok (empty_response created)), write-TableHas fault s p h)
  section-Kept (replied reply) s p h = (p, h)
