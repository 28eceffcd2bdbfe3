-- ===== src/Program/Exclusive.antt =====
-- The program of main.rs as long as no two POSTs of one command are between their two sections at
-- once.
use red_monkey.Common.{
  ℕ, Text, codes, ◌≡◌, ◌≢◌, refl, ◌∙◌, ◌⊎◌, inl, inr, Option, none, some, true, eqb, ◌==◌,
  if◌then◌else◌, Bool-cases, is_some, arith, Result, ok, err, map,
}
use red_monkey.Common.Int.{ℤ}
use red_monkey.Store.Fault.{Fault}
use red_monkey.Store.Entries.{All-lookup}
use red_monkey.Store.Interface.{FaultStore, IsTable, value}
use red_monkey.FaultConfigServer.Http.{ServerErrorResponse}
use red_monkey.FaultConfigServer.Handler
use red_monkey.FaultConfigServer.Handler.{stamp, store_fault_check}
use red_monkey.FaultConfigServer.Handler.Replies.{Found, find_conflict-Found, delete_fault_lem}
use red_monkey.FaultConfigServer.Handler.Race.{NoConflict, store_fault_write_lem}
use red_monkey.FaultConfigServer.Handler.Invariant.{
  IsOrderly, IsValid, IsValid-empty, put-IsValid, less-IsValid,
}
use red_monkey.FaultConfigServer.Handler.DeleteAll.{delete_all_faults_lem}
use red_monkey.FaultConfigServer.Server.{
  HttpRequest, Reply, Matcher, Endpoint, store_fault, get_fault, get_all_faults, delete_fault,
  delete_all_faults, Info, dispatch, routes,
}
use red_monkey.Proxy.RespUtil.{Resp, UrlCrate}
use red_monkey.Proxy.Connection.{OriginServerConfig}
use red_monkey.Program.{
  Task, idle, waiting, checked, replied, System, start, updated, section, first_section, check_post,
  after_check, advanced, Step, arrive, advance, accept_client, accept_fails, interrupt,
  serve_client,
}

module _ {T : Type 0} (d : FaultStore T) (c : IsTable d) (timestamp : T → ℤ) (m : Matcher) where
  -- The store has only what it had.
  abbrev Less : d.Store → d.Store → Type 0
  Less s s' = (k : Text) (f : Fault T) → c.table s' k ≡ some f → c.table s k ≡ some f

  -- What a section does: it only takes faults away, and then a task that has passed its check meets
  -- no stored fault for its command; or it is the second one of a POST.
  abbrev Takes : d.Store → Task T × d.Store → Type 0
  Takes s (task, s') =
      Less s s'
      × ((f : Fault T) → task ≡ checked f → NoConflict d c f s' × (is_some f.last_modified ≡ true))

  abbrev Puts : Fault T → d.Store → Task T × d.Store → Type 0
  Puts f s (task, s') =
      ((g : Fault T) → task ≢ checked g)
      × ((k : Text) → c.table s' k ≡ (if f.name == k then some f else c.table s k))

  Takes-replied : (s s' : d.Store) (reply : Reply T) → Less s s' → Takes s (replied reply, s')
  Takes-replied s s' reply less = (less, λ f e. cc)

  after_check-Takes :
      (fault : Fault T) (s : d.Store) (r : Result ServerErrorResponse (Unit {0}))
      → is_some fault.last_modified ≡ true
      → Found fault (map value (c.entries s)) r
      → Takes s (after_check fault r, s)
  after_check-Takes fault s (err e) time found = Takes-replied s s _ (λ k f at. at)
  after_check-Takes fault s (ok _) time found = (
    λ k f at. at,
    λ g e.
        let same : g ≡ fault = ground (arith, e) in
        rw same (λ k f at. All-lookup _ (c.entries s) k f found (c.lookup-entries s k ∙ at), time),
  )

  check_post-Takes :
      (now : T) (body : Option (Fault T)) (s : d.Store)
      → Takes s (check_post d timestamp m now body s)
  unfolding store_fault_check
  check_post-Takes now none s = Takes-replied s s _ (λ k f at. at)
  check_post-Takes now (some body) s =
      rw (c.all_reply s)
        (after_check-Takes (stamp now body) s _ refl (find_conflict-Found (stamp now body) _))

  delete_fault-Less : (name : Option Text) (s : d.Store) → Less s (Handler.delete_fault d name s).1
  delete_fault-Less none s = unfold Handler.delete_fault in λ k f at. at
  delete_fault-Less (some name) s = λ k f at. ground (arith, (delete_fault_lem d c s name).1 k)

  first_section-Takes :
      (q : HttpRequest T) (target : Option (Endpoint × Info)) (s : d.Store)
      → IsOrderly (c.table s)
      → Takes s (first_section d timestamp m q target s)
  first_section-Takes q none s v = Takes-replied s s _ (λ k f at. at)
  first_section-Takes q (some (store_fault, info)) s v = check_post-Takes q.time q.body s
  first_section-Takes q (some (get_fault, info)) s v = Takes-replied s s _ (λ k f at. at)
  first_section-Takes q (some (get_all_faults, info)) s v = Takes-replied s s _ (λ k f at. at)
  first_section-Takes q (some (delete_fault, info)) s v =
      Takes-replied s _ _ (delete_fault-Less (info (codes "fault_name")) s)
  first_section-Takes q (some (delete_all_faults, info)) s v =
      Takes-replied s _ _ (λ k f at. cc ((delete_all_faults_lem d c s v).1 k, at))

  section-cases :
      (task : Task T) (s : d.Store)
      → IsOrderly (c.table s)
      → Takes s (section d timestamp m task s)
        ⊎ ((f : Fault T) × (task ≡ checked f) × Puts f s (section d timestamp m task s))
  unfolding section
  section-cases idle s v = inl (λ k f at. at, λ f e. cc)
  section-cases (waiting q) s v =
      inl (first_section-Takes q (dispatch m routes q.method q.path) s v)
  section-cases (checked fault) s v = inr (
    fault,
    refl,
    rw (store_fault_write_lem d c fault s) (λ g e. cc, c.table-store s fault.name fault),
  )
  section-cases (replied reply) s v = inl (λ k f at. at, λ f e. cc)

  -- No two POSTs of one command are between their sections.
  abbrev pub IsExclusive : System d → Type 0
  IsExclusive y =
      (i j : ℕ) (f g : Fault T)
      → y.tasks i ≡ checked f
      → y.tasks j ≡ checked g
      → f.command ≡ g.command
      → i ≡ j

  -- The table is valid, and each task that has passed its check meets no stored fault for its
  -- command.
  pub record Guarded (s : d.Store) (tasks : ℕ → Task T) : Type 0 where
    pub valid : IsValid (c.table s)
    pub timed : (i : ℕ) (f : Fault T) → tasks i ≡ checked f → is_some f.last_modified ≡ true
    pub fresh : (i : ℕ) (f : Fault T) → tasks i ≡ checked f → NoConflict d c f s

  abbrev pub IsGuarded : System d → Type 0
  IsGuarded y = Guarded y.store y.tasks

  Takes-IsGuarded :
      (i : ℕ) (y : System d) (task : Task T) (s' : d.Store)
      → IsGuarded y
      → Takes y.store (task, s')
      → IsGuarded (record y { store = s'; tasks = updated y.tasks i task })
  Takes-IsGuarded i y task s' v (less, new) = record {
    valid = less-IsValid (c.table y.store) (c.table s') v.valid less;
    timed = λ j f e. ground (arith, new f, v.timed j f);
    fresh = λ j f e k g at. elim (Bool-cases (eqb i j)) [
      | inl here ↦ (new f (ground arith)).0 k g at
      | inr there ↦ v.fresh j f (ground arith) k g (less k g at)
    ];
  }

  Puts-IsGuarded :
      (i : ℕ) (y : System d) (f : Fault T) (task : Task T) (s' : d.Store)
      → IsGuarded y
      → IsExclusive y
      → y.tasks i ≡ checked f
      → Puts f y.store (task, s')
      → IsGuarded (record y { store = s'; tasks = updated y.tasks i task })
  Puts-IsGuarded i y f task s' v one e (done, at) = record {
    valid = put-IsValid (c.table y.store) (c.table s') f v.valid (v.timed i f e) (v.fresh i f e) at;
    timed = λ j g e'. ground (arith, done g, v.timed j g);
    fresh = λ j g e' k x stored same. elim (Bool-cases (eqb i j)) [
      | inl here ↦ done g (ground arith)
      | inr there ↦ elim (Bool-cases (f.name == k)) [
        | inl hit ↦ ground (arith, one i j f g e, at k)
        | inr miss ↦ v.fresh j g (ground arith) k x (ground (arith, at k)) same
      ]
    ];
  }

  advanced-IsGuarded :
      (i : ℕ) (y : System d) → IsGuarded y → IsExclusive y → IsGuarded (advanced d timestamp m i y)
  advanced-IsGuarded i y v one = elim (section-cases (y.tasks i) y.store v.valid.orderly) [
    | inl takes ↦ Takes-IsGuarded i y _ _ v takes
    | inr (f, e, puts) ↦ Puts-IsGuarded i y f _ _ v one e puts
  ]

  module _ (r : Resp) (u : UrlCrate) (config : OriginServerConfig) where
    -- A run in which the tasks are exclusive at every step.
    pub data ReachExclusive (y : System d) : System d → Type 0 where
      here : ReachExclusive y y
      next :
          {z w : System d}
          → ReachExclusive y z
          → IsExclusive z
          → Step d timestamp m r u config z w
          → ReachExclusive y w

    Step-IsGuarded :
        {y z : System d}
        → Step d timestamp m r u config y z
        → IsExclusive y
        → IsGuarded y
        → IsGuarded z
    Step-IsGuarded {y} (arrive i q e) one v =
        Takes-IsGuarded i y (waiting q) y.store v (λ k f at. at, λ f e. cc)
    Step-IsGuarded {y} (advance i) one v = advanced-IsGuarded i y v one
    Step-IsGuarded (accept_client j client e free) one v = v
    Step-IsGuarded (accept_fails e) one v = v
    Step-IsGuarded interrupt one v = v
    Step-IsGuarded (serve_client j client e) one v = v

    pub Reach-IsGuarded : {y z : System d} → ReachExclusive y z → IsGuarded y → IsGuarded z
    Reach-IsGuarded here v = v
    Reach-IsGuarded (next reached one step) v = Step-IsGuarded step one (Reach-IsGuarded reached v)

    pub start-IsGuarded : (s : d.Store) → ((k : Text) → c.table s k ≡ none) → IsGuarded (start d s)
    start-IsGuarded s empty = record {
      valid = IsValid-empty (c.table s) empty;
      timed = λ i f e. cc;
      fresh = λ i f e. cc;
    }

    -- From a start with no faults, if at no moment two POSTs of one command are between their two
    -- sections, then at every moment the table is valid: no two stored faults are for one command.
    -- Everything else may interleave in any way.
    pub ReachExclusive-IsValid :
        (s : d.Store)
        → ((k : Text) → c.table s k ≡ none)
        → (y : System d) → ReachExclusive (start d s) y
        → IsValid (c.table y.store)
    ReachExclusive-IsValid s empty y reached =
        (Reach-IsGuarded reached (start-IsGuarded s empty)).valid
