-- ===== src/Program/Answers.antt =====
-- When the tasks of the HTTP server have answered, and what: the handlers of
-- fault_config_server/handler.rs in the program of main.rs.
use mathlib.Core.Path.{subst}
use red_monkey.Common.{
  ℕ, ◌+◌, ◌≤◌, Text, ◌≡◌, refl, ap, sym, ◌∙◌, Option, none, some, eqb, if◌then◌else◌, Bool-cases,
  inl, inr, arith, Result, ok, err,
}
use red_monkey.Common.Int.{ℤ}
use red_monkey.Store.Fault.{Fault}
use red_monkey.Store.Interface.{FaultStore, IsTable}
use red_monkey.FaultConfigServer.Http.{ServerErrorResponse, created, empty_response}
use red_monkey.FaultConfigServer.Handler
use red_monkey.FaultConfigServer.Handler.{Answer, stamp, store_fault_check, store_fault_write}
use red_monkey.FaultConfigServer.Handler.Invariant.{IsOrderly}
use red_monkey.FaultConfigServer.Handler.Race.{store_fault_write_lem}
use red_monkey.FaultConfigServer.Handler.Replies.{store_fault-Posted}
use red_monkey.FaultConfigServer.Server.{
  HttpRequest, Reply, responded, respond, Matcher, Endpoint, store_fault, get_fault, get_all_faults,
  delete_fault, delete_all_faults, Info, dispatch, routes,
}
use red_monkey.FaultConfigServer.Api.{Table, Promised, PromisedPost, PromisedBody}
use red_monkey.FaultConfigServer.Api.Refinement.{Posted-PromisedPost, call-Promised}
use red_monkey.Proxy.RespUtil.{Resp, UrlCrate}
use red_monkey.Proxy.Connection.{OriginServerConfig}
use red_monkey.Program.{
  Task, idle, waiting, checked, replied, System, requests, start, section, first_section,
  check_post, after_check, Step, arrive, advance, accept_client, accept_fails, interrupt,
  serve_client, Reach, here, next,
}
use red_monkey.Program.Reachable.{IsPosted, IsPosted-timed, IsSourced, Reach-IsSourced, sourced}
use red_monkey.Program.Sections.{TableHas-IsOrderly}

module _ {T : Type 0} (d : FaultStore T) (c : IsTable d) (timestamp : T → ℤ) (m : Matcher) where
  -- The reply of a task is `A`: the one that it has given, or that of a POST that is to be written.
  abbrev Answers : (Reply T → Type 0) → Task T → Type 0
  Answers A idle = ⊥
  Answers A (waiting q) = ⊥
  Answers A (checked fault) = A (responded (empty_response created))
  Answers A (replied reply) = A reply

  posted_as :
      (now : T) (body : Fault T) (s : d.Store) (r : Answer T × d.Store)
      → Handler.store_fault d now body s ≡ r
      → PromisedPost (stamp now body) (c.table s) (respond r.0) (c.table r.1)
  posted_as now body s r e =
      subst
        (λ (x : Answer T × d.Store).
          PromisedPost (stamp now body) (c.table s) (respond x.0) (c.table x.1))
        e (Posted-PromisedPost d c (stamp now body) s _ (store_fault-Posted d c now body s))

  after_check-Answers :
      (now : T) (body : Fault T) (s : d.Store) (r : Result ServerErrorResponse (Unit {0}))
      → store_fault_check d (stamp now body) s ≡ r
      → Answers
          (λ reply. (table' : Table T) × PromisedPost (stamp now body) (c.table s) reply table')
          (after_check (stamp now body) r)
  unfolding Handler.store_fault
  after_check-Answers now body s (ok u) e = (
    _,
    posted_as now body s (ok (empty_response created), (d.store s body.name (stamp now body)).1)
        (rw e (store_fault_write_lem d c (stamp now body) s)),
  )
  after_check-Answers now body s (err x) e = (_, posted_as now body s (err x, s) (rw e refl))

  check_post-Answers :
      (now : T) (body : Option (Fault T)) (s : d.Store)
      → Answers
          (λ reply. (table' : Table T) × PromisedBody now body (c.table s) reply table')
          (check_post d timestamp m now body s).0
  check_post-Answers now none s = (c.table s, (refl, λ k. refl))
  check_post-Answers now (some body) s = after_check-Answers now body s _ refl

  -- What the interface promises on a table as a reply, whatever table it leaves.
  abbrev Answerable : HttpRequest T → Option (Endpoint × Info) → d.Store → Reply T → Type 0
  Answerable q target s reply =
      (table' : Table T) × Promised timestamp q target (c.table s) reply table'

  first_section-Answers :
      (q : HttpRequest T) (target : Option (Endpoint × Info)) (s : d.Store)
      → IsOrderly (c.table s)
      → Answers (Answerable q target s) (first_section d timestamp m q target s).0
  first_section-Answers q none s v = (_, call-Promised d c timestamp q none s v)
  first_section-Answers q (some (store_fault, info)) s v = check_post-Answers q.time q.body s
  first_section-Answers q (some (get_fault, info)) s v =
      (_, call-Promised d c timestamp q (some (get_fault, info)) s v)
  first_section-Answers q (some (get_all_faults, info)) s v =
      (_, call-Promised d c timestamp q (some (get_all_faults, info)) s v)
  first_section-Answers q (some (delete_fault, info)) s v =
      (_, call-Promised d c timestamp q (some (delete_fault, info)) s v)
  first_section-Answers q (some (delete_all_faults, info)) s v =
      (_, call-Promised d c timestamp q (some (delete_all_faults, info)) s v)

  module _ (r : Resp) (u : UrlCrate) (config : OriginServerConfig) where
    -- How often a task has a section in a run.
    abbrev turned : {y z : System d} → ℕ → Step d timestamp m r u config y z → ℕ
    turned i (arrive j q e) = 0
    turned i (advance j) = if eqb j i then 1 else 0
    turned i (accept_client j client e free) = 0
    turned i (accept_fails e) = 0
    turned i interrupt = 0
    turned i (serve_client j client e) = 0

    abbrev pub turns : {y z : System d} → ℕ → Reach d timestamp m r u config y z → ℕ
    turns i here = 0
    turns i (next run step) = turns i run + turned i step

    -- Since `y`, the program has been at a moment on whose table the interface promises the reply.
    abbrev pub AnswerableSince : HttpRequest T → System d → System d → Reply T → Type 0
    AnswerableSince q y z reply =
        (w : System d) × Reach d timestamp m r u config y w
        × Reach d timestamp m r u config w z
        × (table' : Table T) × Promised timestamp q (dispatch m routes q.method q.path)
            (c.table w.store) reply table'

    -- Where the task of a request stands after `n` turns.
    abbrev Standing : HttpRequest T → System d → ℕ → System d → Task T → Type 0
    Standing q y n z idle = ⊥
    Standing q y n z (waiting q') = (q' ≡ q) × (n ≡ 0)
    Standing q y n z (checked fault) =
        (n ≤ 1) × AnswerableSince q y z (responded (empty_response created))
    Standing q y n z (replied reply) = AnswerableSince q y z reply

    AnswerableSince-next :
        (q : HttpRequest T) (y z z' : System d) (reply : Reply T)
        → Step d timestamp m r u config z z'
        → AnswerableSince q y z reply
        → AnswerableSince q y z' reply
    AnswerableSince-next q y z z' reply step (w, before, after, table', promised) =
        (w, before, next after step, table', promised)

    Standing-next :
        (q : HttpRequest T) (y z z' : System d) (n : ℕ) (task : Task T)
        → Step d timestamp m r u config z z'
        → Standing q y n z task
        → Standing q y (n + 0) z' task
    Standing-next q y z z' n idle step h = absurd h
    Standing-next q y z z' n (waiting q') step (same, none_yet) = (same, omega (arith, none_yet))
    Standing-next q y z z' n (checked fault) step (few, since) =
        (omega (arith, few), AnswerableSince-next q y z z' _ step since)
    Standing-next q y z z' n (replied reply) step since =
        AnswerableSince-next q y z z' reply step since

    Answers-Standing :
        (q : HttpRequest T) (y z z' : System d) (task : Task T)
        → Reach d timestamp m r u config y z
        → Step d timestamp m r u config z z'
        → Answers (Answerable q (dispatch m routes q.method q.path) z.store) task
        → Standing q y 1 z' task
    Answers-Standing q y z z' idle run step h = absurd h
    Answers-Standing q y z z' (waiting q') run step h = absurd h
    Answers-Standing q y z z' (checked fault) run step (table', promised) =
        (omega arith, (z, run, next here step, table', promised))
    Answers-Standing q y z z' (replied reply) run step (table', promised) =
        (z, run, next here step, table', promised)

    section-Standing :
        (q : HttpRequest T) (y z z' : System d) (n : ℕ) (task : Task T)
        → IsOrderly (c.table z.store)
        → Reach d timestamp m r u config y z
        → Step d timestamp m r u config z z'
        → Standing q y n z task
        → Standing q y (n + 1) z' (section d timestamp m task z.store).0
    unfolding section
    section-Standing q y z z' n idle v run step h = absurd h
    section-Standing q y z z' n (waiting q') v run step (same, none_yet) =
        rw (same, none_yet)
          (Answers-Standing q y z z' _ run step
            (first_section-Answers q (dispatch m routes q.method q.path) z.store v))
    section-Standing q y z z' n (checked fault) v run step (few, since) =
        rw (store_fault_write_lem d c fault z.store) (AnswerableSince-next q y z z' _ step since)
    section-Standing q y z z' n (replied reply) v run step since =
        AnswerableSince-next q y z z' reply step since

    Step-Standing :
        (q : HttpRequest T) (y : System d) (i : ℕ) (n : ℕ) {z z' : System d}
        → (step : Step d timestamp m r u config z z') → IsOrderly (c.table z.store)
        → Reach d timestamp m r u config y z
        → Standing q y n z (z.tasks i)
        → Standing q y (n + turned i step) z' (z'.tasks i)
    Step-Standing q y i n {z} {z'} (arrive j p e) v run h = elim (Bool-cases (eqb j i)) [
      | inl hit ↦
          let same : j ≡ i = ground arith in
          absurd (subst (Standing q y n z) (ap (λ k. z.tasks k) (sym same) ∙ e) h)
      | inr miss ↦ rw miss (Standing-next q y z z' n (z.tasks i) (arrive j p e) h)
    ]
    Step-Standing q y i n {z} {z'} (advance j) v run h = elim (Bool-cases (eqb j i)) [
      | inl hit ↦
          let same : j ≡ i = ground arith in
          rw hit (rw same (section-Standing q y z _ n (z.tasks i) v run (advance i) h))
      | inr miss ↦ rw miss (Standing-next q y z z' n (z.tasks i) (advance j) h)
    ]
    Step-Standing q y i n {z} {z'} (accept_client j client e free) v run h =
        Standing-next q y z z' n (z.tasks i) (accept_client j client e free) h
    Step-Standing q y i n {z} {z'} (accept_fails e) v run h =
        Standing-next q y z z' n (z.tasks i) (accept_fails e) h
    Step-Standing q y i n {z} {z'} interrupt v run h =
        Standing-next q y z z' n (z.tasks i) interrupt h
    Step-Standing q y i n {z} {z'} (serve_client j client e) v run h =
        Standing-next q y z z' n (z.tasks i) (serve_client j client e) h

    Reach-Standing :
        (q : HttpRequest T) (y : System d) (i : ℕ)
        → y.tasks i ≡ waiting q
        → IsSourced d c timestamp m y
        → {z : System d} (run : Reach d timestamp m r u config y z)
        → Standing q y (turns i run) z (z.tasks i)
    Reach-Standing q y i e v here = rw e (refl, refl)
    Reach-Standing q y i e v (next {z} run step) =
        Step-Standing q y i (turns i run) step
          (TableHas-IsOrderly d c timestamp m (IsPosted m (requests d z))
            (IsPosted-timed m (requests d z)) z.store
            (Reach-IsSourced d c timestamp m r u config run v).stored)
          run (Reach-Standing q y i e v run)

    Standing-replied :
        (q : HttpRequest T) (y z : System d) (n : ℕ) (task : Task T)
        → 2 ≤ n
        → Standing q y n z task
        → (reply : Reply T) × (task ≡ replied reply) × AnswerableSince q y z reply
    Standing-replied q y z n idle enough h = absurd h
    Standing-replied q y z n (waiting q') enough (same, few) = absurd (omega (arith, enough, few))
    Standing-replied q y z n (checked fault) enough (few, since) =
        absurd (omega (arith, enough, few))
    Standing-replied q y z n (replied reply) enough since = (reply, refl, since)

    -- From a start with no faults, if the task of a request waits at some moment, and has two turns
    -- in what follows, then whatever the other tasks and the proxy do in between, it has replied,
    -- and its reply is one that the interface promises for the request on the table of a moment in
    -- between.
    pub Reach-answered :
        (s : d.Store)
        → ((k : Text) → c.table s k ≡ none)
        → (y : System d) → Reach d timestamp m r u config (start d s) y
        → (i : ℕ) (q : HttpRequest T) → y.tasks i ≡ waiting q
        → (z : System d) (run : Reach d timestamp m r u config y z) → 2 ≤ turns i run
        → (reply : Reply T) × (z.tasks i ≡ replied reply) × AnswerableSince q y z reply
    Reach-answered s empty y reached i q e z run enough =
        Standing-replied q y z (turns i run) (z.tasks i) enough
          (Reach-Standing q y i e (sourced d c timestamp m r u config s empty y reached) run)
