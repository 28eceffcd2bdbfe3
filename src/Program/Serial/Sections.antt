-- ===== src/Program/Serial/Sections.antt =====
-- Each section of a task of the program of main.rs against the serving of a whole request.
use red_monkey.Common.{
  ℕ, ◌≡◌, refl, Option, none, some, List, ◌⊎◌, inl, inr, Member, Result, ok, err,
}
use mathlib.Core.Path.{subst}
use red_monkey.Common.Int.{ℤ}
use red_monkey.Store.Fault.{Fault}
use red_monkey.Store.Interface.{FaultStore, IsTable}
use red_monkey.FaultConfigServer.Http.{ServerErrorResponse}
use red_monkey.FaultConfigServer.Handler
use red_monkey.FaultConfigServer.Handler.{stamp, store_fault_check, store_fault_write}
use red_monkey.FaultConfigServer.Handler.Race.{NoConflict, store_fault_check-ok}
use red_monkey.FaultConfigServer.Server.{
  HttpRequest, Matcher, Endpoint, store_fault, get_fault, get_all_faults, delete_fault,
  delete_all_faults, Info, serve_request, dispatch, routes,
}
use red_monkey.Program.{
  Task, idle, waiting, checked, replied, section, first_section, check_post, after_check,
}
use red_monkey.Program.Serial.{IsPostedBy, Origin, IsOpen, Serves, Comes}

module _ {T : Type 0} (d : FaultStore T) (c : IsTable d) (timestamp : T → ℤ) (m : Matcher) where
  after_check-Comes :
      (posted : List (ℕ × HttpRequest T)) (i : ℕ) (q : HttpRequest T) (info : Info) (body : Fault T)
      (s : d.Store) (r : Result ServerErrorResponse (Unit {0}))
      → Member (i, q) posted
      → dispatch m routes q.method q.path ≡ some (store_fault, info)
      → q.body ≡ some body
      → store_fault_check d (stamp q.time body) s ≡ r
      → Comes d timestamp m posted i s (after_check (stamp q.time body) r, s)
  unfolding serve_request Handler.store_fault
  after_check-Comes posted i q info body s (ok u) at to b e =
      inl (stamp q.time body, (q, info, body, at, to, b, refl), refl)
  after_check-Comes posted i q info body s (err x) at to b e = inr (q, at, rw (to, b, e))

  check_post-Comes :
      (posted : List (ℕ × HttpRequest T)) (i : ℕ) (q : HttpRequest T) (info : Info)
      (o : Option (Fault T)) (s : d.Store)
      → Member (i, q) posted
      → dispatch m routes q.method q.path ≡ some (store_fault, info)
      → q.body ≡ o
      → Comes d timestamp m posted i s (check_post d timestamp m q.time o s)
  unfolding serve_request
  check_post-Comes posted i q info none s at to b = inr (q, at, rw (to, b))
  check_post-Comes posted i q info (some body) s at to b =
      after_check-Comes posted i q info body s _ at to b refl

  first_section-Comes :
      (posted : List (ℕ × HttpRequest T)) (i : ℕ) (q : HttpRequest T)
      (target : Option (Endpoint × Info)) (s : d.Store)
      → Member (i, q) posted
      → dispatch m routes q.method q.path ≡ target
      → Comes d timestamp m posted i s (first_section d timestamp m q target s)
  unfolding serve_request
  first_section-Comes posted i q none s at to = inr (q, at, rw to)
  first_section-Comes posted i q (some (store_fault, info)) s at to =
      check_post-Comes posted i q info q.body s at to refl
  first_section-Comes posted i q (some (get_fault, info)) s at to = inr (q, at, rw to)
  first_section-Comes posted i q (some (get_all_faults, info)) s at to = inr (q, at, rw to)
  first_section-Comes posted i q (some (delete_fault, info)) s at to = inr (q, at, rw to)
  first_section-Comes posted i q (some (delete_all_faults, info)) s at to = inr (q, at, rw to)

  write-Serves :
      (posted : List (ℕ × HttpRequest T)) (i : ℕ) (fault : Fault T) (s : d.Store)
      → IsPostedBy m posted i fault
      → NoConflict d c fault s
      → Serves d timestamp m posted i s (section d timestamp m (checked fault) s)
  unfolding section serve_request Handler.store_fault
  write-Serves posted i fault s (q, info, body, at, to, b, e) fresh =
      let served : store_fault_check d (stamp q.time body) s ≡ ok tt =
        store_fault_check-ok d c (stamp q.time body) s (subst (λ f. NoConflict d c f s) e fresh) in
      (q, at, rw (to, b, e, served))

  -- A section does nothing, passes a check, or serves the whole request of the task at once.
  pub section-Comes :
      (posted : List (ℕ × HttpRequest T)) (i : ℕ) (task : Task T) (s : d.Store)
      → Origin m posted i task
      → ((fault : Fault T) → task ≡ checked fault → NoConflict d c fault s)
      → (section d timestamp m task s ≡ (task, s))
        ⊎ (IsOpen task × Comes d timestamp m posted i s (section d timestamp m task s))
  unfolding section
  section-Comes posted i idle s o fresh = inl refl
  section-Comes posted i (waiting q) s o fresh =
      inr (λ reply e. cc, first_section-Comes posted i q _ s o refl)
  section-Comes posted i (checked fault) s o fresh =
      inr (λ reply e. cc, inr (write-Serves posted i fault s o (fresh fault refl)))
  section-Comes posted i (replied reply) s o fresh = inl refl
