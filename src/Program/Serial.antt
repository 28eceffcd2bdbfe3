-- ===== src/Program/Serial.antt =====
-- The program of main.rs against a server that serves its requests one after the other: what it is
-- for the answered tasks of a state to have been served in an order.
pub mod Sections
pub mod Orders
pub mod Runs
pub mod Reads
use red_monkey.Common.{
  ℕ, Text, ◌≡◌, ◌≢◌, refl, sym, ap, ◌∙◌, Bool-cases, Option, none, some, List, [], ◌∷◌, map, eqb,
  if◌then◌else◌, ◌⊎◌, inl, inr, All, All-mono, Member, arith, Result, ok, err,
}
use mathlib.Core.Path.{subst, fun_ext}
use red_monkey.Common.Int.{ℤ}
use red_monkey.Store.Fault.{Fault}
use red_monkey.Store.Interface.{FaultStore, IsTable}
use red_monkey.FaultConfigServer.Http.{ServerErrorResponse}
use red_monkey.FaultConfigServer.Handler
use red_monkey.FaultConfigServer.Handler.{stamp, store_fault_check, store_fault_write}
use red_monkey.FaultConfigServer.Handler.Race.{NoConflict, store_fault_check-ok}
use red_monkey.FaultConfigServer.Server.{
  HttpRequest, Reply, Matcher, Endpoint, store_fault, get_fault, get_all_faults, delete_fault,
  delete_all_faults, Info, respond, call, serve_request, dispatch, routes,
}
use red_monkey.Proxy.RespUtil.{Resp, UrlCrate}
use red_monkey.Proxy.Connection.{OriginServerConfig}
use red_monkey.Program.{
  Task, idle, waiting, checked, replied, System, start, replies, updated, section, first_section,
  check_post, after_check, advanced, Step, arrive, advance, serve_client,
}
use red_monkey.Program.Sections.{updated-all}
use red_monkey.Program.Reachable.{IsPosted, IsPosted-more}
use red_monkey.Program.Exclusive.{
  IsExclusive, IsGuarded, ReachExclusive, here, next, Reach-IsGuarded, start-IsGuarded,
}

module _ {T : Type 0} where
  -- No task stands twice.
  abbrev pub IsOnce : List (ℕ × HttpRequest T) → Type 0
  IsOnce [] = Unit
  IsOnce ((i, q) ∷ order) = (¬ Member i (map (λ p. p.0) order)) × IsOnce order

  -- The task has not been answered.
  abbrev pub IsOpen : Task T → Type 0
  IsOpen task = (reply : Reply T) → task ≢ replied reply

module _ {T : Type 0} (m : Matcher) where
  -- A fault is the body of a POST /fault request of the task, with the time of the request.
  abbrev pub IsPostedBy : List (ℕ × HttpRequest T) → ℕ → Fault T → Type 0
  IsPostedBy posted i fault =
      (q : HttpRequest T) × (info : Info) × (body : Fault T) × Member (i, q) posted
      × (dispatch m routes q.method q.path ≡ some (store_fault, info))
      × (q.body ≡ some body)
      × (fault ≡ stamp q.time body)

  -- What a task is about has arrived.
  abbrev pub Origin : List (ℕ × HttpRequest T) → ℕ → Task T → Type 0
  Origin posted i idle = Unit
  Origin posted i (waiting q) = Member (i, q) posted
  Origin posted i (checked fault) = IsPostedBy posted i fault
  Origin posted i (replied reply) = Unit

module _ {T : Type 0} (d : FaultStore T) where
  abbrev pub moved : ℕ → System d → Task T × d.Store → System d
  moved i y (task, s) = record y { store = s; tasks = updated y.tasks i task }

module _ {T : Type 0} (d : FaultStore T) (timestamp : T → ℤ) (m : Matcher) where
  -- Requests with the tasks that serve them, the latest first, served one after the other.
  unfoldable pub serial : List (ℕ × HttpRequest T) → d.Store → List (Reply T) × d.Store
  serial [] s = ([], s)
  serial ((i, q) ∷ order) s =
      let (replies, s') = serial order s in
      let (reply, s'') = serve_request d timestamp m q s' in (reply ∷ replies, s'')

  -- What a section comes to: nothing, a passed check, or a whole request at once.
  abbrev pub Checks : List (ℕ × HttpRequest T) → ℕ → d.Store → Task T × d.Store → Type 0
  Checks posted i s p = (fault : Fault T) × IsPostedBy m posted i fault × (p ≡ (checked fault, s))

  abbrev pub Serves : List (ℕ × HttpRequest T) → ℕ → d.Store → Task T × d.Store → Type 0
  Serves posted i s p =
      (q : HttpRequest T) × Member (i, q) posted × (p ≡ replies (serve_request d timestamp m q s))

  abbrev pub Comes : List (ℕ × HttpRequest T) → ℕ → d.Store → Task T × d.Store → Type 0
  Comes posted i s p = Checks posted i s p ⊎ Serves posted i s p

  -- The order has each answered task once, and no other; its requests have arrived; and served one
  -- after the other they give the replies of the tasks, and the store.
  pub record SerialAt (s s' : d.Store) (tasks : ℕ → Task T)
      (posted order : List (ℕ × HttpRequest T)) : Type 0 where
    pub once : IsOnce order
    pub listed :
        (i : ℕ) (reply : Reply T) → tasks i ≡ replied reply → Member i (map (λ p. p.0) order)
    pub arrived : All (λ p. Member p posted) order
    pub answers : map (λ p. tasks p.0) order ≡ map replied (serial order s).0
    pub store_left : s' ≡ (serial order s).1

  abbrev pub IsSerial : d.Store → System d → List (ℕ × HttpRequest T) → Type 0
  IsSerial s y order = SerialAt s y.store y.tasks y.posted order
