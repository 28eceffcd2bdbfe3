-- ===== src/Program.antt =====
-- The program that main.rs starts: the fault configuration server and the proxy over one store. The
-- tasks of the server and the connections of the proxy run at once, and touch the store in sections
-- under its lock; the sections of all tasks interleave in any order.
pub mod Sections
pub mod Reachable
pub mod Clients
pub mod Exclusive
pub mod Serial
pub mod Stopping
pub mod Answers
pub mod Race
pub mod Promises
use red_monkey.Common.{
  ℕ, Bytes, ◌≡◌, Option, none, some, List, [], ◌∷◌, map, eqb, if◌then◌else◌, Result, ok, err,
}
use red_monkey.Common.Int.{ℤ}
use red_monkey.Store.Fault.{Fault}
use red_monkey.Store.Interface.{FaultStore}
use red_monkey.FaultConfigServer.Http.{ServerErrorResponse}
use red_monkey.FaultConfigServer.Handler.{stamp, store_fault_check, store_fault_write}
use red_monkey.FaultConfigServer.Server.{
  HttpRequest, Reply, responded, body_refused, respond, Matcher, Endpoint, store_fault, get_fault,
  get_all_faults, delete_fault, delete_all_faults, Info, call, dispatch, routes,
}
use red_monkey.Proxy.RespUtil.{Resp, UrlCrate}
use red_monkey.Proxy.Net.{Net}
use red_monkey.Proxy.Relay.{Poll}
use red_monkey.Proxy.Connection.{OriginServerConfig, Handled, handle}

-- Where a task of the HTTP server stands: not begun, before its first section, between the two
-- sections of a POST, or done.
pub data Task (T : Type 0) : Type 0 where
  idle : Task T
  waiting : HttpRequest T → Task T
  checked : Fault T → Task T
  replied : Reply T → Task T

-- A client of the proxy: its network, what the origin server would answer it, and how its relay is
-- polled.
pub record Client : Type 0 where
  pub net : Net
  pub response : Bytes
  pub schedule : List Poll

-- The loop of the proxy: it accepts clients; after a failed `accept`, it waits for ctrl-c alone; and
-- after ctrl-c it has returned.
pub data ProxyLoop : Type 0 where
  accepting waiting_for_ctrl_c returned : ProxyLoop

-- A family with a new value at an index.
abbrev pub updated {ℓ} : {A : Type ℓ} → (ℕ → A) → ℕ → A → ℕ → A
updated f i a j = if eqb i j then a else f j

module _ {T : Type 0} (d : FaultStore T) where
  -- `clients` has the accepted clients whose connection has not come to its check. `posted` has the
  -- requests that have arrived with their tasks, and `served` the clients of the proxy with what came
  -- of them, the latest first.
  pub record System : Type 0 where
    pub store : d.Store
    pub tasks : ℕ → Task T
    pub loop : ProxyLoop
    pub clients : ℕ → Option Client
    pub posted : List (ℕ × HttpRequest T)
    pub served : List (Client × Handled)

  abbrev pub requests : System → List (HttpRequest T)
  requests y = map (λ p. p.1) y.posted

  abbrev pub start : d.Store → System
  start s = record {
    store = s;
    tasks = λ i. idle;
    loop = accepting;
    clients = λ j. none;
    posted = [];
    served = [];
  }

module _ {T : Type 0} where
  abbrev pub replies {ℓ} : {S : Type ℓ} → Reply T × S → Task T × S
  replies (reply, s) = (replied reply, s)

  abbrev pub after_check : Fault T → Result ServerErrorResponse (Unit {0}) → Task T
  after_check fault (ok _) = checked fault
  after_check fault (err e) = replied (respond (err e))

module _ {T : Type 0} (d : FaultStore T) (timestamp : T → ℤ) (m : Matcher) where
  -- POST /fault up to the release of the read lock.
  abbrev pub check_post : T → Option (Fault T) → d.Store → Task T × d.Store
  check_post now none s = (replied body_refused, s)
  check_post now (some body) s =
      let fault = stamp now body in (after_check fault (store_fault_check d fault s), s)

  -- The first section of a request. That of any handler but `store_fault` is its only one.
  abbrev pub first_section : HttpRequest T → Option (Endpoint × Info) → d.Store → Task T × d.Store
  first_section q (some (store_fault, info)) s = check_post q.time q.body s
  first_section q (some (get_fault, info)) s =
      replies (call d timestamp q (some (get_fault, info)) s)
  first_section q (some (get_all_faults, info)) s =
      replies (call d timestamp q (some (get_all_faults, info)) s)
  first_section q (some (delete_fault, info)) s =
      replies (call d timestamp q (some (delete_fault, info)) s)
  first_section q (some (delete_all_faults, info)) s =
      replies (call d timestamp q (some (delete_all_faults, info)) s)
  first_section q none s = replies (call d timestamp q none s)

  -- The next section of a task.
  unfoldable pub section : Task T → d.Store → Task T × d.Store
  section idle s = (idle, s)
  section (waiting q) s = first_section q (dispatch m routes q.method q.path) s
  section (checked fault) s =
      let (answer, s') = store_fault_write d fault s in (replied (respond answer), s')
  section (replied reply) s = (replied reply, s)

  abbrev pub advanced : ℕ → System d → System d
  advanced i y =
      let (task, s') = section (y.tasks i) y.store in
      record y { store = s'; tasks = updated y.tasks i task }

  module _ (r : Resp) (u : UrlCrate) (config : OriginServerConfig) where
    -- What happens next. A connection reads the store once, in `check_fault`; the rest of `handle`
    -- does not touch the store, and so counts with that read.
    pub data Step (y : System d) : System d → Type 0 where
      arrive :
          (i : ℕ) (q : HttpRequest T)
          → y.tasks i ≡ idle
          → Step y (record y { tasks = updated y.tasks i (waiting q); posted = (i, q) ∷ y.posted })
      advance : (i : ℕ) → Step y (advanced i y)
      accept_client :
          (j : ℕ) (c : Client)
          → y.loop ≡ accepting
          → y.clients j ≡ none
          → Step y (record y { clients = updated y.clients j (some c) })
      accept_fails : y.loop ≡ accepting → Step y (record y { loop = waiting_for_ctrl_c })
      interrupt : Step y (record y { loop = returned })
      serve_client :
          (j : ℕ) (c : Client)
          → y.clients j ≡ some c
          → Step y (record y {
            clients = updated y.clients j none;
            served = (c, handle r u d config c.net y.store c.response c.schedule) ∷ y.served;
          })

    pub data Reach (y : System d) : System d → Type 0 where
      here : Reach y y
      next : {z w : System d} → Reach y z → Step z w → Reach y w
