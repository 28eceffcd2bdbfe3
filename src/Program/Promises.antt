-- ===== src/Program/Promises.antt =====
-- The program of main.rs against the interface of its fault configuration server (`Api` of
-- FaultConfigServer).
use red_monkey.Common.{ℕ, Text, ◌≡◌, refl, sym, none, List, [], ◌∷◌, map, All, Member}
use mathlib.Core.Path.{subst}
use red_monkey.Common.Int.{ℤ}
use red_monkey.Store.Interface.{FaultStore, IsTable}
use red_monkey.FaultConfigServer.Api.{Table, Unchanged, Promised}
use red_monkey.FaultConfigServer.Api.Refinement.{serve_request-Promised}
use red_monkey.FaultConfigServer.Handler.Invariant.{IsValid, IsValid-empty}
use red_monkey.FaultConfigServer.Server.{
  HttpRequest, Reply, Matcher, dispatch, routes, serve_request,
}
use red_monkey.FaultConfigServer.Server.Safety.{call-Served}
use red_monkey.Proxy.RespUtil.{Resp, UrlCrate}
use red_monkey.Proxy.Connection.{OriginServerConfig}
use red_monkey.Program.{replied, System, start}
use red_monkey.Program.Exclusive.{ReachExclusive, here}
use red_monkey.Program.Serial.{serial, IsOnce}
use red_monkey.Program.Serial.Runs.{ReachExclusive-IsSerial}

module _ {T : Type 0} (timestamp : T → ℤ) (m : Matcher) where
  -- Requests and their replies, the latest first, lead from one table to another by the promises of
  -- the interface.
  abbrev pub PromisedAll : List (HttpRequest T) → List (Reply T) → Table T → Table T → Type 0
  PromisedAll [] [] table table' = Unchanged table table'
  PromisedAll [] (reply ∷ replies) table table' = ⊥
  PromisedAll (q ∷ requests) [] table table' = ⊥
  PromisedAll (q ∷ requests) (reply ∷ replies) table table' =
      (before : Table T) × PromisedAll requests replies table before
      × Promised timestamp q (dispatch m routes q.method q.path) before reply table'

module _ {T : Type 0} (d : FaultStore T) (c : IsTable d) (timestamp : T → ℤ) (m : Matcher) where
  serial-PromisedAll :
      (order : List (ℕ × HttpRequest T)) (s : d.Store)
      → IsValid (c.table s)
      → let (replies, s') = serial d timestamp m order s in
        PromisedAll timestamp m (map (λ p. p.1) order) replies (c.table s) (c.table s')
        × IsValid (c.table s')
  unfolding serial serve_request
  serial-PromisedAll [] s v = ((λ k. refl), v)
  serial-PromisedAll ((i, q) ∷ order) s v =
      let (kept, v') = serial-PromisedAll order s v in
      let (_, v'') =
        call-Served d c timestamp q (dispatch m routes q.method q.path)
          (serial d timestamp m order s).1 v' in
      (
        (
          c.table (serial d timestamp m order s).1,
          kept,
          serve_request-Promised d c timestamp m q (serial d timestamp m order s).1 v'.orderly,
        ),
        v'',
      )

  -- From a start with no faults, if at no moment two POSTs of one command are between their two
  -- sections: the tasks that have been answered have an order, each once, in which their requests,
  -- which have arrived, lead with the replies that the tasks have got from no faults to the table of
  -- now, each by what the interface promises for it.
  pub ReachExclusive-PromisedAll :
      (r : Resp) (u : UrlCrate) (config : OriginServerConfig) (s : d.Store)
      → ((k : Text) → c.table s k ≡ none)
      → (y : System d) → ReachExclusive d c timestamp m r u config (start d s) y
      → (order : List (ℕ × HttpRequest T)) × (replies : List (Reply T)) × IsOnce order
        × ((i : ℕ) (reply : Reply T) → y.tasks i ≡ replied reply → Member i (map (λ p. p.0) order))
        × All (λ p. Member p y.posted) order
        × (map (λ p. y.tasks p.0) order ≡ map replied replies)
        × PromisedAll timestamp m (map (λ p. p.1) order) replies (c.table s) (c.table y.store)
  ReachExclusive-PromisedAll r u config s empty y reached =
      let (order, _, v, _) =
        ReachExclusive-IsSerial d c timestamp m r u config s empty y y reached here in
      (
        order,
        (serial d timestamp m order s).0,
        v.once,
        v.listed,
        v.arrived,
        v.answers,
        subst
            (λ x.
              PromisedAll timestamp m (map (λ p. p.1) order) (serial d timestamp m order s).0
                (c.table s) (c.table x))
            (sym v.store_left) (serial-PromisedAll order s (IsValid-empty _ empty)).0,
      )
