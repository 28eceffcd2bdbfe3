-- ===== src/Program/Serial/Reads.antt =====
-- What the connections of the proxy of main.rs read from the store, against a server that serves its
-- requests one after the other.
use red_monkey.Common.{
  ℕ, ◌≡◌, refl, ap, sym, List, [], ◌++◌, ◌∷◌, append_assoc, All, All-mono, none, Text,
}
use mathlib.Core.Path.{subst}
use red_monkey.Common.Int.{ℤ}
use red_monkey.Store.Interface.{FaultStore, IsTable}
use red_monkey.FaultConfigServer.Server.{HttpRequest, Matcher}
use red_monkey.Proxy.RespUtil.{Resp, UrlCrate}
use red_monkey.Proxy.Connection.{OriginServerConfig, Handled, handle}
use red_monkey.Program.{
  Client, System, start, Step, arrive, advance, accept_client, accept_fails, interrupt,
  serve_client,
}
use red_monkey.Program.Exclusive.{
  IsGuarded, ReachExclusive, here, next, Reach-IsGuarded, start-IsGuarded,
}
use red_monkey.Program.Serial.{serial, IsSerial}
use red_monkey.Program.Serial.Runs.{Ordered, Step-Extended, start-Ordered}

module _ {T : Type 0} (d : FaultStore T) (c : IsTable d) (timestamp : T → ℤ) (m : Matcher)
    (r : Resp) (u : UrlCrate) (config : OriginServerConfig) where
  -- The connection went as it does on the store that the earlier requests of the order leave.
  abbrev pub Saw : d.Store → List (ℕ × HttpRequest T) → Client × Handled → Type 0
  Saw s order (client, y) =
      (later earlier : List (ℕ × HttpRequest T)) × (order ≡ later ++ earlier)
      × (y
          ≡ handle r u d config client.net (serial d timestamp m earlier s).1 client.response
              client.schedule)

  Saw-more :
      (s : d.Store) (more order : List (ℕ × HttpRequest T)) (p : Client × Handled)
      → Saw s order p
      → Saw s (more ++ order) p
  Saw-more s more order (client, y) (later, earlier, e, seen) =
      (more ++ later, earlier, rw e (sym (append_assoc more later earlier)), seen)

  Step-Saw :
      (s : d.Store) {y z : System d} (order more : List (ℕ × HttpRequest T))
      → Step d timestamp m r u config y z
      → IsSerial d timestamp m s y order
      → All (Saw s order) y.served
      → All (Saw s (more ++ order)) z.served
  Step-Saw s {y} order more (arrive i q e) v seen = All-mono y.served (Saw-more s more order) seen
  Step-Saw s {y} order more (advance i) v seen = All-mono y.served (Saw-more s more order) seen
  Step-Saw s {y} order more (accept_client j client e free) v seen =
      All-mono y.served (Saw-more s more order) seen
  Step-Saw s {y} order more (accept_fails e) v seen = All-mono y.served (Saw-more s more order) seen
  Step-Saw s {y} order more interrupt v seen = All-mono y.served (Saw-more s more order) seen
  Step-Saw s {y} order more (serve_client j client e) v seen = (
    (
      more,
      order,
      refl,
      ap (λ x. handle r u d config client.net x client.response client.schedule) v.store_left,
    ),
    All-mono y.served (Saw-more s more order) seen,
  )

  Reach-Saw :
      (s : d.Store) {y : System d}
      → ReachExclusive d c timestamp m r u config (start d s) y
      → IsGuarded d c timestamp m (start d s)
      → (order : List (ℕ × HttpRequest T)) × Ordered d c timestamp m s y order
        × All (Saw s order) y.served
  Reach-Saw s here guarded = ([], start-Ordered d c timestamp m r u config s, tt)
  Reach-Saw s (next reached one step) guarded =
      let (order, o, seen) = Reach-Saw s reached guarded in
      let (more, o') =
        Step-Extended d c timestamp m r u config s order step
          (Reach-IsGuarded d c timestamp m r u config reached guarded) o in
      (more ++ order, o', Step-Saw s order more step o.0 seen)

  -- From a start with no faults, if at no moment two POSTs of one command are between their two
  -- sections: the tasks that have been answered have an order, in which their requests, served one
  -- after the other from the start, get the replies that the tasks have got, and leave the store as
  -- it is; and the connection of each client that has been served has gone as it does on the store
  -- that the requests of a beginning of that order leave.
  pub ReachExclusive-Saw :
      (s : d.Store)
      → ((k : Text) → c.table s k ≡ none)
      → (y : System d) → ReachExclusive d c timestamp m r u config (start d s) y
      → (order : List (ℕ × HttpRequest T)) × IsSerial d timestamp m s y order
        × All (Saw s order) y.served
  ReachExclusive-Saw s empty y reached =
      let (order, o, seen) =
        Reach-Saw s reached (start-IsGuarded d c timestamp m r u config s empty) in
      (order, o.0, seen)

  -- The connection went as it does on the store that the requests of an order leave, with some of
  -- those that were answered since.
  abbrev pub SawSince :
      d.Store → List (ℕ × HttpRequest T) → List (ℕ × HttpRequest T) → Client × Handled → Type 0
  SawSince s order more (client, y) =
      (later earlier : List (ℕ × HttpRequest T)) × (more ≡ later ++ earlier)
      × (y
          ≡ handle r u d config client.net (serial d timestamp m (earlier ++ order) s).1
              client.response client.schedule)

  SawSince-more :
      (s : d.Store) (order last more : List (ℕ × HttpRequest T)) (p : Client × Handled)
      → SawSince s order more p
      → SawSince s order (last ++ more) p
  SawSince-more s order last more (client, y) (later, earlier, e, seen) =
      (last ++ later, earlier, rw e (sym (append_assoc last later earlier)), seen)

  -- The clients that are served from `y` to `z` are those of `since`.
  abbrev ServedSince :
      d.Store → System d → List (ℕ × HttpRequest T) → List (ℕ × HttpRequest T) → System d → Type 0
  ServedSince s y order more z =
      (since : List (Client × Handled)) × (z.served ≡ since ++ y.served)
      × All (SawSince s order more) since

  Step-ServedSince :
      (s : d.Store) (y : System d) {x z : System d} (order last more : List (ℕ × HttpRequest T))
      → Step d timestamp m r u config x z
      → IsSerial d timestamp m s x (more ++ order)
      → ServedSince s y order more x
      → ServedSince s y order (last ++ more) z
  Step-ServedSince s y {x} order last more (serve_client j client e) v (since, same, seen) = (
    (client, handle r u d config client.net x.store client.response client.schedule) ∷ since,
    rw same refl,
    (
      (
        last,
        more,
        refl,
        ap (λ k. handle r u d config client.net k client.response client.schedule) v.store_left,
      ),
      All-mono since (SawSince-more s order last more) seen,
    ),
  )
  Step-ServedSince s y order last more (arrive i q e) v (since, same, seen) =
      (since, same, All-mono since (SawSince-more s order last more) seen)
  Step-ServedSince s y order last more (advance i) v (since, same, seen) =
      (since, same, All-mono since (SawSince-more s order last more) seen)
  Step-ServedSince s y order last more (accept_client j client e free) v (since, same, seen) =
      (since, same, All-mono since (SawSince-more s order last more) seen)
  Step-ServedSince s y order last more (accept_fails e) v (since, same, seen) =
      (since, same, All-mono since (SawSince-more s order last more) seen)
  Step-ServedSince s y order last more interrupt v (since, same, seen) =
      (since, same, All-mono since (SawSince-more s order last more) seen)

  Reach-ServedSince :
      (s : d.Store) {y z : System d} (order : List (ℕ × HttpRequest T))
      → ReachExclusive d c timestamp m r u config y z
      → IsGuarded d c timestamp m y
      → Ordered d c timestamp m s y order
      → (more : List (ℕ × HttpRequest T)) × Ordered d c timestamp m s z (more ++ order)
        × ServedSince s y order more z
  Reach-ServedSince s order here guarded o = ([], o, ([], refl, tt))
  Reach-ServedSince s {y} {z} order (next reached one step) guarded o =
      let (more, o', (since, same, seen)) = Reach-ServedSince s order reached guarded o in
      let (last, o'') =
        Step-Extended d c timestamp m r u config s (more ++ order) step
          (Reach-IsGuarded d c timestamp m r u config reached guarded) o' in
      let (since', same', seen') =
        Step-ServedSince s y order last more step o'.0 (since, same, seen) in
      (
        last ++ more,
        subst (λ l. Ordered d c timestamp m s z l) (sym (append_assoc last more order)) o'',
        (since', same', seen'),
      )

  -- From a start with no faults, if at no moment two POSTs of one command are between their two
  -- sections: the tasks that have been answered at a moment have an order, in which their requests,
  -- served one after the other from the start, get the replies that the tasks have got, and leave
  -- the store as it is, and each client that has been served has seen the store that a beginning of
  -- that order leaves; and at any later moment the tasks that have been answered since come after
  -- these in such an order, and each client that has been served since has seen the store that these
  -- leave with a beginning of those that came after.
  pub ReachExclusive-SawSince :
      (s : d.Store)
      → ((k : Text) → c.table s k ≡ none)
      → (y z : System d) → ReachExclusive d c timestamp m r u config (start d s) y
      → ReachExclusive d c timestamp m r u config y z
      → (order more : List (ℕ × HttpRequest T)) × (since : List (Client × Handled)) × IsSerial d
          timestamp m s y order
        × All (Saw s order) y.served
        × IsSerial d timestamp m s z (more ++ order)
        × (z.served ≡ since ++ y.served)
        × All (SawSince s order more) since
  ReachExclusive-SawSince s empty y z reached later =
      let guarded = start-IsGuarded d c timestamp m r u config s empty in
      let (order, o, seen) = Reach-Saw s reached guarded in
      let (more, o', (since, same, seen')) =
        Reach-ServedSince s order later (Reach-IsGuarded d c timestamp m r u config reached guarded)
          o in
      (order, more, since, o.0, seen, o'.0, same, seen')
