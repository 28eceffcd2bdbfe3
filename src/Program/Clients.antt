-- ===== src/Program/Clients.antt =====
-- What the clients of the proxy of main.rs get, while requests change the store.
use red_monkey.Common.{
  Text, Bytes, ◌≡◌, ◌≢◌, sym, ◌∙◌, none, true, List, ◌∷◌, ok, ◌⊎◌, inl, inr, All, All-mono,
  All-Member, Member,
}
use mathlib.Core.Path.{subst}
use red_monkey.Common.Int.{ℤ}
use red_monkey.Store.Fault.{Fault, delay}
use red_monkey.Store.Interface.{FaultStore, IsTable}
use red_monkey.Store.HashMap.{HashMap}
use red_monkey.Store.Mem.{MemStore, mem_store, matches}
use red_monkey.Store.Mem.Table.{mem_store-IsTable}
use red_monkey.Store.Mem.Choice.{is_star}
use red_monkey.FaultConfigServer.Server.{HttpRequest, Matcher}
use red_monkey.Proxy.RespUtil.{Resp, UrlCrate, decode, fetch_redis_command}
use red_monkey.Proxy.Net.{client_next}
use red_monkey.Proxy.Faulter.Check.{Checked, check_fault-Checked}
use red_monkey.Proxy.Connection.{OriginServerConfig, Handled, handle, request_bytes}
use red_monkey.Proxy.Connection.Configured.{get-eq-table}
use red_monkey.Proxy.Connection.Touches.{HasActed, handle-Provoked}
use red_monkey.Program.{
  Client, System, requests, start, Step, arrive, advance, accept_client, accept_fails, interrupt,
  serve_client, Reach, here, next,
}
use red_monkey.Program.Reachable.{
  IsPosted, IsPosted-more, IsSourced, Reach-IsSourced, start-IsSourced,
}

module _ {T : Type 0} (unicode_lower : Text → Text) (h : HashMap (Fault T)) (timestamp : T → ℤ)
    (m : Matcher) (r : Resp) (u : UrlCrate) (config : OriginServerConfig) where
  abbrev db : FaultStore T
  db = mem_store unicode_lower h

  abbrev table : IsTable db
  table = mem_store-IsTable unicode_lower h

  -- The request of a client has a command, and a posted fault that is no delay is for the command,
  -- up to case, or for all commands.
  abbrev pub Configured : List (HttpRequest T) → Client → Type 0
  Configured requests client =
      (body : Bytes) × (v : r.Value) × (command : Text) × (fault : Fault T) × (request_bytes
          (client_next client.net)
        ≡ ok body)
      × (decode r body ≡ ok v)
      × (fetch_redis_command r v ≡ ok command)
      × (fault.fault_type ≢ delay)
      × ((matches unicode_lower command fault ≡ true) ⊎ (is_star fault ≡ true))
      × IsPosted m requests fault

  abbrev Explained : List (HttpRequest T) → Client × Handled → Type 0
  Explained requests (client, y) = HasActed y → Configured requests client

  Explained-more :
      (requests : List (HttpRequest T)) (q : HttpRequest T) (p : Client × Handled)
      → Explained requests p
      → Explained (q ∷ requests) p
  Explained-more requests q (client, y) x acted =
      let (body, v, command, fault, a1, a2, a3, a4, a5, posted) = x acted in
      (body, v, command, fault, a1, a2, a3, a4, a5, IsPosted-more m requests q fault posted)

  serve-Explained :
      (y : System db) (client : Client)
      → IsSourced db table timestamp m y
      → Explained
          (requests db y)
          (client, handle r u db config client.net y.store client.response client.schedule)
  serve-Explained y client w acted =
      let (body, fault, (received, valid, check, kind)) =
        handle-Provoked r u db config client.net y.store client.response client.schedule acted in
      let (v, command, decoded, named, ((k, stored), why)) =
        subst (Checked r unicode_lower h y.store body) check
          (check_fault-Checked r unicode_lower h y.store body) in
      let (_, posted) =
        w.stored k fault (sym (get-eq-table unicode_lower h table y.store k) ∙ stored) in
      (
        body,
        v,
        command,
        fault,
        received,
        decoded,
        named,
        kind,
        elim why [ inl own ↦ inl own | inr (star, others) ↦ inr star ],
        posted,
      )

  Step-Explained :
      {y z : System db}
      → Step db timestamp m r u config y z
      → IsSourced db table timestamp m y
      → All (Explained (requests db y)) y.served
      → All (Explained (requests db z)) z.served
  Step-Explained {y} (arrive i q e) w x = All-mono y.served (Explained-more (requests db y) q) x
  Step-Explained (advance i) w x = x
  Step-Explained (accept_client j client e free) w x = x
  Step-Explained (accept_fails e) w x = x
  Step-Explained interrupt w x = x
  Step-Explained {y} (serve_client j client e) w x = (serve-Explained y client w, x)

  Reach-Explained :
      {y z : System db}
      → Reach db timestamp m r u config y z
      → IsSourced db table timestamp m y
      → All (Explained (requests db y)) y.served
      → All (Explained (requests db z)) z.served
  Reach-Explained here w x = x
  Reach-Explained (next reached step) w x =
      Step-Explained step (Reach-IsSourced db table timestamp m r u config reached w)
        (Reach-Explained reached w x)

  -- From a start with no faults, at every moment: if `handle` has written to a client before the
  -- relay, or shut its write half down, or closed its connection by a return with success and no
  -- relay, then the client's request has a command, and a POST that has arrived has posted a fault
  -- that is no delay, for that command, up to case, or for all commands.
  pub Reach-Configured :
      (s : MemStore h)
      → ((k : Text) → h.get s.map k ≡ none)
      → (y : System db) → Reach db timestamp m r u config (start db s) y
      → (client : Client) (handled : Handled) → Member (client, handled) y.served
      → HasActed handled
      → Configured (requests db y) client
  Reach-Configured s empty y reached client handled served acted =
      let w =
        start-IsSourced db table timestamp m r u config s
          (λ k. sym (get-eq-table unicode_lower h table s k) ∙ empty k) in
      All-Member (Explained (requests db y)) (client, handled) y.served
        (Reach-Explained reached w tt) served acted
