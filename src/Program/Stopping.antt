-- ===== src/Program/Stopping.antt =====
-- The proxy of main.rs after its loop has stopped to accept clients.
use red_monkey.Common.{
  ℕ, ◌≡◌, ◌≢◌, sym, ap, ◌∙◌, ◌⊎◌, inl, inr, some, eqb, Bool-cases, Member, arith,
}
use red_monkey.Common.Int.{ℤ}
use red_monkey.Store.Interface.{FaultStore}
use red_monkey.FaultConfigServer.Server.{Matcher}
use red_monkey.Proxy.RespUtil.{Resp, UrlCrate}
use red_monkey.Proxy.Connection.{OriginServerConfig, Handled}
use red_monkey.Program.{
  Client, accepting, System, Step, arrive, advance, accept_client, accept_fails, interrupt,
  serve_client, Reach, here, next,
}

module _ {T : Type 0} (d : FaultStore T) (timestamp : T → ℤ) (m : Matcher) (r : Resp) (u : UrlCrate)
    (config : OriginServerConfig) where
  -- From `y` to `z`, only clients that were waiting have been served, and none has come to wait.
  record Stopped (y z : System d) : Type 0 where
    closed : z.loop ≢ accepting
    waiting : (j : ℕ) (client : Client) → z.clients j ≡ some client → y.clients j ≡ some client
    served_before :
        (client : Client) (handled : Handled)
        → Member (client, handled) z.served
        → Member (client, handled) y.served ⊎ ((j : ℕ) × (y.clients j ≡ some client))

  Step-Stopped : {x y z : System d} → Step d timestamp m r u config y z → Stopped x y → Stopped x z
  Step-Stopped (arrive i q e) v = record {
    closed = v.closed;
    waiting = v.waiting;
    served_before = v.served_before;
  }
  Step-Stopped (advance i) v = record {
    closed = v.closed;
    waiting = v.waiting;
    served_before = v.served_before;
  }
  Step-Stopped (accept_client j client e free) v = absurd (v.closed e)
  Step-Stopped (accept_fails e) v = absurd (v.closed e)
  Step-Stopped interrupt v = record {
    closed = λ e. cc;
    waiting = v.waiting;
    served_before = v.served_before;
  }
  Step-Stopped (serve_client j client e) v = record {
    closed = v.closed;
    waiting = λ k other at. elim (Bool-cases (eqb j k)) [
      | inl hit ↦ ground arith
      | inr miss ↦ v.waiting k other (ground arith)
    ];
    served_before = λ other handled at. elim at [
      | inl same ↦ inr (j, v.waiting j other (e ∙ ap some (sym (ap (λ p. p.0) same))))
      | inr earlier ↦ v.served_before other handled earlier
    ];
  }

  Reach-Stopped :
      {y z : System d} → Reach d timestamp m r u config y z → y.loop ≢ accepting → Stopped y z
  Reach-Stopped here closed = record {
    closed = closed;
    waiting = λ j client at. at;
    served_before = λ client handled at. inl at;
  }
  Reach-Stopped (next reached step) closed = Step-Stopped step (Reach-Stopped reached closed)

  -- The step by which `accept` fails, or by which ctrl-c comes.
  abbrev pub IsStop : {y z : System d} → Step d timestamp m r u config y z → Type 0
  IsStop (arrive i q e) = ⊥
  IsStop (advance i) = ⊥
  IsStop (accept_client j client e free) = ⊥
  IsStop (accept_fails e) = Unit
  IsStop interrupt = Unit
  IsStop (serve_client j client e) = ⊥

  -- Once `accept` has failed or ctrl-c has come, then in whatever follows only those clients are
  -- served that had been accepted before.
  pub served_before_stop :
      (x y z : System d) (client : Client) (handled : Handled)
      (stop : Step d timestamp m r u config x y)
      → IsStop stop
      → Reach d timestamp m r u config y z
      → Member (client, handled) z.served
      → Member (client, handled) x.served ⊎ ((j : ℕ) × (x.clients j ≡ some client))
  served_before_stop x y z client handled (accept_fails e) is reached at =
      (Reach-Stopped reached (λ q. cc)).served_before client handled at
  served_before_stop x y z client handled interrupt is reached at =
      (Reach-Stopped reached (λ q. cc)).served_before client handled at
  served_before_stop x y z client handled (arrive i q e) is reached at = absurd is
  served_before_stop x y z client handled (advance i) is reached at = absurd is
  served_before_stop x y z client handled (accept_client j k e free) is reached at = absurd is
  served_before_stop x y z client handled (serve_client j k e) is reached at = absurd is
