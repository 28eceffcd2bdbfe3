-- ===== src/Proxy/Connection/Touches.antt =====
-- `handle` of proxy/connection.rs: when it acts on the client by itself, and what it does where the
-- request goes on to the origin server and the connection to it may fail.
use red_monkey.Common.{
  Bytes, ◌≡◌, ◌≢◌, refl, ap, Bool, true, false, Bool-cases, Option, none, some, List, [],
  append-nil, Result, ok, err, arith, inl, inr, ◌⊎◌, All, All-Member, Member,
}
use mathlib.Core.Path.{subst}
use red_monkey.Utf8.{is_utf8}
use red_monkey.Store.Fault.{Fault, FaultVariants, delay, error, drop_conn}
use red_monkey.Store.Interface.{FaultStore}
use red_monkey.Proxy.Error.{AnyError, utf8_error}
use red_monkey.Proxy.RespUtil.{Resp, UrlCrate}
use red_monkey.Proxy.Net.{
  client_next, Net, Trace, Event, client_wrote, client_shut, slept, connected, handshake,
}
use red_monkey.Proxy.Faulter.{check_fault}
use red_monkey.Proxy.Faulter.Effects.{Passes, delays, execute_fault-Passes}
use red_monkey.Proxy.Relay.{Poll, run, joined, open_relay}
use red_monkey.Proxy.Connection.Stages.{handle-checked, handle-not_received}
use red_monkey.Proxy.Connection.Safety.{handle-not_utf8, handle-check_error}
use red_monkey.Proxy.Connection.{
  OriginServerConfig, Handled, handle, relayed, request_bytes, create_server_stream,
}

-- What is written to the client, and `shutdown` of its write half. The drop of its stream when
-- `handle` returns is no event: `is_closed` has it.
abbrev pub touches : Event → Bool
touches (client_wrote b) = true
touches client_shut = true
touches (slept ms) = false
touches (connected addr) = false
touches (handshake host) = false

abbrev pub IsUntouched : Trace → Type 0
IsUntouched = All (λ e. touches e ≡ false)

-- `handle` has acted on the client before a relay: it has written to it, or shut its write half
-- down, or returned with success, which closes the connection, without a relay.
abbrev pub HasActed : Handled → Type 0
HasActed y =
    ((e : Event) × Member e y.trace × (touches e ≡ true))
    ⊎ ((y.result ≡ some (ok tt)) × (y.relay ≡ none))

create_server_stream-IsUntouched :
    (u : UrlCrate) (config : OriginServerConfig) (net : Net) (t : Trace)
    → IsUntouched t
    → IsUntouched (create_server_stream u config net t).1
unfolding create_server_stream
create_server_stream-IsUntouched u config net t h = ground arith

delays-IsUntouched : {T : Type 0} (fault : Option (Fault T)) → IsUntouched (delays fault)
delays-IsUntouched none = tt
delays-IsUntouched (some fault) = ground arith

module _ (response : Bytes) (schedule : List Poll) (body : Bytes) where
  -- How a connection ends that has connected to the origin server, or failed to.
  abbrev pub Ends : Result AnyError (Unit {0}) × Trace → Handled → Type 0
  Ends (ok _, t) y =
      let c = run schedule (open_relay body response) in
      y ≡ record { result = joined c; trace = t; relay = some c }
  Ends (err e, t) y = y ≡ record { result = some (err e); trace = t; relay = none }

  relayed-Ends :
      (p : Result AnyError (Unit {0}) × Trace)
      → Ends p (
          relayed response schedule
            (elim p.0 [ ok _ ↦ (ok (some body), p.1) | err e ↦ (err e, p.1) ]))
  relayed-Ends (ok x, t) = refl
  relayed-Ends (err e, t) = refl

  trace-Ends : (p : Result AnyError (Unit {0}) × Trace) (y : Handled) → Ends p y → y.trace ≡ p.1
  trace-Ends (ok x, t) y h = ap (λ (z : Handled). z.trace) h
  trace-Ends (err e, t) y h = ap (λ (z : Handled). z.trace) h

module _ {T : Type 0} (r : Resp) (u : UrlCrate) (d : FaultStore T) (config : OriginServerConfig)
    (net : Net) (s : d.Store) (response : Bytes) (schedule : List Poll) where
  module _ (body : Bytes) (fault : Option (Fault T))
      (received : request_bytes (client_next net) ≡ ok body) (valid : is_utf8 body ≡ true)
      (check : check_fault r d s body ≡ ok fault) (passes : Passes fault) where
    stream-Ends :
        Ends response schedule body
          (create_server_stream u config net (delays fault))
          (handle r u d config net s response schedule)
    stream-Ends =
        rw
          (
            handle-checked r u d config net s response schedule body received valid (ok fault)
                check,
            execute_fault-Passes r net fault [] passes,
            append-nil (delays fault),
          )
          (relayed-Ends response schedule body (create_server_stream u config net (delays fault)))

    -- If the payload is UTF-8 and the check chooses no fault or a delay fault, `handle` writes nothing
    -- to the client before the relay and does not shut its connection. It goes on, after the delay, to
    -- connect to the origin server: if that fails, in any of its steps, `handle` returns its error and
    -- nothing is relayed; if not, the payload is relayed, and the result is that of the relay.
    pub handle-Ends :
        let y = handle r u d config net s response schedule in
        IsUntouched y.trace
        × Ends response schedule body (create_server_stream u config net (delays fault)) y
    handle-Ends = (
      rw
          (trace-Ends response schedule body (create_server_stream u config net (delays fault)) _
            stream-Ends)
          (create_server_stream-IsUntouched u config net (delays fault) (delays-IsUntouched fault)),
      stream-Ends,
    )

  -- Why `handle` may act on the client.
  abbrev pub Provoked : Bytes → Fault T → Type 0
  Provoked body fault =
      (request_bytes (client_next net) ≡ ok body)
      × (is_utf8 body ≡ true)
      × (check_fault r d s body ≡ ok (some fault))
      × (fault.fault_type ≢ delay)

  failed-HasActed :
      (y : Handled) (e : AnyError)
      → y ≡ record { result = some (err e); trace = []; relay = none }
      → ¬ HasActed y
  failed-HasActed y e same (inl (event, m, t)) =
      subst (λ (z : Handled). Member event z.trace) same m
  failed-HasActed y e same (inr (done, none_left)) = cc (ap (λ (z : Handled). z.result) same, done)

  Ends-HasActed :
      (body : Bytes) (p : Result AnyError (Unit {0}) × Trace) (y : Handled)
      → IsUntouched y.trace
      → Ends response schedule body p y
      → ¬ HasActed y
  Ends-HasActed body p y h ends (inl (e, m, t)) = cc (All-Member _ e y.trace h m, t)
  Ends-HasActed body (ok x, t) y h ends (inr (done, no_relay)) =
      cc (ap (λ (z : Handled). z.relay) ends, no_relay)
  Ends-HasActed body (err e, t) y h ends (inr (done, no_relay)) =
      cc (ap (λ (z : Handled). z.result) ends, done)

  passed-HasActed :
      (body : Bytes) (fault : Option (Fault T))
      → request_bytes (client_next net) ≡ ok body
      → is_utf8 body ≡ true
      → check_fault r d s body ≡ ok fault
      → Passes fault
      → ¬ HasActed (handle r u d config net s response schedule)
  passed-HasActed body fault received valid check passes =
      let (untouched, ends) = handle-Ends body fault received valid check passes in
      Ends-HasActed body (create_server_stream u config net (delays fault)) _ untouched ends

  module _ (body : Bytes) (received : request_bytes (client_next net) ≡ ok body)
      (valid : is_utf8 body ≡ true) where
    acted-Provoked_type :
        (fault : Fault T) (v : FaultVariants)
        → fault.fault_type ≡ v
        → check_fault r d s body ≡ ok (some fault)
        → HasActed (handle r u d config net s response schedule)
        → Provoked body fault
    acted-Provoked_type fault delay e check t =
        absurd (passed-HasActed body (some fault) received valid check e t)
    acted-Provoked_type fault error e check t = (received, valid, check, λ x. cc (e, x))
    acted-Provoked_type fault drop_conn e check t = (received, valid, check, λ x. cc (e, x))

    acted-Provoked_check :
        (c : Result AnyError (Option (Fault T)))
        → check_fault r d s body ≡ c
        → HasActed (handle r u d config net s response schedule)
        → (fault : Fault T) × Provoked body fault
    acted-Provoked_check (ok (some fault)) check t =
        (fault, acted-Provoked_type fault fault.fault_type refl check t)
    acted-Provoked_check (ok none) check t =
        absurd (passed-HasActed body none received valid check tt t)
    acted-Provoked_check (err e) check t = absurd (
        failed-HasActed _ e
          (handle-check_error r u d config net s response schedule body e received valid check) t)

  acted-Provoked_received :
      (q : Result AnyError Bytes)
      → request_bytes (client_next net) ≡ q
      → HasActed (handle r u d config net s response schedule)
      → (body : Bytes) × (fault : Fault T) × Provoked body fault
  acted-Provoked_received (err e) q t =
      absurd (failed-HasActed _ e (handle-not_received r u d config net s response schedule e q) t)
  acted-Provoked_received (ok body) q t = elim (Bool-cases (is_utf8 body)) [
    | inl valid ↦
        let (fault, p) = acted-Provoked_check body q valid (check_fault r d s body) refl t in
        (body, fault, p)
    | inr bad ↦ absurd (
        failed-HasActed _ utf8_error
          (handle-not_utf8 r u d config net s response schedule body q bad) t)
  ]

  -- `handle` writes to the client before the relay, or shuts its write half down, or closes its
  -- connection by a return with success and no relay, only for a request in UTF-8 for which the
  -- check chooses a fault that is no delay.
  pub handle-Provoked :
      HasActed (handle r u d config net s response schedule)
      → (body : Bytes) × (fault : Fault T) × Provoked body fault
  handle-Provoked = acted-Provoked_received (request_bytes (client_next net)) refl
