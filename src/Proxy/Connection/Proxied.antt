-- ===== src/Proxy/Connection/Proxied.antt =====
-- `handle` of proxy/connection.rs where it reaches the origin server, and what is relayed.
use red_monkey.Common.{
  Text, Bytes, ◌≡◌, refl, sym, ap, ◌∙◌, true, false, Bool-cases, Option, some, List, [], ◌∷◌,
  append-nil, Result, ok, err, arith, inl, inr,
}
use red_monkey.Utf8.{is_utf8}
use red_monkey.Store.Fault.{Fault}
use red_monkey.Store.Interface.{FaultStore}
use red_monkey.Proxy.Error.{AnyError}
use red_monkey.Proxy.RespUtil.{Resp, UrlCrate, get_host_name}
use red_monkey.Proxy.Net.{client_next, Net, Trace, connected, handshake}
use red_monkey.Proxy.Faulter.{RequestAction, exit, fallthrough, check_fault, execute_fault}
use red_monkey.Proxy.Faulter.Effects.{
  Passes, delays, execute_fault-Passes, execute_fault-fallthrough_iff,
}
use red_monkey.Proxy.Relay.{Relay, Poll, run, joined, open_relay}
use red_monkey.Proxy.Connection.Stages.{handle-checked, handle-not_received, acted, checked}
use red_monkey.Proxy.Connection.Safety.{handle-not_utf8}
use red_monkey.Proxy.Connection.{
  OriginServerConfig, Handled, handle, relayed, request_bytes, create_server_stream,
}

module _ {T : Type 0} (r : Resp) (u : UrlCrate) (d : FaultStore T) (config : OriginServerConfig)
    (net : Net) (s : d.Store) (response : Bytes) (schedule : List Poll) where
  -- What a relay rests on.
  abbrev pub Relayed : Bytes → Option (Fault T) → Relay → Type 0
  Relayed body fault c =
      (request_bytes (client_next net) ≡ ok body)
      × (is_utf8 body ≡ true)
      × (check_fault r d s body ≡ ok fault)
      × Passes fault
      × (c ≡ run schedule (open_relay body response))

  module _ (body : Bytes) where
    streamed :
        (p : Result AnyError (Unit {0}) × Trace) (c : Relay)
        → (relayed response schedule
            (elim p.0 [ ok _ ↦ (ok (some body), p.1) | err e ↦ (err e, p.1) ])).relay
          ≡ some c
        → c ≡ run schedule (open_relay body response)
    streamed (ok x, t) c h = cc
    streamed (err e, t) c h = cc

    relayed-acted :
        (p : Result AnyError RequestAction × Trace) (c : Relay)
        → (relayed response schedule (acted r u d config net body p)).relay ≡ some c
        → (p.0 ≡ ok fallthrough) × (c ≡ run schedule (open_relay body response))
    relayed-acted (err e, t) c h = cc
    relayed-acted (ok exit, t) c h = cc
    relayed-acted (ok fallthrough, t) c h =
        (refl, streamed (create_server_stream u config net t) c h)

    relayed-checked :
        (checked_fault : Result AnyError (Option (Fault T))) (c : Relay)
        → request_bytes (client_next net) ≡ ok body
        → is_utf8 body ≡ true
        → check_fault r d s body ≡ checked_fault
        → (relayed response schedule (checked r u d config net body checked_fault)).relay ≡ some c
        → (fault : Option (Fault T)) × Relayed body fault c
    relayed-checked (err e) c received valid e' h = cc
    relayed-checked (ok fault) c received valid e h =
        let (went_on, relay) = relayed-acted (execute_fault net r fault []) c h in
        (
          fault,
          (received, valid, e, (execute_fault-fallthrough_iff r net fault []).0 went_on, relay),
        )

    relay-Relayed_body :
        (c : Relay)
        → request_bytes (client_next net) ≡ ok body
        → (handle r u d config net s response schedule).relay ≡ some c
        → (fault : Option (Fault T)) × Relayed body fault c
    relay-Relayed_body c received h = elim (Bool-cases (is_utf8 body)) [
      | inl valid ↦ relayed-checked (check_fault r d s body) c received valid refl (
          sym (
            ap (λ (y : Handled). y.relay)
              (handle-checked r u d config net s response schedule body received valid _ refl))
          ∙ h)
      | inr bad ↦ cc (
        h,
        ap (λ (y : Handled). y.relay)
            (handle-not_utf8 r u d config net s response schedule body received bad),
      )
    ]

  -- A connection comes to the relay only for a request in UTF-8 that has a command and meets no
  -- fault or a delay fault; what is relayed is then the request as it was received.
  pub handle-relay :
      (c : Relay)
      → (handle r u d config net s response schedule).relay ≡ some c
      → (body : Bytes) × (fault : Option (Fault T)) × Relayed body fault c
  handle-relay c h = by_request (request_bytes (client_next net)) refl
    where
      by_request :
          (q : Result AnyError Bytes)
          → request_bytes (client_next net) ≡ q
          → (body : Bytes) × (fault : Option (Fault T)) × Relayed body fault c
      by_request (ok body) e = let (fault, x) = relay-Relayed_body body c e h in (body, fault, x)
      by_request (err m) e = cc (
        h,
        ap (λ (y : Handled). y.relay)
            (handle-not_received r u d config net s response schedule m e),
      )

  module _ (body : Bytes) (fault : Option (Fault T))
      (received : request_bytes (client_next net) ≡ ok body) (valid : is_utf8 body ≡ true)
      (check : check_fault r d s body ≡ ok fault) (passes : Passes fault) where
    abbrev Proxies : Trace → Type 0
    Proxies t =
        let c = run schedule (open_relay body response) in
        handle r u d config net s response schedule
        ≡ record { result = joined c; trace = t; relay = some c }

    streamed_result :
        (p : Result AnyError (Unit {0}) × Trace) {t : Trace}
        → p ≡ (ok tt, t)
        → relayed response schedule
            (elim p.0 [ ok _ ↦ (ok (some body), p.1) | err e ↦ (err e, p.1) ])
          ≡ (let c = run schedule (open_relay body response) in
              record { result = joined c; trace = t; relay = some c })
    streamed_result (ok x, q) e = ground (arith, e)
    streamed_result (err m, q) e = cc

    handle-stream :
        (t : Trace) → create_server_stream u config net (delays fault) ≡ (ok tt, t) → Proxies t
    handle-stream t e =
        rw
          (
            handle-checked r u d config net s response schedule body received valid (ok fault)
                check,
            execute_fault-Passes r net fault [] passes,
            append-nil (delays fault),
          )
          (streamed_result (create_server_stream u config net (delays fault)) e)

    -- Without TLS: if the payload is UTF-8, the check chooses no fault or a delay fault, and the
    -- configured address can be connected to, the payload is relayed over that connection, made after
    -- the delay; the result is that of the relay.
    pub handle-tcp :
        config.is_tls_conn ≡ false
        → net.connect config.server_addr ≡ ok tt
        → Proxies (connected config.server_addr ∷ delays fault)
    handle-tcp plain c = handle-stream _ (unfold create_server_stream in rw (plain, c))

    -- With TLS: if the payload is UTF-8, the check chooses no fault or a delay fault, and resolving,
    -- connecting and the handshake succeed, the payload is relayed, after the delay, over a connection
    -- to the first resolved address with a handshake for the host name of the configured address; the
    -- result is that of the relay.
    pub handle-tls :
        (addr : Text) (rest : List Text) (host : Text)
        → config.is_tls_conn ≡ true
        → net.to_socket_addrs config.server_addr ≡ ok (addr ∷ rest)
        → net.connect addr ≡ ok tt
        → net.tls_build ≡ ok tt
        → get_host_name u config.server_addr ≡ ok host
        → net.tls_connect host ≡ ok tt
        → Proxies (handshake host ∷ connected addr ∷ delays fault)
    handle-tls addr rest host secure resolves c b g h =
        handle-stream _ (unfold create_server_stream in rw (secure, resolves, c, b, g, h))
