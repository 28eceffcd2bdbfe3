-- ===== src/Startup/Tls.antt =====
-- The connection that `main` in main.rs configures.
use red_monkey.Common.{
  Text, Bytes, ◌≡◌, refl, sym, ap, ◌∙◌, Option, none, some, List, [], ◌∷◌, append-nil, Result, ok,
  err, arith, Result-cases, Option-cases, inl, inr,
}
use red_monkey.Store.Fault.{Fault}
use red_monkey.Store.Interface.{FaultStore}
use red_monkey.Proxy.Error.{AnyError}
use red_monkey.Proxy.RespUtil.{Resp, UrlCrate, get_host_name}
use red_monkey.Proxy.RespUtil.Laws.{get_host_name-parse_error}
use red_monkey.Proxy.Net.{Net, Trace, connected, handshake}
use red_monkey.Proxy.Faulter.Effects.{delays, execute_fault-Passes}
use red_monkey.Proxy.Relay.{Relay, Poll}
use red_monkey.Proxy.Connection.{
  OriginServerConfig, Handled, new_tls_stream, handle, create_server_stream, relayed,
}
use red_monkey.Proxy.Connection.Stages.{handle-checked}
use red_monkey.Proxy.Connection.Proxied.{handle-relay, Relayed}
use red_monkey.Startup.{Config, origin_server_config}

module _ (u : UrlCrate) (net : Net) (config : OriginServerConfig) where
  -- A TLS stream has made a handshake for the host name of the configured address.
  new_tls_stream-ok :
      (t t' : Trace) (x : Unit {0})
      → new_tls_stream u config net t ≡ (ok x, t')
      → (addr : Text) × (host : Text) × (get_host_name u config.server_addr ≡ ok host)
        × (t' ≡ handshake host ∷ connected addr ∷ t)
  unfolding new_tls_stream
  new_tls_stream-ok t t' x h = elim (Result-cases (net.to_socket_addrs config.server_addr)) [
    | inr (m, e) ↦ absurd (ground arith)
    | inl ([], e) ↦ absurd (ground arith)
    | inl (addr ∷ rest, e) ↦ elim (Result-cases (net.connect addr)) [
      | inr (m, c) ↦ absurd (ground arith)
      | inl (_, c) ↦ elim (Result-cases net.tls_build) [
        | inr (m, b) ↦ absurd (ground arith)
        | inl (_, b) ↦ elim (Result-cases (get_host_name u config.server_addr)) [
          | inr (m, g) ↦ absurd (ground arith)
          | inl (host, g) ↦ elim (Result-cases (net.tls_connect host)) [
            | inr (m, k) ↦ absurd (ground arith)
            | inl (_, k) ↦ (addr, host, g, ground arith)
          ]
        ]
      ]
    ]
  ]

module _ {T : Type 0} (r : Resp) (u : UrlCrate) (d : FaultStore T) (net : Net) (config : Config)
    (s : d.Store) (response : Bytes) (schedule : List Poll) where
  abbrev connection : Handled
  connection = handle r u d (origin_server_config config) net s response schedule

  abbrev streamed : Bytes → Result AnyError (Unit {0}) × Trace → Handled
  streamed body p =
      relayed response schedule (elim p.0 [ ok _ ↦ (ok (some body), p.1) | err e ↦ (err e, p.1) ])

  streamed-relay :
      (body : Bytes) (p : Result AnyError (Unit {0}) × Trace) (c : Relay)
      → (streamed body p).relay ≡ some c
      → (x : Unit {0}) × (p ≡ (ok x, (streamed body p).trace))
  streamed-relay body (ok x, t) c h = (x, refl)
  streamed-relay body (err e, t) c h = cc

  connection-streamed :
      (c : Relay) (body : Bytes) (fault : Option (Fault T))
      → Relayed r u d (origin_server_config config) net s response schedule body fault c
      → connection
        ≡ streamed body (create_server_stream u (origin_server_config config) net (delays fault))
  connection-streamed c body fault (received, valid, check, passes, _) = rw (
    handle-checked r u d (origin_server_config config) net s response schedule body received valid
        (ok fault) check,
    execute_fault-Passes r net fault [] passes,
    append-nil (delays fault),
  )

  -- With the configuration of `main`, every connection that reaches the relay has made a TLS
  -- handshake for the host name of the Redis address, whatever the value of `is_redis_tls_conn`.
  pub main-tls :
      (c : Relay)
      → connection.relay ≡ some c
      → (fault : Option (Fault T)) × (addr : Text) × (host : Text) × (get_host_name u
            config.redis_address
          ≡ ok host)
        × (connection.trace ≡ handshake host ∷ connected addr ∷ delays fault)
  unfolding create_server_stream origin_server_config
  main-tls c h =
      let (body, fault, x) =
        handle-relay r u d (origin_server_config config) net s response schedule c h in
      let e = connection-streamed c body fault x in
      let (y, stream) =
        streamed-relay body
          (create_server_stream u (origin_server_config config) net (delays fault)) c
          (sym (ap (λ (z : Handled). z.relay) e) ∙ h) in
      let (addr, host, g, t) =
        new_tls_stream-ok u net (origin_server_config config) (delays fault) _ y stream in
      (fault, addr, host, g, ap (λ (z : Handled). z.trace) e ∙ t)

  -- With the configuration of `main`, no request is ever relayed if the Redis address does not parse
  -- as a URL by itself, whatever is stored and whatever the network answers.
  pub main-unparsed_address :
      (message : Text) → u.parse config.redis_address ≡ err message → connection.relay ≡ none
  main-unparsed_address message e = elim (Option-cases connection.relay) [
    | inl n ↦ n
    | inr (c, h) ↦
        let (fault, addr, host, g, t) = main-tls c h in
        cc (g, get_host_name-parse_error u config.redis_address message e)
  ]
