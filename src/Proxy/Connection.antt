-- ===== src/Proxy/Connection.antt =====
-- proxy/connection.rs: the handling of one client connection, up to the relay that `Relay` models.
pub mod Stages
pub mod Safety
pub mod Proxied
pub mod Configured
pub mod Touches
pub mod Cuts
pub mod Fates
pub mod FirstChunk
use red_monkey.Common.{
  Text, Bytes, codes, Bool, true, false, Option, none, some, List, [], ◌∷◌, ◌++◌, Result, ok, err,
  if◌then◌else◌, is_some,
}
use red_monkey.Utf8.{from_utf8}
use red_monkey.Store.Fault.{Fault}
use red_monkey.Store.Interface.{FaultStore}
use red_monkey.Proxy.Error.{AnyError, utf8_error, io_error, other_error}
use red_monkey.Proxy.RespUtil.{Resp, UrlCrate, get_host_name}
use red_monkey.Proxy.Net.{
  client_next, Net, Exec, Trace, Event, pure, lift, io, tls, ◌>>=◌, ◌>>◌, emit, handshake,
  connect_to,
}
use red_monkey.Proxy.Faulter.{RequestAction, exit, fallthrough, check_fault, execute_fault}
use red_monkey.Proxy.Relay.{Relay, Poll, run, joined, open_relay}

pub record OriginServerConfig : Type 0 where
  pub server_addr : Text
  pub is_tls_conn : Bool

module _ (u : UrlCrate) (config : OriginServerConfig) (net : Net) where
  unfoldable pub new_tcp_stream : Exec (Unit {0})
  new_tcp_stream = connect_to net config.server_addr

  abbrev first_address : List Text → Exec Text
  first_address [] =
      lift
        (err (other_error (codes "error failed to resolve server address: " ++ config.server_addr)))
  first_address (addr ∷ rest) = pure addr

  unfoldable pub new_tls_stream : Exec (Unit {0})
  new_tls_stream = do
    addrs ← io (net.to_socket_addrs config.server_addr)
    server_addr ← first_address addrs
    connect_to net server_addr
    tls net.tls_build
    host_name ← lift (get_host_name u config.server_addr)
    tls (net.tls_connect host_name)
    emit (handshake host_name)

  unfoldable pub create_server_stream : Exec (Unit {0})
  unfolding new_tcp_stream new_tls_stream
  create_server_stream = if config.is_tls_conn then new_tls_stream else new_tcp_stream

-- The bytes of the first item of the client's stream; none, if the client has closed.
abbrev pub request_bytes : Option (Result Text Bytes) → Result AnyError Bytes
request_bytes none = ok []
request_bytes (some (ok bytes)) = ok bytes
request_bytes (some (err m)) = err (io_error m)

abbrev pub payload : Option Text → Result AnyError Text
payload none = err utf8_error
payload (some s) = ok s

-- How far a call of `handle` has come: its result, if it has returned, what it has done, and the
-- relay, if it has got there.
pub record Handled : Type 0 where
  pub result : Option (Result AnyError (Unit {0}))
  pub trace : Trace
  pub relay : Option Relay

-- `handle` owns the stream of the client, and drops it when it returns: the connection is then
-- closed, whatever the result.
abbrev pub is_closed : Handled → Bool
is_closed y = is_some y.result

abbrev pub relayed : Bytes → List Poll → Result AnyError (Option Bytes) × Trace → Handled
relayed response schedule (err e, t) = record { result = some (err e); trace = t; relay = none }
relayed response schedule (ok none, t) = record { result = some (ok tt); trace = t; relay = none }
relayed response schedule (ok (some request), t) =
    let c = run schedule (open_relay request response) in
    record { result = joined c; trace = t; relay = some c }

module _ {T : Type 0} (r : Resp) (u : UrlCrate) (d : FaultStore T) (config : OriginServerConfig)
    (net : Net) where
  abbrev pub after_fault : Bytes → RequestAction → Exec (Option Bytes)
  after_fault req_bytes exit = pure none
  after_fault req_bytes fallthrough = do create_server_stream u config net; pure (some req_bytes)

  -- `handle` up to the relay: the bytes to relay once the origin server is connected, or none where
  -- the fault has ended the request. The store is the one at the time of the check.
  unfoldable pub prepare : d.Store → Exec (Option Bytes)
  unfolding create_server_stream
  prepare s = do
    req_bytes ← lift (request_bytes (client_next net))
    req_payload_str ← lift (payload (from_utf8 req_bytes))
    fault ← lift (check_fault r d s req_payload_str)
    action ← execute_fault net r fault
    after_fault req_bytes action

  -- `Connection::handle`, for the bytes that the server answers and a schedule of the relay.
  unfoldable pub handle : d.Store → Bytes → List Poll → Handled
  unfolding prepare
  handle s response schedule = relayed response schedule (prepare s [])
