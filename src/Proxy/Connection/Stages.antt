-- ===== src/Proxy/Connection/Stages.antt =====
-- `handle` of proxy/connection.rs stage by stage: what is left of it once the request is read and
-- checked.
use red_monkey.Common.{Bytes, ◌≡◌, refl, ap, true, Option, none, some, List, [], Result, ok, err}
use red_monkey.Utf8.{is_utf8, from_utf8}
use red_monkey.Store.Fault.{Fault}
use red_monkey.Store.Interface.{FaultStore}
use red_monkey.Proxy.Error.{AnyError}
use red_monkey.Proxy.RespUtil.{Resp, UrlCrate}
use red_monkey.Proxy.Net.{client_next, Net, Trace}
use red_monkey.Proxy.Faulter.{RequestAction, check_fault, execute_fault}
use red_monkey.Proxy.Relay.{Poll}
use red_monkey.Proxy.Connection.{OriginServerConfig, handle, after_fault, relayed, request_bytes}

module _ {T : Type 0} (r : Resp) (u : UrlCrate) (d : FaultStore T) (config : OriginServerConfig)
    (net : Net) (body : Bytes) where
  -- What follows the execution of the fault, and the check.
  abbrev pub acted : Result AnyError RequestAction × Trace → Result AnyError (Option Bytes) × Trace
  acted (ok action, t) = after_fault r u d config net body action t
  acted (err e, t) = (err e, t)

  abbrev pub checked : Result AnyError (Option (Fault T)) → Result AnyError (Option Bytes) × Trace
  checked (ok fault) = acted (execute_fault net r fault [])
  checked (err e) = (err e, [])

  execute_acted :
      (p : Result AnyError RequestAction × Trace)
      → elim p.0 [ ok a ↦ after_fault r u d config net body a p.1 | err e ↦ (err e, p.1) ] ≡ acted p
  execute_acted (ok a, t) = refl
  execute_acted (err e, t) = refl

module _ {T : Type 0} (r : Resp) (u : UrlCrate) (d : FaultStore T) (config : OriginServerConfig)
    (net : Net) (s : d.Store) (response : Bytes) (schedule : List Poll) where
  pub handle-not_received :
      (e : AnyError)
      → request_bytes (client_next net) ≡ err e
      → handle r u d config net s response schedule
        ≡ record { result = some (err e); trace = []; relay = none }
  unfolding handle
  handle-not_received e h = simp h

module _ {T : Type 0} (r : Resp) (u : UrlCrate) (d : FaultStore T) (config : OriginServerConfig)
    (net : Net) (s : d.Store) (response : Bytes) (schedule : List Poll) (body : Bytes)
    (received : request_bytes (client_next net) ≡ ok body) (valid : is_utf8 body ≡ true) where
  -- A request in UTF-8 is checked as it is.
  pub handle-checked :
      (c : Result AnyError (Option (Fault T)))
      → check_fault r d s body ≡ c
      → handle r u d config net s response schedule
        ≡ relayed response schedule (checked r u d config net body c)
  unfolding handle from_utf8
  handle-checked (ok fault) c =
      simp (received, valid, c)
        (ap (relayed response schedule)
          (execute_acted r u d config net body (execute_fault net r fault [])))
  handle-checked (err e) c = simp (received, valid, c)
