-- ===== src/Proxy/Connection/Fates.antt =====
-- What becomes of a client of the proxy: `Connection::handle` in proxy/connection.rs over the
-- in-memory store, in every case.
use red_monkey.Common.{
  Text, Bytes, ◌≡◌, ◌≢◌, refl, true, false, Option, none, some, List, [], ◌⊎◌, inl, inr, Bool-cases,
  Result, ok, err,
}
use red_monkey.Utf8.{is_utf8}
use red_monkey.Store.Fault.{Fault, FaultVariants, delay, error, drop_conn}
use red_monkey.Store.HashMap.{HashMap}
use red_monkey.Store.Interface.{FaultStore}
use red_monkey.Store.Mem.{MemStore, mem_store}
use red_monkey.Proxy.Error.{AnyError, utf8_error}
use red_monkey.Proxy.RespUtil.{Resp, UrlCrate}
use red_monkey.Proxy.Net.{Net, client_next}
use red_monkey.Proxy.Faulter.{check_fault}
use red_monkey.Proxy.Faulter.Check.{Checked, check_fault-Checked}
use red_monkey.Proxy.Faulter.Effects.{Passes, delays}
use red_monkey.Proxy.Relay.{Poll}
use red_monkey.Proxy.Connection.{
  OriginServerConfig, Handled, is_closed, handle, request_bytes, create_server_stream,
}
use red_monkey.Proxy.Connection.Safety.{handle-not_utf8, handle-check_error}
use red_monkey.Proxy.Connection.Stages.{handle-not_received}
use red_monkey.Proxy.Connection.Cuts.{IsCut, variant_reply, handle-IsCut}
use red_monkey.Proxy.Connection.Touches.{IsUntouched, Ends, handle-Ends}

module _ {T : Type 0} (r : Resp) (u : UrlCrate) (unicode_lower : Text → Text)
    (h : HashMap (Fault T)) (config : OriginServerConfig) (net : Net) (m : MemStore h)
    (response : Bytes) (schedule : List Poll) where
  abbrev db : FaultStore T
  db = mem_store unicode_lower h

  -- The request is received and is text, and the check finds this for it.
  abbrev pub Finds : Bytes → Result AnyError (Option (Fault T)) → Type 0
  Finds body found =
      (request_bytes (client_next net) ≡ ok body)
      × (is_utf8 body ≡ true)
      × Checked r unicode_lower h m body found

  -- The request cannot be read, or is no text, or has no command.
  abbrev pub IsRefused : Handled → Type 0
  IsRefused y =
      (e : AnyError) × (y ≡ record { result = some (err e); trace = []; relay = none })
      × ((request_bytes (client_next net) ≡ err e)
          ⊎ ((body : Bytes) × (((request_bytes (client_next net) ≡ ok body)
                  × (is_utf8 body ≡ false)
                  × (e ≡ utf8_error))
                ⊎ Finds body (err e))))

  -- A fault for the request is no delay, and ends it.
  abbrev pub IsEnded : Handled → Type 0
  IsEnded y =
      (body : Bytes) × (fault : Fault T) × Finds body (ok (some fault))
      × (fault.fault_type ≢ delay)
      × (y.relay ≡ none)
      × (is_closed y ≡ true)
      × IsCut (variant_reply fault.fault_type fault.error_msg) y.trace

  -- No fault or a delay is for the request, and it goes on to the origin server.
  abbrev pub IsProxied : Handled → Type 0
  IsProxied y =
      (body : Bytes) × (fault : Option (Fault T)) × Finds body (ok fault)
      × Passes fault
      × IsUntouched y.trace
      × Ends response schedule body (create_server_stream u config net (delays fault)) y

  abbrev pub Fate : Handled → Type 0
  Fate y = IsRefused y ⊎ (IsEnded y ⊎ IsProxied y)

  abbrev pub Readable : Type 0
  Readable =
      (k : Text) (f : Fault T) (message : Text)
      → h.get m.map k ≡ some f
      → f.error_msg ≡ some message
      → is_utf8 message ≡ true

  module _ (readable : Readable) where
    module _ (body : Bytes) (received : request_bytes (client_next net) ≡ ok body)
        (valid : is_utf8 body ≡ true) where
      ended-Fate :
          (fault : Fault T)
          → fault.fault_type ≢ delay
          → check_fault r db m body ≡ ok (some fault)
          → Checked r unicode_lower h m body (ok (some fault))
          → Fate (handle r u db config net m response schedule)
      ended-Fate fault ends check found =
          let (_, _, _, _, ((k, at), _)) = found in
          let (no_relay, closed, cut) =
            handle-IsCut r u db config net m response schedule body fault received valid check ends
              (λ message e. readable k fault message at e) in
          inr (inl (body, fault, (received, valid, found), ends, no_relay, closed, cut))

      proxied-Fate :
          (fault : Option (Fault T))
          → Passes fault
          → check_fault r db m body ≡ ok fault
          → Checked r unicode_lower h m body (ok fault)
          → Fate (handle r u db config net m response schedule)
      proxied-Fate fault passes check found =
          let (untouched, ends) =
            handle-Ends r u db config net m response schedule body fault received valid check
              passes in
          inr (inr (body, fault, (received, valid, found), passes, untouched, ends))

      fault-Fate :
          (fault : Fault T) (v : FaultVariants)
          → fault.fault_type ≡ v
          → check_fault r db m body ≡ ok (some fault)
          → Checked r unicode_lower h m body (ok (some fault))
          → Fate (handle r u db config net m response schedule)
      fault-Fate fault delay e check found = proxied-Fate (some fault) e check found
      fault-Fate fault error e check found = ended-Fate fault (λ q. cc (e, q)) check found
      fault-Fate fault drop_conn e check found = ended-Fate fault (λ q. cc (e, q)) check found

      check-Fate :
          (c : Result AnyError (Option (Fault T)))
          → check_fault r db m body ≡ c
          → Checked r unicode_lower h m body c
          → Fate (handle r u db config net m response schedule)
      check-Fate (ok (some fault)) check found = fault-Fate fault fault.fault_type refl check found
      check-Fate (ok none) check found = proxied-Fate none tt check found
      check-Fate (err e) check found = inl (
        e,
        handle-check_error r u db config net m response schedule body e received valid check,
        inr (body, inr (received, valid, found)),
      )

    received-Fate :
        (q : Result AnyError Bytes)
        → request_bytes (client_next net) ≡ q
        → Fate (handle r u db config net m response schedule)
    received-Fate (err e) q =
        inl (e, handle-not_received r u db config net m response schedule e q, inl q)
    received-Fate (ok body) q = elim (Bool-cases (is_utf8 body)) [
      | inl valid ↦
          check-Fate body q valid (check_fault r db m body) refl
            (check_fault-Checked r unicode_lower h m body)
      | inr bad ↦ inl (
        utf8_error,
        handle-not_utf8 r u db config net m response schedule body q bad,
        inr (body, inl (q, bad, refl)),
      )
    ]

    -- If the messages of the stored faults are UTF-8, each client has one of three fates, whatever it
    -- sends and whatever the network answers. Its request cannot be read, or is not UTF-8, or has no
    -- command: then `handle` returns that error, and so closes the connection, and nothing is written
    -- or relayed. Or the stored fault for it is no delay: then nothing is relayed, the client gets a
    -- beginning of the reply of the fault, and its connection is closed. Or no stored fault or a delay
    -- is for it: then nothing is written to the client before the relay, nor its write half shut down,
    -- the origin server is connected to after the delay, and the request is relayed if that succeeds,
    -- while `handle` returns the error if it fails.
    pub handle-Fate : Fate (handle r u db config net m response schedule)
    handle-Fate = received-Fate (request_bytes (client_next net)) refl
