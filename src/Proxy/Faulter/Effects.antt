-- ===== src/Proxy/Faulter/Effects.antt =====
-- `execute_fault` of proxy/faulter.rs: what it does to the client, and whether the request goes on.
use red_monkey.Common.{
  Text, Bytes, codes, ◌≡◌, refl, ◌↔◌, Option, none, some, [], ◌∷◌, ◌++◌, ok, err, arith, true,
}
use red_monkey.Utf8.{is_utf8, from_utf8_lossy}
use red_monkey.Utf8.Laws.{is_utf8-append, from_utf8_lossy-id}
use red_monkey.Store.Fault.{Fault, FaultVariants, delay, error, drop_conn}
use red_monkey.Proxy.Error.{faulter_error, encode_err_msg_error}
use red_monkey.Proxy.RespUtil.{Resp, crlf, encode_error_message}
use red_monkey.Proxy.Net.{Net, Trace, pure, ◌>>◌, slept, copy_to_client, shutdown_client}
use red_monkey.Proxy.Faulter.{exit, fallthrough, execute_fault, execute_variant}

-- The RESP error line of a message.
abbrev pub error_line : Text → Bytes
error_line message = codes "-" ++ message ++ crlf

error_line-is_utf8 : (message : Text) → is_utf8 message ≡ true → is_utf8 (error_line message) ≡ true
error_line-is_utf8 message h =
    is_utf8-append (codes "-") (message ++ crlf) (unfold is_utf8 in refl)
      (is_utf8-append message crlf h (unfold is_utf8 in refl))

lossy-encode :
    (r : Resp) (message : Text)
    → is_utf8 message ≡ true
    → from_utf8_lossy (r.encode (r.error_value message)) ≡ error_line message
lossy-encode r message h =
    rw (r.encode-error_value message)
      (from_utf8_lossy-id (error_line message) (error_line-is_utf8 message h))

module _ {T : Type 0} (r : Resp) (net : Net) (fault : Fault T) (t : Trace) where
  -- An error fault with a message in UTF-8 writes exactly the RESP error line of the message to
  -- the client, closes the connection, and ends the request; if the write or the close fails,
  -- with its error.
  pub execute_error_fault_lem :
      (message : Text)
      → fault.fault_type ≡ error
      → fault.error_msg ≡ some message
      → is_utf8 message ≡ true
      → execute_fault net r (some fault) t
        ≡ (do copy_to_client net (error_line message); shutdown_client net; pure exit) t
  unfolding execute_fault encode_error_message
  execute_error_fault_lem message e m h = rw (e, m) (ground (arith, lossy-encode r message h))

  -- An error fault without a message fails, and nothing is written to the client or closed.
  pub execute_error_fault-no_message :
      fault.fault_type ≡ error
      → fault.error_msg ≡ none
      → execute_fault net r (some fault) t ≡ (err (faulter_error encode_err_msg_error), t)
  unfolding execute_fault
  execute_error_fault-no_message e m = rw (e, m)

-- The faults after which a request goes on to the origin server.
abbrev pub Passes : {T : Type 0} → Option (Fault T) → Type 0
Passes none = Unit
Passes (some fault) = fault.fault_type ≡ delay

-- What is recorded of a fault after which the request goes on.
abbrev pub delays : {T : Type 0} → Option (Fault T) → Trace
delays none = []
delays (some fault) = elim fault.duration [ none ↦ [] | some ms ↦ slept ms ∷ [] ]

module _ {T : Type 0} (r : Resp) (net : Net) where
  execute_variant-Passes :
      (fault : Fault T) (v : FaultVariants) (t : Trace)
      → v ≡ delay
      → execute_variant net r fault v t ≡ (ok fallthrough, delays (some fault) ++ t)
  unfolding execute_variant
  execute_variant-Passes fault v t e = rw e (ground arith)

  execute_variant-fallthrough :
      (fault : Fault T) (v : FaultVariants) (t : Trace)
      → (execute_variant net r fault v t).0 ≡ ok fallthrough
      → v ≡ delay
  unfolding execute_variant
  execute_variant-fallthrough fault drop_conn t h = ground arith
  execute_variant-fallthrough fault error t h = ground arith
  execute_variant-fallthrough fault delay t h = refl

  -- Without a fault, or with a delay fault, the request goes on after the delay, and nothing is
  -- done to the client.
  pub execute_fault-Passes :
      (fault : Option (Fault T)) (t : Trace)
      → Passes fault
      → execute_fault net r fault t ≡ (ok fallthrough, delays fault ++ t)
  unfolding execute_fault
  execute_fault-Passes none t h = refl
  execute_fault-Passes (some f) t h = execute_variant-Passes f f.fault_type t h

  Passes-execute_fault :
      (fault : Option (Fault T)) (t : Trace)
      → (execute_fault net r fault t).0 ≡ ok fallthrough
      → Passes fault
  unfolding execute_fault
  Passes-execute_fault none t h = tt
  Passes-execute_fault (some f) t h = execute_variant-fallthrough f f.fault_type t h

  -- A request goes on to the origin server exactly if it meets no fault or a delay fault.
  pub execute_fault-fallthrough_iff :
      (fault : Option (Fault T)) (t : Trace)
      → ((execute_fault net r fault t).0 ≡ ok fallthrough) ↔ Passes fault
  execute_fault-fallthrough_iff fault t =
      (Passes-execute_fault fault t, λ p. rw (execute_fault-Passes fault t p))
