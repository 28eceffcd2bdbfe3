-- ===== src/Proxy/Connection/Cuts.antt =====
-- `handle` of proxy/connection.rs where a fault ends the request, whatever the network answers: the
-- write of an error reply may stop anywhere, and the shutdown may fail.
use red_monkey.Common.{
  Text, Bytes, ◌≡◌, ◌≢◌, refl, true, Option, none, some, List, [], ◌∷◌, ◌++◌, append-nil, Result,
  ok, err, All, drop, take-append-drop,
}
use red_monkey.Utf8.{is_utf8}
use red_monkey.Store.Fault.{Fault, FaultVariants, delay, error, drop_conn}
use red_monkey.Store.Interface.{FaultStore}
use red_monkey.Proxy.Error.{AnyError}
use red_monkey.Proxy.RespUtil.{Resp, UrlCrate}
use red_monkey.Proxy.Net.{
  client_next, Net, WriteOutcome, wrote_all, write_failed, written, io, emit, pure, ◌>>◌, Trace,
  client_wrote, client_shut, slept, connected, handshake,
}
use red_monkey.Proxy.Faulter.{RequestAction, exit, fallthrough, check_fault, execute_fault}
use red_monkey.Proxy.Faulter.Effects.{
  error_line, execute_error_fault_lem, execute_error_fault-no_message,
}
use red_monkey.Proxy.Relay.{Poll}
use red_monkey.Proxy.Connection.Stages.{acted, handle-checked}
use red_monkey.Proxy.Connection.Touches.{touches}
use red_monkey.Proxy.Connection.{OriginServerConfig, handle, relayed, request_bytes, is_closed}

-- What has been written to the client.
abbrev pub client_got : Trace → Bytes
client_got [] = []
client_got (client_wrote bytes ∷ t) = client_got t ++ bytes
client_got (client_shut ∷ t) = client_got t
client_got (slept ms ∷ t) = client_got t
client_got (connected addr ∷ t) = client_got t
client_got (handshake host ∷ t) = client_got t

-- What a fault that ends the request has for the client.
abbrev pub message_reply : Option Text → Bytes
message_reply none = []
message_reply (some message) = error_line message

abbrev pub variant_reply : FaultVariants → Option Text → Bytes
variant_reply drop_conn message = []
variant_reply error message = message_reply message
variant_reply delay message = []

-- Only the client is dealt with, and it has got a beginning of the reply.
abbrev pub IsCut : Bytes → Trace → Type 0
IsCut reply t = All (λ e. touches e ≡ true) t × (rest : Bytes) × (client_got t ++ rest ≡ reply)

abbrev Cuts : Bytes → Result AnyError RequestAction × Trace → Type 0
Cuts reply (ok fallthrough, t) = ⊥
Cuts reply (ok exit, t) = IsCut reply t
Cuts reply (err e, t) = IsCut reply t

shutdown-Cuts :
    (reply : Bytes) (t : Trace) (answer : Result Text (Unit {0}))
    → IsCut reply t
    → Cuts reply (((io answer >> emit client_shut) >> pure exit) t)
shutdown-Cuts reply t (ok u) (touched, rest, e) = ((refl, touched), rest, e)
shutdown-Cuts reply t (err m) h = h

written-Cuts :
    (reply : Bytes) (o : WriteOutcome) (answer : Result Text (Unit {0}))
    → Cuts reply ((written reply o >> ((io answer >> emit client_shut) >> pure exit)) [])
written-Cuts reply wrote_all answer =
    shutdown-Cuts reply (client_wrote reply ∷ []) answer ((refl, tt), [], append-nil reply)
written-Cuts reply (write_failed n m) answer = ((refl, tt), drop n reply, take-append-drop n reply)

module _ {T : Type 0} (r : Resp) (net : Net) (fault : Fault T) where
  execute_error-Cuts :
      (message : Option Text)
      → fault.fault_type ≡ error
      → fault.error_msg ≡ message
      → ((m : Text) → fault.error_msg ≡ some m → is_utf8 m ≡ true)
      → Cuts (message_reply message) (execute_fault net r (some fault) [])
  execute_error-Cuts none e m valid =
      rw (execute_error_fault-no_message r net fault [] e m) (tt, [], refl)
  execute_error-Cuts (some message) e m valid =
      rw (execute_error_fault_lem r net fault [] message e m (valid message m)) (
        written-Cuts (error_line message) (net.client_write (error_line message))
          net.client_shutdown)

  execute_fault-Cuts :
      (v : FaultVariants)
      → fault.fault_type ≡ v
      → v ≢ delay
      → ((m : Text) → fault.error_msg ≡ some m → is_utf8 m ≡ true)
      → Cuts (variant_reply v fault.error_msg) (execute_fault net r (some fault) [])
  unfolding execute_fault
  execute_fault-Cuts drop_conn e ends valid =
      rw e (shutdown-Cuts [] [] net.client_shutdown (tt, [], refl))
  execute_fault-Cuts error e ends valid = execute_error-Cuts fault.error_msg e refl valid
  execute_fault-Cuts delay e ends valid = absurd (ends refl)

module _ {T : Type 0} (r : Resp) (u : UrlCrate) (d : FaultStore T) (config : OriginServerConfig)
    (net : Net) (s : d.Store) (response : Bytes) (schedule : List Poll) where
  acted-IsCut :
      (body reply : Bytes) (p : Result AnyError RequestAction × Trace)
      → Cuts reply p
      → let y = relayed response schedule (acted r u d config net body p) in
        (y.relay ≡ none) × (is_closed y ≡ true) × IsCut reply y.trace
  acted-IsCut body reply (ok exit, t) h = (refl, refl, h)
  acted-IsCut body reply (ok fallthrough, t) h = absurd h
  acted-IsCut body reply (err e, t) h = (refl, refl, h)

  -- If the payload is UTF-8 and the check chooses a fault that is no delay, and whose message, if it
  -- has one, is UTF-8, then whatever the network answers: nothing is relayed, only the client is
  -- dealt with, its connection is closed, and what it has got is a beginning of the RESP error line
  -- of an error fault's message, and nothing for a drop fault or an error fault without a message.
  pub handle-IsCut :
      (body : Bytes) (fault : Fault T)
      → request_bytes (client_next net) ≡ ok body
      → is_utf8 body ≡ true
      → check_fault r d s body ≡ ok (some fault)
      → fault.fault_type ≢ delay
      → ((message : Text) → fault.error_msg ≡ some message → is_utf8 message ≡ true)
      → let y = handle r u d config net s response schedule in
        (y.relay ≡ none)
        × (is_closed y ≡ true)
        × IsCut (variant_reply fault.fault_type fault.error_msg) y.trace
  handle-IsCut body fault received valid chosen ends readable =
      rw (handle-checked r u d config net s response schedule body received valid _ chosen)
        (acted-IsCut body _ _ (execute_fault-Cuts r net fault fault.fault_type refl ends readable))
