-- ===== src/Proxy/Connection/Safety.antt =====
-- `handle` of proxy/connection.rs where it does not reach the origin server.
use red_monkey.Common.{Text, Bytes, ◌≡◌, true, false, none, some, List, [], ◌∷◌, ok, err}
use red_monkey.Utf8.{is_utf8, from_utf8}
use red_monkey.Store.Fault.{Fault, error, drop_conn}
use red_monkey.Store.Interface.{FaultStore}
use red_monkey.Proxy.Error.{AnyError, utf8_error}
use red_monkey.Proxy.RespUtil.{Resp, UrlCrate}
use red_monkey.Proxy.Net.{client_next, Net, wrote_all, client_wrote, client_shut}
use red_monkey.Proxy.Faulter.{check_fault, execute_fault}
use red_monkey.Proxy.Faulter.Effects.{error_line, execute_error_fault_lem}
use red_monkey.Proxy.Relay.{Poll}
use red_monkey.Proxy.Connection.Stages.{handle-checked}
use red_monkey.Proxy.Connection.{OriginServerConfig, handle, request_bytes}

module _ {T : Type 0} (r : Resp) (u : UrlCrate) (d : FaultStore T) (config : OriginServerConfig)
    (net : Net) (s : d.Store) (response : Bytes) (schedule : List Poll) where
  pub handle-not_utf8 :
      (body : Bytes)
      → request_bytes (client_next net) ≡ ok body
      → is_utf8 body ≡ false
      → handle r u d config net s response schedule
        ≡ record { result = some (err utf8_error); trace = []; relay = none }
  unfolding handle from_utf8
  handle-not_utf8 body e h = simp (e, h)

  pub handle-check_error :
      (body : Bytes) (e : AnyError)
      → request_bytes (client_next net) ≡ ok body
      → is_utf8 body ≡ true
      → check_fault r d s body ≡ err e
      → handle r u d config net s response schedule
        ≡ record { result = some (err e); trace = []; relay = none }
  handle-check_error body e received valid c =
      handle-checked r u d config net s response schedule body received valid (err e) c

  module _ (body : Bytes) (fault : Fault T) (received : request_bytes (client_next net) ≡ ok body)
      (valid : is_utf8 body ≡ true) (chosen : check_fault r d s body ≡ ok (some fault)) where
    -- If the payload is UTF-8, the check chooses a drop fault and the shutdown succeeds, the only
    -- thing done is to shut the client's connection: nothing is written to the client, the origin
    -- server is not connected to and nothing is relayed.
    pub handle-drop :
        fault.fault_type ≡ drop_conn
        → net.client_shutdown ≡ ok tt
        → handle r u d config net s response schedule
          ≡ record { result = some (ok tt); trace = client_shut ∷ []; relay = none }
    unfolding execute_fault
    handle-drop e h =
        rw (handle-checked r u d config net s response schedule body received valid _ chosen, e, h)

    -- If the payload is UTF-8, the check chooses an error fault with a message in UTF-8, and the
    -- write and the shutdown succeed, the client gets exactly the RESP error line of the message and
    -- its connection is shut; the origin server is not connected to and nothing is relayed.
    pub handle-error :
        (message : Text)
        → fault.fault_type ≡ error
        → fault.error_msg ≡ some message
        → is_utf8 message ≡ true
        → net.client_write (error_line message) ≡ wrote_all
        → net.client_shutdown ≡ ok tt
        → handle r u d config net s response schedule ≡ record {
          result = some (ok tt);
          trace = client_shut ∷ client_wrote (error_line message) ∷ [];
          relay = none;
        }
    handle-error message e m v w h = rw (
      handle-checked r u d config net s response schedule body received valid _ chosen,
      execute_error_fault_lem r net fault [] message e m v,
      w,
      h,
    )
