-- ===== src/Proxy/Faulter.antt =====
-- proxy/faulter.rs: which fault a request meets, and what the fault does to the client.
pub mod Check
pub mod Effects
use red_monkey.Common.{ℕ, Text, Bytes, Option, none, some, List, [], ◌∷◌, Result, ok, err, ok_or}
use red_monkey.Utf8.{from_utf8_lossy}
use red_monkey.Store.Fault.{Fault, FaultVariants, delay, error, drop_conn}
use red_monkey.Store.Interface.{FaultStore}
use red_monkey.Proxy.Error.{AnyError, faulter_error, encode_err_msg_error}
use red_monkey.Proxy.RespUtil.{Resp, decode, fetch_redis_command, encode_error_message}
use red_monkey.Proxy.Net.{
  Net, Exec, pure, lift, ◌>>=◌, ◌>>◌, emit, slept, copy_to_client, shutdown_client,
}

pub data RequestAction : Type 0 where
  exit fallthrough : RequestAction

module _ {T : Type 0} (r : Resp) (d : FaultStore T) where
  abbrev pub look_up : d.Store → Result AnyError Text → Result AnyError (Option (Fault T))
  look_up s (err e) = err e
  look_up s (ok command) = ok (d.get_by_redis_cmd s command)

  abbrev pub fetch : d.Store → Result AnyError r.Value → Result AnyError (Option (Fault T))
  fetch s (err e) = err e
  fetch s (ok val) = look_up s (fetch_redis_command r val)

  -- `Faulter::check_fault`, on the store as it is when the read lock is held.
  unfoldable pub check_fault : d.Store → Text → Result AnyError (Option (Fault T))
  check_fault s req_body = fetch s (decode r req_body)

-- `sleep` puts the task to sleep for the milliseconds.
unfoldable pub execute_delay_fault : Option ℕ → Exec (Unit {0})
execute_delay_fault none = pure tt
execute_delay_fault (some sleep_duration) = emit (slept sleep_duration)

module _ (net : Net) where
  unfoldable pub execute_error_fault : {T : Type 0} → Resp → Fault T → Exec (Unit {0})
  execute_error_fault r fault = do
    error_msg ← lift (ok_or fault.error_msg (faulter_error encode_err_msg_error))
    encoded_err_msg ← lift (encode_error_message r error_msg)
    copy_to_client net (from_utf8_lossy encoded_err_msg)
    shutdown_client net

  unfoldable pub execute_variant :
      {T : Type 0} → Resp → Fault T → FaultVariants → Exec RequestAction
  unfolding execute_delay_fault execute_error_fault
  execute_variant r fault drop_conn = do shutdown_client net; pure exit
  execute_variant r fault delay = do execute_delay_fault fault.duration; pure fallthrough
  execute_variant r fault error = do execute_error_fault r fault; pure exit

  -- `Faulter::execute_fault`
  unfoldable pub execute_fault : {T : Type 0} → Resp → Option (Fault T) → Exec RequestAction
  unfolding execute_variant
  execute_fault r none = pure fallthrough
  execute_fault r (some fault) = execute_variant r fault fault.fault_type
