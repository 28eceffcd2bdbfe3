-- ===== src/Proxy/Faulter/Check.antt =====
-- `check_fault` of proxy/faulter.rs over the in-memory store.
use red_monkey.Common.{Text, ◌≡◌, refl, ◌⊎◌, inl, inr, Option, Result, ok, err}
use red_monkey.Store.Fault.{Fault}
use red_monkey.Store.HashMap.{HashMap}
use red_monkey.Store.Mem.{MemStore, mem_store}
use red_monkey.Store.Mem.Choice.{IsChoice, get_by_redis_cmd-IsChoice}
use red_monkey.Proxy.Error.{AnyError}
use red_monkey.Proxy.RespUtil.{Resp, decode, fetch_redis_command}
use red_monkey.Proxy.Faulter.{check_fault, look_up, fetch}

module _ {T : Type 0} (r : Resp) (unicode_lower : Text → Text) (h : HashMap (Fault T)) where
  -- What the check of a request returns: the choice of the store for the request's command, or the
  -- error of the request that has none.
  abbrev pub Checked : MemStore h → Text → Result AnyError (Option (Fault T)) → Type 0
  Checked m body (ok fault) =
      (v : r.Value) × (command : Text) × (decode r body ≡ ok v)
      × (fetch_redis_command r v ≡ ok command)
      × IsChoice unicode_lower command (h.get m.map) fault
  Checked m body (err e) =
      (decode r body ≡ err e)
      ⊎ ((v : r.Value) × (decode r body ≡ ok v) × (fetch_redis_command r v ≡ err e))

  look_up-Checked :
      (m : MemStore h) (body : Text) (v : r.Value) (c : Result AnyError Text)
      → decode r body ≡ ok v
      → fetch_redis_command r v ≡ c
      → Checked m body (look_up r (mem_store unicode_lower h) m c)
  look_up-Checked m body v (ok command) d f =
      (v, command, d, f, get_by_redis_cmd-IsChoice unicode_lower command h m)
  look_up-Checked m body v (err e) d f = inr (v, d, f)

  fetch-Checked :
      (m : MemStore h) (body : Text) (val : Result AnyError r.Value)
      → decode r body ≡ val
      → Checked m body (fetch r (mem_store unicode_lower h) m val)
  fetch-Checked m body (ok v) d = look_up-Checked m body v (fetch_redis_command r v) d refl
  fetch-Checked m body (err e) d = inl d

  -- The check of a request returns a fault of the in-memory store by the rule of get_by_redis_cmd
  -- for the request's command, or nothing by that rule; it fails exactly with the error of
  -- decoding the request or of reading its command.
  pub check_fault-Checked :
      (m : MemStore h) (body : Text)
      → Checked m body (check_fault r (mem_store unicode_lower h) m body)
  unfolding check_fault
  check_fault-Checked m body = fetch-Checked m body (decode r body) refl
