-- ===== src/Tests/SessionExamples.antt =====
-- The theorems on the two halves of the program together: a fault is configured, and a request
-- meets it.
use red_monkey.Common.{
  ℕ, Text, ◌⊎◌, ◌≢◌, arith, codes, ◌≡◌, refl, none, some, false, [], ◌∷◌, ok, text_dec,
}
use red_monkey.Utf8.{is_utf8}
use red_monkey.Store.Fault.{Fault}
use red_monkey.Store.Interface.{FaultStore}
use red_monkey.Store.Lowercase.{to_lowercase}
use red_monkey.Store.Mem.{mem_store, new_db, get_by_redis_cmd}
use red_monkey.FaultConfigServer.Http.{created, empty_response}
use red_monkey.FaultConfigServer.Handler.{stamp, store_fault, delete_all_faults}
use red_monkey.FaultConfigServer.Handler.Cases.{store_fault-shadowed}
use red_monkey.Proxy.RespUtil.{decode, fetch_redis_command}
use red_monkey.Proxy.Net.{client_wrote, client_shut}
use red_monkey.Proxy.Faulter.{check_fault}
use red_monkey.Proxy.Faulter.Effects.{error_line}
use red_monkey.Proxy.Connection.{OriginServerConfig, handle}
use red_monkey.Proxy.Connection.Configured.{
  IsFresh, check_fault-store_fault, check_fault-delete_all_faults, handle-store_fault,
}
use red_monkey.Tests.Crates.{resp, read_value, url, RespValue, array_value}
use red_monkey.Tests.Fixtures.{h, same, get_custom_err, set_error, set_request, good_net}
use red_monkey.Tests.ServerExamples.{
  two_faults, two_faults-IsValid, is_table, no_conflict, empty_table,
}

abbrev db : FaultStore ℕ
db = mem_store same h

abbrev config : OriginServerConfig
config = record { server_addr = codes "redis:6379"; is_tls_conn = false }

abbrev value : RespValue
value = array_value (codes "set" ∷ codes "key1" ∷ codes "value100" ∷ [])

decode_set : decode resp set_request ≡ ok value
unfolding decode read_value text_dec
decode_set = refl

command_set : fetch_redis_command resp value ≡ ok (codes "set")
unfolding fetch_redis_command
command_set = refl

-- No fault is stored, so none is for SET. The request says set.
fresh : IsFresh same h 9 (set_error 5) (new_db h)
fresh k g e = cc

same_command : to_lowercase same (codes "set") ≡ to_lowercase same (codes "SET")
unfolding to_lowercase
same_command = refl

check_fault-store_fault_example :
    let (answer, m') = store_fault db 9 (set_error 5) (new_db h) in
    (answer ≡ ok (empty_response created))
    × (check_fault resp db m' set_request ≡ ok (some (stamp 9 (set_error 5))))
check_fault-store_fault_example =
    check_fault-store_fault resp same h (new_db h) set_request value (codes "set") decode_set
      command_set 9 (set_error 5) fresh same_command

handle-store_fault_example :
    let m' = (store_fault db 9 (set_error 5) (new_db h)).1 in
    handle resp url db config (good_net set_request) m' [] [] ≡ record {
      result = some (ok tt);
      trace = client_shut ∷ client_wrote (error_line (codes "SET ERROR")) ∷ [];
      relay = none;
    }
unfolding is_utf8
handle-store_fault_example =
    handle-store_fault resp same h (new_db h) set_request value (codes "set") decode_set command_set
      9 (set_error 5) fresh same_command url config (good_net set_request) [] [] (codes "SET ERROR")
      refl refl refl refl refl refl refl

check_fault-delete_all_faults_test :
    check_fault resp db (delete_all_faults db two_faults).1 set_request ≡ ok none
check_fault-delete_all_faults_test =
    check_fault-delete_all_faults resp same h two_faults set_request value (codes "set") decode_set
      command_set two_faults-IsValid.orderly

-- Faults for GET and for get.
abbrev lower_get_err : Fault ℕ
lower_get_err = record get_custom_err { name = codes "lower_get_err"; command = codes "get" }

store_fault-shadowed_example :
    let (first, s') = store_fault db 7 get_custom_err (new_db h) in
    let (second, s'') = store_fault db 9 lower_get_err s' in
    (first ≡ ok (empty_response created))
    × (second ≡ ok (empty_response created))
    × (is_table.table s'' (codes "get_custom_err") ≡ some (stamp 7 get_custom_err))
    × (is_table.table s'' (codes "lower_get_err") ≡ some (stamp 9 lower_get_err))
    × (((cmd : Text) → get_by_redis_cmd same h s'' cmd ≢ some (stamp 7 get_custom_err))
        ⊎ ((cmd : Text) → get_by_redis_cmd same h s'' cmd ≢ some (stamp 9 lower_get_err)))
unfolding to_lowercase
store_fault-shadowed_example =
    store_fault-shadowed same h 7 9 get_custom_err lower_get_err (new_db h) (λ e. ground arith)
      (λ e. ground arith) refl (λ e. ground arith) (λ e. ground arith) no_conflict
      (λ k g e. cc (e, empty_table k))
