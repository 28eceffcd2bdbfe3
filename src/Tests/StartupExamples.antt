-- ===== src/Tests/StartupExamples.antt =====
-- The theorems on the configuration, the start of the program and the accepting loop at concrete
-- inputs.
use red_monkey.Common.{
  ℕ, List, eqb, ◌||◌, not, Member, inl, arith, Text, codes, ◌≡◌, ◌≢◌, refl, ap, inr, Option, none,
  some, true, false, ◌==◌, if◌then◌else◌, Bool, Bool-cases, [], ◌∷◌, ◌++◌, map, ok, text_dec,
}
use red_monkey.Utf8.{is_utf8}
use red_monkey.Store.Fault.{Fault}
use red_monkey.Store.Interface.{FaultStore}
use red_monkey.Store.Mem.{mem_store, new_db, get_by_redis_cmd, matches}
use red_monkey.Store.Lowercase.{to_lowercase}
use red_monkey.Proxy.RespUtil.{decode, fetch_redis_command, get_host_name}
use red_monkey.Proxy.Net.{connected, handshake}
use red_monkey.Proxy.Faulter.{check_fault}
use red_monkey.Proxy.Faulter.Effects.{delays}
use red_monkey.Proxy.Relay.{run, open_relay}
use red_monkey.Proxy.Connection.{Handled, handle}
use red_monkey.Proxy.Connection.Proxied.{handle-tls}
use red_monkey.Startup.{
  Config, Envy, get_config, origin_server_config, accepted, accept_failed, proxy_loop,
}
use red_monkey.Startup.Tls.{main-tls, main-unparsed_address}
use red_monkey.Startup.Settings.{get_config-defaults, get_config-required}
use red_monkey.Startup.Accept.{proxy_loop-stops}
use red_monkey.Startup.Main.{Os, server_first, main, started, main-ports, main-no_server}
use red_monkey.Tests.Crates.{resp, read_value, url}
use red_monkey.Tests.Fixtures.{h, same, set_request, good_net}

proxy_loop-stops_example :
    proxy_loop {Socket = ℕ} (map accepted (1 ∷ 2 ∷ []) ++ accept_failed ∷ accepted 3 ∷ [])
    ≡ 1 ∷ 2 ∷ []
proxy_loop-stops_example = proxy_loop-stops (1 ∷ 2 ∷ []) accept_failed (accepted 3 ∷ []) (inr refl)

-- TLS is switched off in this configuration.
abbrev plain : Config
plain = record {
  proxy_port = 6350;
  redis_address = codes "redis:6379";
  is_redis_tls_conn = false;
  fault_config_server_port = 8000;
  log_level = codes "INFO";
}

-- An IP address is no URL.
abbrev numeric : Config
numeric = record plain { redis_address = codes "127.0.0.1:6379" }

abbrev db : FaultStore ℕ
db = mem_store same h

no_fault : check_fault resp db (new_db h) set_request ≡ ok none
unfolding check_fault decode fetch_redis_command read_value get_by_redis_cmd matches to_lowercase
    text_dec
no_fault = refl

host_name : get_host_name url (codes "redis:6379") ≡ ok (codes "redis")
unfolding get_host_name url text_dec
host_name = refl

relayed_plain :
    (handle resp url db (origin_server_config plain) (good_net set_request) (new_db h) [] []).relay
    ≡ some (open_relay set_request [])
unfolding is_utf8 origin_server_config run
relayed_plain =
    ap (λ (y : Handled). y.relay)
      (handle-tls resp url db (origin_server_config plain) (good_net set_request) (new_db h) [] []
        set_request none refl refl no_fault tt (codes "10.0.0.7:6379") [] (codes "redis") refl refl
        refl refl host_name refl)

main-tls_example :
    (fault : Option (Fault ℕ)) × (addr : Text) × (host : Text) × (get_host_name url
        (codes "redis:6379")
      ≡ ok host)
    × ((handle resp url db
          (origin_server_config plain)
          (good_net set_request)
          (new_db h)
          []
          []).trace
        ≡ handshake host ∷ connected addr ∷ delays fault)
main-tls_example =
    main-tls resp url db (good_net set_request) plain (new_db h) [] [] (open_relay set_request [])
      relayed_plain

main-unparsed_address_example :
    (handle resp url db
      (origin_server_config numeric)
      (good_net set_request)
      (new_db h)
      []
      []).relay
    ≡ none
unfolding url
main-unparsed_address_example =
    main-unparsed_address resp url db (good_net set_request) numeric (new_db h) [] []
      (codes "relative URL without a base") refl

-- An environment with the address and the flag alone.
abbrev variable : Text → Option Text
variable name =
    if name == codes "REDIS_ADDRESS"
    then some (codes "redis:6379")
    else if name == codes "IS_REDIS_TLS_CONN"
    then some (codes "false")
    else none

abbrev parse_bool : Text → Option Bool
parse_bool s =
    if s == codes "true" then some true else if s == codes "false" then some false else none

abbrev environment : Envy
environment = record { variable = variable; parse_u16 = λ s. none; parse_bool = parse_bool }

config_defaults : get_config environment ≡ some plain
unfolding text_dec
config_defaults =
    get_config-defaults environment (codes "redis:6379") (codes "false") false refl refl refl refl
      refl refl

environment_config : get_config environment ≡ some plain
unfolding get_config text_dec
environment_config = refl

config_required :
    (variable (codes "REDIS_ADDRESS") ≡ some (codes "redis:6379"))
    × (tls : Text) × (variable (codes "IS_REDIS_TLS_CONN") ≡ some tls)
    × (parse_bool tls ≡ some false)
config_required = get_config-required environment plain environment_config

is_bound : List ℕ → ℕ → Bool
is_bound [] p = false
is_bound (q ∷ ports) p = eqb q p || is_bound ports p

bind : List ℕ → ℕ → Bool
bind ports p = eqb p 0 || not (is_bound ports p)

is_bound-Member : (ports : List ℕ) (p : ℕ) → Member p ports → is_bound ports p ≡ true
unfolding is_bound
is_bound-Member [] p at = absurd at
is_bound-Member (q ∷ ports) p (inl e) = ground (arith, e)
is_bound-Member (q ∷ ports) p (inr at) = ground (arith, is_bound-Member ports p at)

bind_taken : (ports : List ℕ) (p : ℕ) → Member p ports → p ≢ 0 → bind ports p ≡ false
unfolding bind
bind_taken ports p at nonzero = ground (arith, nonzero, is_bound-Member ports p at)

-- Another process has the port `used`.
abbrev os_with : ℕ → Os
os_with used = record {
  bind = λ ports. bind (used ∷ ports);
  listen = true;
  bind_taken = λ ports p at. bind_taken (used ∷ ports) p (inr at);
}

Member-is_bound : (ports : List ℕ) (p : ℕ) → ¬ Member p ports → is_bound ports p ≡ false
unfolding is_bound
Member-is_bound [] p away = refl
Member-is_bound (q ∷ ports) p away = elim (Bool-cases (eqb q p)) [
  | inl e ↦ absurd (away (inl (ground arith)))
  | inr e ↦ rw (e, Member-is_bound ports p (λ at. away (inr at))) refl
]

-- No other process has a port.
abbrev free_os : Os
free_os = record { bind = bind; listen = true; bind_taken = bind_taken }

bind_free : (ports : List ℕ) (p : ℕ) → ¬ Member p ports → bind ports p ≡ true
unfolding bind
bind_free ports p away = rw (Member-is_bound ports p away) (ground arith)

main-ports_example : main free_os h environment server_first ≡ some (started free_os h plain true)
main-ports_example =
    main-ports free_os h environment server_first plain environment_config (λ e. omega (e, arith))
      (λ e. omega (e, arith)) bind_free refl

main-no_server_example :
    main (os_with 8000) h environment server_first ≡ some (started (os_with 8000) h plain false)
unfolding bind is_bound
main-no_server_example =
    main-no_server (os_with 8000) h environment server_first plain environment_config refl
      (λ ports. refl)
