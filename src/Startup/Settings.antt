-- ===== src/Startup/Settings.antt =====
-- What `get_config` of config.rs needs of the environment, and what it fills in.
use red_monkey.Common.{ℕ, Text, Bool, codes, ◌≡◌, ◌∙◌, ap, refl, none, some, Option}
use red_monkey.Startup.{
  Config, Envy, get_config, default_proxy_port, default_fault_config_server_port, default_log_level,
  ◌>>=◌, field, field_or,
}

-- The end of `get_config`, for the five fields as they have been read.
abbrev configured : Option ℕ → Option Text → Option Bool → Option ℕ → Option Text → Option Config
configured port address is_tls server level = do
  proxy_port ← port
  redis_address ← address
  is_redis_tls_conn ← is_tls
  fault_config_server_port ← server
  log_level ← level
  some (record {
    proxy_port = proxy_port;
    redis_address = redis_address;
    is_redis_tls_conn = is_redis_tls_conn;
    fault_config_server_port = fault_config_server_port;
    log_level = log_level;
  })

configured-some :
    (port : Option ℕ) (address : Option Text) (is_tls : Option Bool) (server : Option ℕ)
    (level : Option Text) (config : Config)
    → configured port address is_tls server level ≡ some config
    → (address ≡ some config.redis_address) × (is_tls ≡ some config.is_redis_tls_conn)
configured-some none a f s l config h = cc
configured-some (some p) none f s l config h = cc
configured-some (some p) (some a) none s l config h = cc
configured-some (some p) (some a) (some f) none l config h = cc
configured-some (some p) (some a) (some f) (some s) none config h = cc
configured-some (some p) (some a) (some f) (some s) (some l) config h =
    (ap (λ (c : Option Config). address_of c) h, ap (λ (c : Option Config). flag_of c) h)
  where
    address_of : Option Config → Option Text
    address_of none = none
    address_of (some c) = some c.redis_address

    flag_of : Option Config → Option Bool
    flag_of none = none
    flag_of (some c) = some c.is_redis_tls_conn

field-some :
    {A : Type 0} (parse : Text → Option A) (o : Option Text) (a : A)
    → field parse o ≡ some a
    → (s : Text) × (o ≡ some s) × (parse s ≡ some a)
field-some parse none a h = cc
field-some parse (some s) a h = (s, refl, h)

module _ (env : Envy) where
  -- If PROXY_PORT, FAULT_CONFIG_SERVER_PORT and LOG_LEVEL are not set, and REDIS_ADDRESS and a
  -- Boolean IS_REDIS_TLS_CONN are, the configuration has these two and the defaults 6350, 8000 and
  -- INFO.
  pub get_config-defaults :
      (address tls : Text) (is_tls : Bool)
      → env.variable (codes "PROXY_PORT") ≡ none
      → env.variable (codes "FAULT_CONFIG_SERVER_PORT") ≡ none
      → env.variable (codes "LOG_LEVEL") ≡ none
      → env.variable (codes "REDIS_ADDRESS") ≡ some address
      → env.variable (codes "IS_REDIS_TLS_CONN") ≡ some tls
      → env.parse_bool tls ≡ some is_tls
      → get_config env
        ≡ some (record {
          proxy_port = 6350;
          redis_address = address;
          is_redis_tls_conn = is_tls;
          fault_config_server_port = 8000;
          log_level = codes "INFO";
        })
  unfolding get_config
  get_config-defaults address tls is_tls port server level addr flag parsed =
      rw (port, server, level, addr, flag, parsed)

  -- A configuration has been read only if REDIS_ADDRESS is set, to its address, and
  -- IS_REDIS_TLS_CONN is set to a text that parses to its flag.
  pub get_config-required :
      (config : Config)
      → get_config env ≡ some config
      → (env.variable (codes "REDIS_ADDRESS") ≡ some config.redis_address)
        × (tls : Text) × (env.variable (codes "IS_REDIS_TLS_CONN") ≡ some tls)
        × (env.parse_bool tls ≡ some config.is_redis_tls_conn)
  unfolding get_config
  get_config-required config h =
      let (a, b) =
        configured-some
          (field_or env.parse_u16 default_proxy_port (env.variable (codes "PROXY_PORT")))
          (field some (env.variable (codes "REDIS_ADDRESS")))
          (field env.parse_bool (env.variable (codes "IS_REDIS_TLS_CONN")))
          (field_or env.parse_u16 default_fault_config_server_port
            (env.variable (codes "FAULT_CONFIG_SERVER_PORT")))
          (field_or some default_log_level (env.variable (codes "LOG_LEVEL"))) config h in
      let (address, set, same) =
        field-some some (env.variable (codes "REDIS_ADDRESS")) config.redis_address a in
      let (tls, set_tls, parsed) =
        field-some env.parse_bool (env.variable (codes "IS_REDIS_TLS_CONN"))
          config.is_redis_tls_conn b in
      (set ∙ same, tls, set_tls, parsed)
