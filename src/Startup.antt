-- ===== src/Startup.antt =====
-- config.rs and main.rs: the configuration from the environment, the connection that it gives, and
-- the loop that accepts clients.
pub mod Tls
pub mod Accept
pub mod Settings
pub mod Main
use red_monkey.Common.{ℕ, Text, codes, Bool, true, false, Option, none, some, List, [], ◌∷◌}
use red_monkey.Proxy.Connection.{OriginServerConfig}

pub record Config : Type 0 where
  pub proxy_port : ℕ
  pub redis_address : Text
  pub is_redis_tls_conn : Bool
  pub fault_config_server_port : ℕ
  pub log_level : Text

abbrev pub default_proxy_port : ℕ
default_proxy_port = 6350

abbrev pub default_fault_config_server_port : ℕ
default_fault_config_server_port = 8000

abbrev pub default_log_level : Text
default_log_level = codes "INFO"

-- The environment as the crates `envy` and `serde` read it: the variable of a field, and the parsers
-- of a `u16` and of a `bool`.
pub record Envy : Type 0 where
  pub variable : Text → Option Text
  pub parse_u16 : Text → Option ℕ
  pub parse_bool : Text → Option Bool

infixl 5 ◌>>=◌
abbrev pub ◌>>=◌ : {A B : Type 0} → Option A → (A → Option B) → Option B
none >>= f = none
some a >>= f = f a

-- A field with `#[serde(default = …)]`, and one without.
abbrev pub field_or : {A : Type 0} → (Text → Option A) → A → Option Text → Option A
field_or parse default none = some default
field_or parse default (some s) = parse s

abbrev pub field : {A : Type 0} → (Text → Option A) → Option Text → Option A
field parse none = none
field parse (some s) = parse s

-- `get_config`; none is an error of `envy`, of whatever field.
unfoldable pub get_config : Envy → Option Config
get_config env = do
  proxy_port ← field_or env.parse_u16 default_proxy_port (env.variable (codes "PROXY_PORT"))
  redis_address ← field some (env.variable (codes "REDIS_ADDRESS"))
  is_redis_tls_conn ← field env.parse_bool (env.variable (codes "IS_REDIS_TLS_CONN"))
  fault_config_server_port ←
      field_or env.parse_u16 default_fault_config_server_port
        (env.variable (codes "FAULT_CONFIG_SERVER_PORT"))
  log_level ← field_or some default_log_level (env.variable (codes "LOG_LEVEL"))
  some (record {
    proxy_port = proxy_port;
    redis_address = redis_address;
    is_redis_tls_conn = is_redis_tls_conn;
    fault_config_server_port = fault_config_server_port;
    log_level = log_level;
  })

-- The `origin_server_config` of `main`.
unfoldable pub origin_server_config : Config → OriginServerConfig
origin_server_config config = record { server_addr = config.redis_address; is_tls_conn = true }

-- What completes first in a round of the loop of `main`: a client, a failure of `accept`, or ctrl-c.
pub data Arrival (Socket : Type 0) : Type 0 where
  accepted : Socket → Arrival Socket
  accept_failed ctrl_c : Arrival Socket

module _ {Socket : Type 0} where
  -- A round whose `accept` has failed: its pattern does not match, so `select!` waits for ctrl-c
  -- alone, and then the loop returns.
  unfoldable pub wait_for_ctrl_c : List (Arrival Socket) → List Socket
  wait_for_ctrl_c [] = []
  wait_for_ctrl_c (ctrl_c ∷ arrivals) = []
  wait_for_ctrl_c (accepted socket ∷ arrivals) = wait_for_ctrl_c arrivals
  wait_for_ctrl_c (accept_failed ∷ arrivals) = wait_for_ctrl_c arrivals

  -- The clients that the loop starts a task for. The result of a task is logged and dropped.
  unfoldable pub proxy_loop : List (Arrival Socket) → List Socket
  unfolding wait_for_ctrl_c
  proxy_loop [] = []
  proxy_loop (accepted socket ∷ arrivals) = socket ∷ proxy_loop arrivals
  proxy_loop (ctrl_c ∷ arrivals) = []
  proxy_loop (accept_failed ∷ arrivals) = wait_for_ctrl_c arrivals
