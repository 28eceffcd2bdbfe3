-- ===== src/Startup/Main.antt =====
-- `main` of main.rs up to the start of its two servers, with `run` of fault_config_server/server.rs.
use red_monkey.Common.{
  ℕ, eqb, ◌≡◌, ◌≢◌, Bool, true, false, ◌&&◌, if◌then◌else◌, Bool-cases, Option, none, some, List,
  [], ◌∷◌, inl, inr, Member, arith,
}
use red_monkey.Store.Fault.{Fault}
use red_monkey.Store.HashMap.{HashMap}
use red_monkey.Store.Mem.{MemStore, new_db}
use red_monkey.Proxy.Connection.{OriginServerConfig}
use red_monkey.Startup.{Config, Envy, get_config, origin_server_config, ◌>>=◌}

-- What the operating system answers: whether a port can be bound while the program has bound others,
-- and whether the HTTP server can listen on its port. The port 0 stands for any free port.
pub record Os : Type 0 where
  pub bind : List ℕ → ℕ → Bool
  pub listen : Bool
  pub bind_taken : (ports : List ℕ) (p : ℕ) → Member p ports → p ≢ 0 → bind ports p ≡ false

-- Which of the two ports is bound first: the tasks run at once.
pub data Order : Type 0 where
  server_first proxy_first : Order

-- The program once its proxy listens, and whether its fault configuration server serves.
pub record Started {T : Type 0} (h : HashMap (Fault T)) : Type 0 where
  pub config : Config
  pub fault_store : MemStore h
  pub origin : OriginServerConfig
  pub serving : Bool

module _ (os : Os) where
  -- `run` of the fault configuration server, up to serving: false is its error.
  abbrev pub run : List ℕ → ℕ → Bool
  run ports port = os.bind ports port && os.listen

  -- The ports that are bound, after one that may have been.
  abbrev pub bound : Bool → ℕ → List ℕ
  bound true port = port ∷ []
  bound false port = []

  -- Whether the proxy listens, and whether the server serves. A server that is bound and does not
  -- serve has given its port back.
  abbrev pub listeners : Order → Config → Bool × Bool
  listeners server_first config =
      let serving = run [] config.fault_config_server_port in
      (os.bind (bound serving config.fault_config_server_port) config.proxy_port, serving)
  listeners proxy_first config =
      let listening = os.bind [] config.proxy_port in
      (listening, run (bound listening config.proxy_port) config.fault_config_server_port)

  module _ {T : Type 0} (h : HashMap (Fault T)) where
    abbrev pub started : Config → Bool → Started h
    started config serving = record {
      config = config;
      fault_store = new_db h;
      origin = origin_server_config config;
      serving = serving;
    }

    -- `main` panics, so is none, if the proxy has no port. A panic of the server's task is an `Err`
    -- of its handle, which `main` drops.
    abbrev pub with_listeners : Config → Bool × Bool → Option (Started h)
    with_listeners config (listening, serving) =
        if listening then some (started config serving) else none

    unfoldable pub main : Envy → Order → Option (Started h)
    main env order = do config ← get_config env; with_listeners config (listeners order config)

    -- What comes of two ports that are the same, by who binds it first.
    abbrev pub clash : Order → Config → Option (Started h)
    clash server_first config = none
    clash proxy_first config = some (started config false)

    -- What a second port is bound for, if nothing but the program has ports.
    bind_second :
        (p q : ℕ)
        → q ≢ 0
        → ((ports : List ℕ) (port : ℕ) → ¬ Member port ports → os.bind ports port ≡ true)
        → os.bind (p ∷ []) q ≡ (if eqb p q then false else true)
    bind_second p q nonzero free = elim (Bool-cases (eqb p q)) [
      | inl e ↦ rw e (os.bind_taken (p ∷ []) q (inl (ground arith)) nonzero)
      | inr e ↦ rw e (free (p ∷ []) q (λ at. elim at [ inl same ↦ ground arith | inr n ↦ n ]))
    ]

    -- If the configuration is read, its two ports are not 0, every port that the program has not
    -- bound can be bound, and the HTTP server can listen: then `main` starts the proxy and the
    -- server, in either order, where the ports differ; where they are the same, it panics if the
    -- server binds it first, and starts the proxy with no server if the proxy does.
    pub main-ports :
        (env : Envy) (order : Order) (config : Config)
        → get_config env ≡ some config
        → config.proxy_port ≢ 0
        → config.fault_config_server_port ≢ 0
        → ((ports : List ℕ) (port : ℕ) → ¬ Member port ports → os.bind ports port ≡ true)
        → os.listen ≡ true
        → main env order ≡ (
            if eqb config.proxy_port config.fault_config_server_port
            then clash order config
            else some (started config true))
    unfolding main
    main-ports env server_first config read p q free listen =
        rw
          (
            read,
            free [] config.fault_config_server_port (λ at. at),
            listen,
            bind_second config.fault_config_server_port config.proxy_port p free,
          )
          (ground arith)
    main-ports env proxy_first config read p q free listen =
        rw
          (
            read,
            free [] config.proxy_port (λ at. at),
            listen,
            bind_second config.proxy_port config.fault_config_server_port q free,
          )
          (ground arith)

    -- If the configuration is read, the port of the proxy can be bound and that of the fault
    -- configuration server cannot, then `main` starts the proxy all the same, with no server by which
    -- a fault could be configured, whatever the order.
    pub main-no_server :
        (env : Envy) (order : Order) (config : Config)
        → get_config env ≡ some config
        → os.bind [] config.proxy_port ≡ true
        → ((ports : List ℕ) → os.bind ports config.fault_config_server_port ≡ false)
        → main env order ≡ some (started config false)
    unfolding main
    main-no_server env server_first config read free taken = rw (read, taken [], free)
    main-no_server env proxy_first config read free taken =
        rw (read, free, taken (config.proxy_port ∷ []))
