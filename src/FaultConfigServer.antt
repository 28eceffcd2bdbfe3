-- ===== src/FaultConfigServer.antt =====
-- fault_config_server/: the HTTP handlers that configure faults, and the routes to them.
pub mod Http
pub mod Sort
pub mod Handler
pub mod Server
pub mod Api
