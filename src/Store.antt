-- ===== src/Store.antt =====
-- store/: the fault configurations, the trait of a fault store and the in-memory store.
pub mod Fault
pub mod Interface
pub mod HashMap
pub mod Entries
pub mod Same
pub mod Lowercase
pub mod Mem
