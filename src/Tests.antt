-- ===== src/Tests.antt =====
-- Concrete values for the parameters of the model, the fixtures of the unit tests in the source,
-- and the theorems at concrete inputs.
mod AssocMap
mod Crates
mod Paths
mod Fixtures
mod ProxyExamples
mod ConnectionExamples
mod FateExamples
mod StartupExamples
mod SessionExamples
mod Units
mod StoreExamples
mod ServerExamples
mod HandlerExamples
mod ProgramExamples
mod SerialExamples
