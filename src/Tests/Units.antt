-- ===== src/Tests/Units.antt =====
-- The unit tests of the source as functions into `Bool`: whether the assertions of a test hold. The
-- runtime of the tests, their ports and their sockets are left out.
mod Asserts
mod StoreTests
mod HandlerTests
mod FaulterTests
mod RespTests
mod ConnectionTests
