-- ===== src/Lib.antt =====
-- red-monkey: a proxy between clients and a Redis server that injects faults.
--
-- The program is a binary, main.rs in the folder src. `main` reads its configuration, makes one
-- store of faults, and runs two servers that share it. The fault configuration server
-- (fault_config_server) is an HTTP server whose handlers add, list, fetch and delete faults. The
-- proxy (proxy) accepts TCP clients. For each it reads one chunk of bytes, takes the Redis
-- command from it, asks the store for a fault for that command, and executes it: a delay, an
-- error reply or a dropped connection. Where no fault ends the request, it connects to the origin
-- server and relays the request and the response.
--
-- Which file models what:
-- - Store/Fault and Store/Interface: the types and the trait `FaultStore` of
--   src/store/fault_store.rs. `IsTable` is the contract of the trait: a store is a finite table
--   from names to faults. The handlers are taken over any store that keeps it.
-- - Store/Mem: `MemStore` of src/store/mem_store.rs. Store/Mem/Table is about the contract and
--   Store/Mem/Choice and Store/Mem/Shadow about `get_by_redis_cmd`. Store/Entries and Store/Same
--   are about listings of entries.
-- - FaultConfigServer/Http and FaultConfigServer/Handler: the handlers of
--   src/fault_config_server/handler.rs and their error type, one function per handler with the
--   handler's name; a handler that changes the store yields the answer and the new store. Its
--   child modules are about the replies (Replies), what keeps a table valid (Invariant), the
--   listing (Listing) and what it depends on (Order), deleting all (DeleteAll), requests that
--   are sent again (Repeats), faults whose commands differ in case (Cases), and requests whose
--   lock sections interleave (Race, Schedules). A table is orderly if each fault is under its
--   own name and has a time, and valid if moreover no two faults are for one command. In Order,
--   a listing whose order is forgotten is an element of a quotient by permutation.
-- - FaultConfigServer/Server: the routes of src/fault_config_server/server.rs, with the dispatch
--   of a request (Routing) and sequences of requests (Safety).
-- - FaultConfigServer/Api: the interface of the HTTP server apart from the code, the reply that a
--   request gets from a table and the table that it leaves (`Promised`). Api/Refinement is about
--   the server, and Program/Promises about the program.
-- - Proxy/RespUtil, Proxy/Faulter, Proxy/Connection and Proxy/Relay: the functions of the files
--   resp_util.rs, faulter.rs and connection.rs in src/proxy. Effects go through `Exec` of
--   Proxy/Net: a result or an error, and the events so far, the latest first. `handle` reads,
--   checks, executes and connects (`prepare`), and then runs the relay.
--   Proxy/Connection/Touches is about what is written to the client or shut before the relay,
--   Proxy/Connection/Cuts about faults that end a request on any network,
--   Proxy/Connection/Fates about every case at once, Proxy/Connection/FirstChunk about the
--   stream of the client's bytes, and Proxy/Connection/Configured joins the two halves of the
--   program through the store. Proxy/Error has the error values.
-- - Startup: src/config.rs and src/main.rs. Startup/Main has `main` up to the start of its two
--   servers, whose ports are bound in either order. Startup/Settings is about the
--   configuration, Startup/Tls about what it makes of the origin server, and Startup/Accept
--   about the clients that the loop accepts.
-- - Program: the running program. Its state is the store, where each task of the HTTP server
--   stands, where the loop of the proxy stands, the clients that it has accepted, and what
--   has happened. `Step` lets a request arrive, a task run its next section under the lock of
--   the store (`section`), the loop accept a client, fail to accept one or be interrupted, or
--   the connection of an accepted client run; `Reach` is any number of steps. Its child modules
--   are about one section (Sections), every moment (Reachable), the replies of the server's
--   tasks (Answers), the proxy's clients (Clients), what follows once the loop of the proxy has
--   stopped (Stopping), two POSTs for one command (Race), runs whose POSTs of one command do
--   not overlap (Exclusive), and such runs against a server that serves its requests one after
--   the other (Serial, and Serial/Reads for the clients).
-- - Common has shared notation and lemmas, Utf8 the validity of UTF-8 and its lossy conversion,
--   and Tests the theorems at concrete inputs. Tests/Units has the unit tests of the source, as
--   functions into `Bool` over the fixtures of the source.
--
-- Parameters that stand for other crates, each a record of operations with the laws that the code
-- relies on: `HashMap` (chashmap), `Resp` (resp), `UrlCrate` (url), `Matcher` (the path matcher
-- of actix), `Envy` (envy), `Net` (what the sockets, the resolver and the TLS library answer),
-- and `Os` (which ports can be bound). The lowercase of texts outside ASCII is a parameter too,
-- and so are the seconds of a time. Tests/Crates, Tests/AssocMap and Tests/Paths fill them with
-- functions that compute.
--
-- Choices and bounds. A text is the list of its UTF-8 bytes. `Vec::sort_by` is a stable
-- insertion sort whose comparison may panic (FaultConfigServer/Sort); none is the panic. A lock
-- section is one step; POST has two, and every other request has one. A connection reads the
-- store once, in its check, and so counts as one step of the program. The two futures of the
-- relay are polled by a schedule, a list of what each poll does, with no bound on its length;
-- the rounds that are needed to end it are counted by `left` (in Proxy/Relay/Progress), and no
-- definition takes fuel. Durations are numbers that the code only passes on. `handle` owns the
-- stream of its client, so the connection is closed when it returns (`is_closed`); the drop of
-- the stream is no event of the trace. The code of an error is that of a `StatusCode`, since
-- its field is private and only `new` sets it, so the `unwrap` of `StatusCode::from_u16` gives
-- it back.
--
-- Not modelled: logging and tracing, the worker threads of the HTTP server and its shutdown, its
-- extraction of JSON bodies beyond success and failure, the ports and sockets of the unit tests,
-- `clone_box`, and the adapters `into_bytes_stream` and `AsyncReadWrite`. A client's stream is
-- the list of the chunks that it sends; how the bytes are cut into chunks is left open.
pub mod Common
pub mod Utf8
pub mod Store
pub mod FaultConfigServer
pub mod Proxy
pub mod Startup
pub mod Program
mod Tests
