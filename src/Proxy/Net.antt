-- ===== src/Proxy/Net.antt =====
-- The network and the timer as the proxy sees them (`tokio`, `tokio_native_tls`, the operating
-- system): what each call answers for one client connection, and the record of what was done. The
-- answers are a parameter, so that theorems hold for any of them.
use red_monkey.Common.{ℕ, Text, Bytes, Option, none, some, List, [], ◌∷◌, Result, ok, err, take}
use red_monkey.Proxy.Error.{AnyError, io_error, tls_error}

-- How writing a buffer ends: all of it is written, or a call fails after `n` bytes of it.
pub data WriteOutcome : Type 0 where
  wrote_all : WriteOutcome
  write_failed : ℕ → Text → WriteOutcome

-- Each of these calls is made at most once for a connection.
pub record Net : Type 0 where
  -- The items of the stream of the client's bytes: the chunks that it sends, until it closes or a
  -- read fails.
  pub client_stream : List (Result Text Bytes)
  pub client_write : Bytes → WriteOutcome
  pub client_shutdown : Result Text (Unit {0})
  -- `to_socket_addrs`
  pub to_socket_addrs : Text → Result Text (List Text)
  pub connect : Text → Result Text (Unit {0})
  -- `TlsConnector::builder().build()`, and the handshake for a host name.
  pub tls_build : Result Text (Unit {0})
  pub tls_connect : Text → Result Text (Unit {0})

-- `next` of a stream that has not been read; none is its end.
abbrev pub next_item : List (Result Text Bytes) → Option (Result Text Bytes)
next_item [] = none
next_item (item ∷ rest) = some item

abbrev pub client_next : Net → Option (Result Text Bytes)
client_next net = next_item net.client_stream

-- What the proxy did: the bytes that reached the client, the milliseconds slept, the addresses
-- that it connected to.
pub data Event : Type 0 where
  client_wrote : Bytes → Event
  client_shut : Event
  slept : ℕ → Event
  connected : Text → Event
  handshake : Text → Event

-- The events so far, the newest first.
abbrev pub Trace : Type 0
Trace = List Event

-- A piece of asynchronous code that can fail. What it did stays done.
abbrev pub Exec : Type 0 → Type 0
Exec A = Trace → Result AnyError A × Trace

module _ {A : Type 0} where
  abbrev pub pure : A → Exec A
  pure a t = (ok a, t)

  abbrev pub lift : Result AnyError A → Exec A
  lift r t = (r, t)

infixl 5 ◌>>=◌ ◌>>◌
abbrev pub ◌>>=◌ : {A B : Type 0} → Exec A → (A → Exec B) → Exec B
◌>>=◌ m f t = let (r, t') = m t in elim r [ ok a ↦ f a t' | err e ↦ (err e, t') ]

abbrev pub ◌>>◌ : {A B : Type 0} → Exec A → Exec B → Exec B
m >> k = m >>= λ _. k

abbrev pub emit : Event → Exec (Unit {0})
emit e t = (ok tt, e ∷ t)

abbrev pub io : {A : Type 0} → Result Text A → Exec A
io (ok a) t = (ok a, t)
io (err m) t = (err (io_error m), t)

abbrev pub tls : {A : Type 0} → Result Text A → Exec A
tls (ok a) t = (ok a, t)
tls (err m) t = (err (tls_error m), t)

abbrev pub written : Bytes → WriteOutcome → Exec (Unit {0})
written bytes wrote_all t = (ok tt, client_wrote bytes ∷ t)
written bytes (write_failed n m) t = (err (io_error m), client_wrote (take n bytes) ∷ t)

-- `io::copy` of a buffer to the client, and `shutdown` of its write half.
abbrev pub copy_to_client : Net → Bytes → Exec (Unit {0})
copy_to_client net bytes = written bytes (net.client_write bytes)

abbrev pub shutdown_client : Net → Exec (Unit {0})
shutdown_client net = io net.client_shutdown >> emit client_shut

abbrev pub connect_to : Net → Text → Exec (Unit {0})
connect_to net addr = io (net.connect addr) >> emit (connected addr)
