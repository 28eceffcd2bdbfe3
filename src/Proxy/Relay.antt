-- ===== src/Proxy/Relay.antt =====
-- The end of `Connection::handle` in proxy/connection.rs: the futures `client_to_server` and
-- `server_to_client` under `tokio::try_join!`. The runtime polls them in any order, and each poll
-- moves some bytes; a schedule is the list of what the polls do. The first failure ends both.
pub mod Invariant
pub mod Progress
use red_monkey.Common.{
  ℕ, suc, Text, Bytes, Bool, true, false, ◌&&◌, Option, none, some, List, [], ◌∷◌, ◌++◌, Result, ok,
  err, take, drop, if◌then◌else◌,
}
use red_monkey.Proxy.Error.{AnyError, io_error}

pub record Relay : Type 0 where
  -- `client_to_server`: the bytes of the request that are still to be written, and whether the
  -- future has shut the server's write half down.
  pub unsent : Bytes
  pub server_got : Bytes
  pub upload_done : Bool
  -- `server_to_client`: what the server will still send, the buffer of `io::copy`, whether the end
  -- of the response has been read, and whether the future has shut the client's write half down.
  pub incoming : Bytes
  pub buffer : Bytes
  pub at_end : Bool
  pub client_got : Bytes
  pub download_done : Bool
  -- The failure of one of the futures.
  pub failure : Option Text

-- What a poll does. Writes and reads move at least one byte, `n + 1` at most.
pub data Poll : Type 0 where
  send receive deliver : ℕ → Poll
  close_server close_client : Poll
  upload_failed download_failed : Text → Poll

abbrev is_empty : Bytes → Bool
is_empty [] = true
is_empty (b ∷ s) = false

-- A poll of a future that is done, or of a step that is not next, does nothing.
abbrev progress : Poll → Relay → Relay
progress (send n) c = if c.upload_done then c else record c {
  unsent = drop (suc n) c.unsent;
  server_got = c.server_got ++ take (suc n) c.unsent;
}
progress close_server c = if is_empty c.unsent then record c { upload_done = true } else c
progress (upload_failed e) c = if c.upload_done then c else record c { failure = some e }
progress (receive n) c =
    if is_empty c.buffer
    then (if is_empty c.incoming
        then record c { at_end = true }
        else record c { incoming = drop (suc n) c.incoming; buffer = take (suc n) c.incoming })
    else c
progress (deliver n) c = record c {
  buffer = drop (suc n) c.buffer;
  client_got = c.client_got ++ take (suc n) c.buffer;
}
progress close_client c = if c.at_end then record c { download_done = true } else c
progress (download_failed e) c = if c.download_done then c else record c { failure = some e }

abbrev unless_failed : Option Text → Poll → Relay → Relay
unless_failed none p c = progress p c
unless_failed (some e) p c = c

pub poll : Poll → Relay → Relay
poll p c = unless_failed c.failure p c

unfoldable pub run : List Poll → Relay → Relay
unfolding poll
run [] c = c
run (p ∷ schedule) c = run schedule (poll p c)

abbrev joined_unless : Option Text → Relay → Option (Result AnyError (Unit {0}))
joined_unless (some e) c = some (err (io_error e))
joined_unless none c = if c.upload_done && c.download_done then some (ok tt) else none

-- What `try_join!` yields; none while it waits.
abbrev pub joined : Relay → Option (Result AnyError (Unit {0}))
joined c = joined_unless c.failure c

-- A request that is to be proxied, and the bytes that the server will answer.
abbrev pub open_relay : Bytes → Bytes → Relay
open_relay request response = record {
  unsent = request;
  server_got = [];
  upload_done = false;
  incoming = response;
  buffer = [];
  at_end = false;
  client_got = [];
  download_done = false;
  failure = none;
}
