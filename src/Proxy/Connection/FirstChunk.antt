-- ===== src/Proxy/Connection/FirstChunk.antt =====
-- What `Connection::handle` in proxy/connection.rs does with the stream of the client's bytes: it
-- takes one item of it.
use red_monkey.Common.{Text, Bytes, ◌≡◌, sym, ap, ◌∙◌, some, List, ◌∷◌, ◌++◌, Result, ok, arith}
use red_monkey.Store.Interface.{FaultStore}
use red_monkey.Proxy.RespUtil.{Resp, UrlCrate}
use red_monkey.Proxy.Net.{Net, next_item}
use red_monkey.Proxy.Relay.{Relay, Poll}
use red_monkey.Proxy.Relay.Invariant.{relay_prefixes}
use red_monkey.Proxy.Connection.{OriginServerConfig, handle, request_bytes}
use red_monkey.Proxy.Connection.Proxied.{handle-relay}

ok-injective : {A B : Type 0} (a b : A) → ◌≡◌ {A = Result B A} (ok a) (ok b) → a ≡ b
ok-injective a b e = ground (arith, e)

module _ {T : Type 0} (r : Resp) (u : UrlCrate) (d : FaultStore T) (config : OriginServerConfig)
    (net : Net) (s : d.Store) (response : Bytes) (schedule : List Poll) where
  -- If a client has sent a chunk of bytes and then others, and its connection comes to the relay,
  -- then at every moment what the origin server has got is a beginning of the first chunk, and the
  -- rest of that chunk is all that is still to be sent: the later ones never reach it.
  pub handle-first_chunk :
      (chunk : Bytes) (later : List (Result Text Bytes)) (c : Relay)
      → net.client_stream ≡ ok chunk ∷ later
      → (handle r u d config net s response schedule).relay ≡ some c
      → c.server_got ++ c.unsent ≡ chunk
  handle-first_chunk chunk later c sent h =
      let (body, fault, x) = handle-relay r u d config net s response schedule c h in
      let (received, _, _, _, relay) = x in
      rw relay (
        (relay_prefixes body response schedule).0
        ∙ ok-injective body chunk
            (sym received ∙ ap (λ stream. request_bytes (next_item stream)) sent))
