-- ===== src/Proxy/Relay/Invariant.antt =====
-- The bytes of the request and of the response at the end of `handle` in proxy/connection.rs, under
-- a schedule of polls.
use red_monkey.Common.{
  ℕ, zero, suc, Bytes, ◌≡◌, refl, sym, ap, ◌∙◌, true, some, List, [], ◌∷◌, ◌++◌, append_assoc,
  append-nil, ok, take, drop, take-append-drop, arith, Option-cases, inl, inr,
}
use red_monkey.Proxy.Relay.{
  Relay, Poll, send, receive, deliver, close_server, close_client, upload_failed, download_failed,
  poll, run, progress, joined, open_relay, is_empty,
}

-- What was written is a part of what there was to write, in order, and nothing is closed early.
pub record IsFaithful (request response : Bytes) (c : Relay) : Type 0 where
  pub upload : c.server_got ++ c.unsent ≡ request
  pub download : c.client_got ++ (c.buffer ++ c.incoming) ≡ response
  pub uploaded : c.upload_done ≡ true → c.unsent ≡ []
  pub read_all : c.at_end ≡ true → c.buffer ++ c.incoming ≡ []
  pub downloaded : c.download_done ≡ true → c.at_end ≡ true

moved : (got rest : Bytes) (n : ℕ) → (got ++ take n rest) ++ drop n rest ≡ got ++ rest
moved got rest n = append_assoc got _ _ ∙ ap (λ (s : Bytes). got ++ s) (take-append-drop n rest)

moved_front :
    (got buffer rest : Bytes) (n : ℕ)
    → (got ++ take n buffer) ++ (drop n buffer ++ rest) ≡ got ++ (buffer ++ rest)
moved_front got buffer rest n =
    sym (append_assoc (got ++ take n buffer) _ _)
    ∙ ap (λ (s : Bytes). s ++ rest) (moved got buffer n)
    ∙ append_assoc got buffer rest

nil-is_empty : (s : Bytes) → is_empty s ≡ true → s ≡ []
nil-is_empty [] h = refl
nil-is_empty (b ∷ s) h = cc

-- Nothing is left after a part of nothing is moved.
ends : (s t : Bytes) (n : ℕ) → s ++ t ≡ [] → drop n s ++ t ≡ []
ends [] t zero h = h
ends [] t (suc n) h = h
ends (b ∷ s) t n h = cc

open_relay-IsFaithful :
    (request response : Bytes) → IsFaithful request response (open_relay request response)
open_relay-IsFaithful request response = ground arith

module _ {request response : Bytes} where
  progress-IsFaithful :
      (p : Poll) (c : Relay)
      → IsFaithful request response c
      → IsFaithful request response (progress p c)
  progress-IsFaithful (send n) c v = ground (arith, moved c.server_got c.unsent (suc n))
  progress-IsFaithful close_server c v = ground (arith, nil-is_empty c.unsent)
  progress-IsFaithful (upload_failed e) c v = ground arith
  progress-IsFaithful (receive n) c v =
      ground
        (arith, nil-is_empty c.buffer, nil-is_empty c.incoming, take-append-drop (suc n) c.incoming)
  progress-IsFaithful (deliver n) c v = ground (
    arith,
    moved_front c.client_got c.buffer c.incoming (suc n),
    take-append-drop (suc n) c.buffer,
    ends c.buffer c.incoming (suc n),
  )
  progress-IsFaithful close_client c v = ground arith
  progress-IsFaithful (download_failed e) c v = ground arith

  poll-IsFaithful :
      (p : Poll) (c : Relay)
      → IsFaithful request response c
      → IsFaithful request response (poll p c)
  unfolding poll
  poll-IsFaithful p c v = elim (Option-cases c.failure) [
    | inl e ↦ ground (arith, progress-IsFaithful p c v)
    | inr (m, e) ↦ ground arith
  ]

  run-IsFaithful :
      (schedule : List Poll) (c : Relay)
      → IsFaithful request response c
      → IsFaithful request response (run schedule c)
  unfolding run
  run-IsFaithful [] c v = v
  run-IsFaithful (p ∷ schedule) c v = run-IsFaithful schedule (poll p c) (poll-IsFaithful p c v)

  joined-IsFaithful :
      (c : Relay)
      → IsFaithful request response c
      → joined c ≡ some (ok tt)
      → (c.server_got ≡ request) × (c.client_got ≡ response)
  joined-IsFaithful c v h = ground (arith, append-nil c.server_got, append-nil c.client_got)

-- Under every schedule, at every moment, what the server has got is a beginning of the request, and
-- what the client has got is a beginning of the response.
pub relay_prefixes :
    (request response : Bytes) (schedule : List Poll)
    → let c = run schedule (open_relay request response) in
      (c.server_got ++ c.unsent ≡ request) × (c.client_got ++ (c.buffer ++ c.incoming) ≡ response)
relay_prefixes request response schedule =
    let v =
      run-IsFaithful schedule (open_relay request response)
        (open_relay-IsFaithful request response) in
    (v.upload, v.download)

-- If the join succeeds, the server has got the whole request and the client the whole response,
-- unchanged, whatever the schedule.
pub joined_complete :
    (request response : Bytes) (schedule : List Poll)
    → joined (run schedule (open_relay request response)) ≡ some (ok tt)
    → let c = run schedule (open_relay request response) in
      (c.server_got ≡ request) × (c.client_got ≡ response)
joined_complete request response schedule h =
    joined-IsFaithful (run schedule (open_relay request response))
      (run-IsFaithful schedule (open_relay request response)
        (open_relay-IsFaithful request response))
      h
