-- ===== src/Proxy/Relay/Progress.antt =====
-- How many rounds of polls are left until the two futures at the end of `handle` in
-- proxy/connection.rs have ended, when no poll fails.
use red_monkey.Common.{
  ℕ, zero, suc, ◌+◌, ◌≤◌, ◌<◌, Bytes, ◌≡◌, refl, ◌∙◌, true, false, Bool-cases, none, some, List, [],
  ◌∷◌, ◌++◌, ok, length, arith, inl, inr, ◌⊎◌, if◌then◌else◌,
}
use red_monkey.Proxy.Relay.{
  Relay, Poll, send, receive, deliver, close_server, close_client, poll, run, joined, open_relay,
}

-- Each step once.
abbrev pub round : List Poll
round = send 0 ∷ close_server ∷ receive 0 ∷ deliver 0 ∷ close_client ∷ []

abbrev pub rounds : ℕ → List Poll
rounds zero = []
rounds (suc n) = round ++ rounds n

-- How much of each direction is left.
abbrev up_left : Relay → ℕ
up_left c = length c.unsent + (if c.upload_done then 0 else 1)

abbrev down_left : Relay → ℕ
down_left c =
    length c.buffer
    + (length c.incoming + length c.incoming)
    + ((if c.at_end then 0 else 1) + (if c.download_done then 0 else 1))

abbrev upload_round : Relay → Relay
upload_round c = poll close_server (poll (send 0) c)

abbrev download_round : Relay → Relay
download_round c = poll close_client (poll (deliver 0) (poll (receive 0) c))

-- A round of the upload leaves the download alone, and does something unless the upload is done.
record UploadStep (c c' : Relay) : Type 0 where
  failure : c'.failure ≡ none
  down : down_left c' ≡ down_left c
  download_done : c'.download_done ≡ c.download_done
  keeps : c.upload_done ≡ true → c'.upload_done ≡ true
  at_most : up_left c' ≤ up_left c
  less : c.upload_done ≡ false → up_left c' < up_left c

record DownloadStep (c c' : Relay) : Type 0 where
  failure : c'.failure ≡ none
  up : up_left c' ≡ up_left c
  upload_done : c'.upload_done ≡ c.upload_done
  keeps : c.download_done ≡ true → c'.download_done ≡ true
  at_most : down_left c' ≤ down_left c
  less : c.download_done ≡ false → down_left c' < down_left c

upload_fields :
    (u : Bytes) (c : Relay) → c.unsent ≡ u → c.failure ≡ none → UploadStep c (upload_round c)
unfolding poll
upload_fields [] c e f = ground arith
upload_fields (x ∷ []) c e f = ground arith
upload_fields (x ∷ y ∷ u) c e f = ground arith

download_fields :
    (b i : Bytes) (c : Relay)
    → c.buffer ≡ b
    → c.incoming ≡ i
    → c.failure ≡ none
    → DownloadStep c (download_round c)
unfolding poll
download_fields [] [] c eb ei f = ground arith
download_fields [] (y ∷ i) c eb ei f = ground arith
download_fields (x ∷ b) i c eb ei f = ground arith

-- What is left of a relay: the steps that bring it to its end.
abbrev pub left : Relay → ℕ
left c = up_left c + down_left c

-- Both futures are done, or at most `n` is left.
abbrev Near : ℕ → Relay → Type 0
Near n c = ((c.upload_done ≡ true) × (c.download_done ≡ true)) ⊎ (left c ≤ n)

not_both_left : (c : Relay) {n : ℕ} → c.upload_done ≡ false → Near n c → left c ≤ n
not_both_left c u (inl (x, y)) = cc
not_both_left c u (inr h) = h

not_both_right : (c : Relay) {n : ℕ} → c.download_done ≡ false → Near n c → left c ≤ n
not_both_right c d (inl (x, y)) = cc
not_both_right c d (inr h) = h

steps-Near :
    (c c' c'' : Relay) (n : ℕ) → UploadStep c c' → DownloadStep c' c'' → Near (suc n) c → Near n c''
steps-Near c c' c'' n up down h = elim (Bool-cases c.upload_done) [
  | inl u ↦ elim (Bool-cases c.download_done) [
    | inl d ↦ inl (down.upload_done ∙ up.keeps u, down.keeps (up.download_done ∙ d))
    | inr d ↦ inr (omega (arith, down.less (up.download_done ∙ d), not_both_right c d h))
  ]
  | inr u ↦ inr (omega (arith, up.less u, not_both_left c u h))
]

rounds-joined :
    (n : ℕ) (c : Relay) → c.failure ≡ none → Near n c → joined (run (rounds n) c) ≡ some (ok tt)
unfolding run
rounds-joined zero c f h = ground arith
rounds-joined (suc n) c f h =
    let up = upload_fields c.unsent c refl f in
    let down = download_fields _ _ (upload_round c) refl refl up.failure in
    rounds-joined n (download_round (upload_round c)) down.failure
      (steps-Near c (upload_round c) (download_round (upload_round c)) n up down h)

-- From any moment that a schedule has reached without a failure, further rounds of one poll of each
-- step, as many as `left` counts, end the join with success.
pub relay_ends :
    (request response : Bytes) (schedule : List Poll)
    → (run schedule (open_relay request response)).failure ≡ none
    → let c = run schedule (open_relay request response) in
      joined (run (rounds (left c)) c) ≡ some (ok tt)
relay_ends request response schedule f = rounds-joined _ _ f (inr (omega arith))
