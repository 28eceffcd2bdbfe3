-- ===== src/Startup/Accept.antt =====
-- Which clients the loop of `main` in main.rs serves.
use red_monkey.Common.{◌≡◌, refl, ap, ◌⊎◌, inl, inr, List, [], ◌∷◌, ◌++◌, map}
use red_monkey.Startup.{Arrival, accepted, accept_failed, ctrl_c, proxy_loop, wait_for_ctrl_c}

module _ {Socket : Type 0} where
  wait_for_ctrl_c-nil : (arrivals : List (Arrival Socket)) → wait_for_ctrl_c arrivals ≡ []
  unfolding wait_for_ctrl_c
  wait_for_ctrl_c-nil [] = refl
  wait_for_ctrl_c-nil (ctrl_c ∷ arrivals) = refl
  wait_for_ctrl_c-nil (accepted socket ∷ arrivals) = wait_for_ctrl_c-nil arrivals
  wait_for_ctrl_c-nil (accept_failed ∷ arrivals) = wait_for_ctrl_c-nil arrivals

  proxy_loop-ctrl_c :
      (sockets : List Socket) (later : List (Arrival Socket))
      → proxy_loop (map accepted sockets ++ ctrl_c ∷ later) ≡ sockets
  unfolding proxy_loop
  proxy_loop-ctrl_c [] later = refl
  proxy_loop-ctrl_c (x ∷ sockets) later =
      ap (λ (l : List Socket). x ∷ l) (proxy_loop-ctrl_c sockets later)

  proxy_loop-accept_failed :
      (sockets : List Socket) (later : List (Arrival Socket))
      → proxy_loop (map accepted sockets ++ accept_failed ∷ later) ≡ sockets
  unfolding proxy_loop
  proxy_loop-accept_failed [] later = wait_for_ctrl_c-nil later
  proxy_loop-accept_failed (x ∷ sockets) later =
      ap (λ (l : List Socket). x ∷ l) (proxy_loop-accept_failed sockets later)

  -- If clients are accepted and then ctrl-c comes or `accept` fails, the loop serves those clients in
  -- order and no further one, whatever arrives later.
  pub proxy_loop-stops :
      (sockets : List Socket) (stop : Arrival Socket) (later : List (Arrival Socket))
      → (stop ≡ ctrl_c) ⊎ (stop ≡ accept_failed)
      → proxy_loop (map accepted sockets ++ stop ∷ later) ≡ sockets
  proxy_loop-stops sockets stop later (inl e) = rw e (proxy_loop-ctrl_c sockets later)
  proxy_loop-stops sockets stop later (inr e) = rw e (proxy_loop-accept_failed sockets later)
