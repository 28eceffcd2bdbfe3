-- ===== src/FaultConfigServer/Handler/Schedules.antt =====
-- Any number of POST /fault requests, whose sections `Race` runs in any order.
use red_monkey.Common.{ℕ, ◌≡◌, ◌≢◌, none, true, is_some, List, [], ◌∷◌, arith}
use red_monkey.Common.Int.{ℤ}
use red_monkey.Store.Interface.{FaultStore, IsTable}
use red_monkey.FaultConfigServer.Handler.{get_all_faults}
use red_monkey.FaultConfigServer.Handler.Invariant.{IsOrderly, put-IsOrderly}
use red_monkey.FaultConfigServer.Handler.Listing.{get_all_faults_lem}
use red_monkey.FaultConfigServer.Handler.Race.{
  Phase, waiting, checked, answered, Request, System, advance, advance_phase, run, with_phase,
  store_fault_write_lem,
}

module _ {T : Type 0} where
  abbrev pub AllStamped : (ℕ → Request T) → Type 0
  AllStamped requests = (i : ℕ) → is_some (requests i).fault.last_modified ≡ true

module _ {T : Type 0} (d : FaultStore T) (c : IsTable d) where
  with_phase-AllStamped :
      (requests : ℕ → Request T) (i : ℕ) (phase : Phase T)
      → AllStamped requests
      → AllStamped (with_phase d requests i phase)
  with_phase-AllStamped requests i phase h j = ground (arith, h j)

  -- The requests carry the time of their arrival, and the table is orderly.
  record IsRunning (y : System d) : Type 0 where
    pub all_stamped : AllStamped y.requests
    pub orderly : IsOrderly (c.table y.store)

  advance_phase-IsRunning :
      (i : ℕ) (y : System d) (phase : Phase T) → IsRunning y → IsRunning (advance_phase d i y phase)
  advance_phase-IsRunning i y waiting v = record {
    all_stamped = with_phase-AllStamped y.requests i _ v.all_stamped;
    orderly = v.orderly;
  }
  advance_phase-IsRunning i y checked v =
      let fault = (y.requests i).fault in
      rw (store_fault_write_lem d c fault y.store) (record {
        all_stamped = with_phase-AllStamped y.requests i _ v.all_stamped;
        orderly =
            put-IsOrderly (c.table y.store) _ fault v.orderly (v.all_stamped i)
              (c.table-store y.store fault.name fault);
      })
  advance_phase-IsRunning i y (answered a) v = v

  run-IsRunning : (schedule : List ℕ) (y : System d) → IsRunning y → IsRunning (run d schedule y)
  unfolding run advance
  run-IsRunning [] y v = v
  run-IsRunning (i ∷ schedule) y v =
      run-IsRunning schedule _ (advance_phase-IsRunning i y (y.requests i).phase v)

  -- On a store that is an orderly table, the sections of any number of POSTs, whose faults have the
  -- time of the request, can run in any order, and any of them may be left unfinished: the table
  -- stays orderly, and GET /faults does not panic afterwards.
  pub run-IsOrderly :
      (timestamp : T → ℤ) (schedule : List ℕ) (y : System d)
      → AllStamped y.requests
      → IsOrderly (c.table y.store)
      → let s = (run d schedule y).store in
        IsOrderly (c.table s) × (get_all_faults d timestamp s ≢ none)
  run-IsOrderly timestamp schedule y h v =
      let w = (run-IsRunning schedule y (record { all_stamped = h; orderly = v })).orderly in
      let (faults, e, _, _, _) = get_all_faults_lem timestamp d c _ w in (w, λ n. cc (n, e))
