-- ===== src/FaultConfigServer/Handler/Race.antt =====
-- Several POST /fault requests at once. `store_fault` of fault_config_server/handler.rs takes the
-- read lock for the check and, after it has been released, the write lock for the store, so other
-- requests can run between the two sections.
use red_monkey.Common.{
  ℕ, Text, ◌≡◌, ◌≢◌, refl, sym, ◌∙◌, some, List, [], ◌∷◌, ==_refl, if◌then◌else◌, eqb, arith,
  Result, ok, err, map,
}
use red_monkey.Store.Fault.{Fault}
use red_monkey.Store.Entries.{lookup-Member}
use red_monkey.Store.Interface.{FaultStore, IsTable, value}
use red_monkey.FaultConfigServer.Http.{ServerErrorResponse, created, empty_response}
use red_monkey.FaultConfigServer.Handler.{Answer, store_fault_check, store_fault_write}
use red_monkey.FaultConfigServer.Handler.Replies.{Found, find_conflict-Found}
use red_monkey.FaultConfigServer.Handler.Invariant.{IsValid}

-- Where a request stands: before the check, between the sections, or answered.
pub data Phase (T : Type 0) : Type 0 where
  waiting checked : Phase T
  answered : Answer T → Phase T

-- The faults are the bodies with the time of the request.
pub record Request (T : Type 0) : Type 0 where
  pub fault : Fault T
  pub phase : Phase T

module _ {T : Type 0} (d : FaultStore T) where
  pub record System : Type 0 where
    pub store : d.Store
    pub requests : ℕ → Request T

module _ {T : Type 0} (d : FaultStore T) where
  abbrev pub with_phase : (ℕ → Request T) → ℕ → Phase T → ℕ → Request T
  with_phase requests i phase j =
      if eqb i j then record { fault = (requests j).fault; phase = phase } else requests j

  abbrev check_phase : Result ServerErrorResponse (Unit {0}) → Phase T
  check_phase (ok _) = checked
  check_phase (err e) = answered (err e)

  abbrev pub advance_phase : ℕ → System d → Phase T → System d
  advance_phase i y waiting = record y {
    requests =
        with_phase y.requests i (check_phase (store_fault_check d (y.requests i).fault y.store));
  }
  advance_phase i y checked =
      let (answer, store') = store_fault_write d (y.requests i).fault y.store in
      record { store = store'; requests = with_phase y.requests i (answered answer) }
  advance_phase i y (answered answer) = y

  -- Request `i` runs its next section.
  unfoldable pub advance : ℕ → System d → System d
  advance i y = advance_phase i y (y.requests i).phase

  -- The sections in the order of a schedule.
  unfoldable pub run : List ℕ → System d → System d
  run [] y = y
  run (i ∷ schedule) y = run schedule (advance i y)

  abbrev pub two_requests : d.Store → Fault T → Fault T → System d
  two_requests s a b = record {
    store = s;
    requests = λ i. record { fault = if eqb i 0 then a else b; phase = waiting };
  }

  module _ (c : IsTable d) where
    abbrev pub NoConflict : Fault T → d.Store → Type 0
    NoConflict fault s = (k : Text) (g : Fault T) → c.table s k ≡ some g → g.command ≢ fault.command

    Found-ok :
        (fault : Fault T) (s : d.Store) (r : Result ServerErrorResponse (Unit {0}))
        → Found fault (map value (c.entries s)) r
        → NoConflict fault s
        → r ≡ ok tt
    Found-ok fault s (ok u) f h = refl
    Found-ok fault s (err e) (same, g, m, eq) h =
        let (k, at) = lookup-Member g (c.entries s) (c.entries-NodupKeys s) m in
        absurd (h k g (sym (c.lookup-entries s k) ∙ at) eq)

    pub store_fault_check-ok :
        (fault : Fault T) (s : d.Store) → NoConflict fault s → store_fault_check d fault s ≡ ok tt
    unfolding store_fault_check
    store_fault_check-ok fault s h =
        rw (c.all_reply s)
          (Found-ok fault s _ (find_conflict-Found fault (map value (c.entries s))) h)

    pub store_fault_write_lem :
        (fault : Fault T) (s : d.Store)
        → store_fault_write d fault s
          ≡ (ok (empty_response created), (d.store s fault.name fault).1)
    unfolding store_fault_write
    store_fault_write_lem fault s = rw (c.store_reply s fault.name fault)

    -- The table after both faults are written.
    module _ (s : d.Store) (a b : Fault T) (ne : a.name ≢ b.name) where
      abbrev pub written : d.Store
      written = (d.store (d.store s a.name a).1 b.name b).1

      pub table-written_first : c.table written a.name ≡ some a
      table-written_first =
          c.table-store (d.store s a.name a).1 b.name b a.name
          ∙ ground (arith, c.table-store s a.name a a.name)

      pub table-written_second : c.table written b.name ≡ some b
      table-written_second =
          c.table-store (d.store s a.name a).1 b.name b b.name ∙ rw (==_refl b.name)

      pub not-IsValid-written : a.command ≡ b.command → ¬ IsValid (c.table written)
      not-IsValid-written same v =
          ne (v.one_per_command a.name b.name a b table-written_first table-written_second same)

    -- On a store that is a table, two requests for one command, under different names, are both
    -- answered 201 and both stored if each checks before the other writes, though no stored fault
    -- was for the command. The table then has two faults for one command.
    pub race_stores_both :
        (s : d.Store) (a b : Fault T)
        → a.name ≢ b.name
        → a.command ≡ b.command
        → NoConflict a s
        → let y = run (0 ∷ 1 ∷ 0 ∷ 1 ∷ []) (two_requests s a b) in
          ((y.requests 0).phase ≡ answered (ok (empty_response created)))
          × ((y.requests 1).phase ≡ answered (ok (empty_response created)))
          × (c.table y.store a.name ≡ some a)
          × (c.table y.store b.name ≡ some b)
          × ¬ IsValid (c.table y.store)
    unfolding run advance
    race_stores_both s a b ne same new =
        rw
          (
            store_fault_check-ok a s new,
            store_fault_check-ok b s (λ k g e q. new k g e (q ∙ sym same)),
            store_fault_write_lem a s,
            store_fault_write_lem b (d.store s a.name a).1,
          )
          (
            refl,
            refl,
            table-written_first s a b ne,
            table-written_second s a b ne,
            not-IsValid-written s a b ne same,
          )
