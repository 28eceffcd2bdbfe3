-- ===== src/Program/Race.antt =====
-- Two POSTs for one command in the program of main.rs: between the two sections of `store_fault` in
-- fault_config_server/handler.rs, another request can run.
use red_monkey.Common.{ℕ, codes, ◌≡◌, ◌≢◌, sym, ◌∙◌, refl, some, List, [], ◌∷◌}
use red_monkey.Common.Int.{ℤ}
use red_monkey.Store.Fault.{Fault}
use red_monkey.Store.Interface.{FaultStore, IsTable}
use red_monkey.FaultConfigServer.Http.{created, empty_response}
use red_monkey.FaultConfigServer.Handler.{stamp}
use red_monkey.FaultConfigServer.Handler.Race.{
  NoConflict, store_fault_check-ok, store_fault_write_lem, table-written_first,
  table-written_second, not-IsValid-written,
}
use red_monkey.FaultConfigServer.Handler.Invariant.{IsValid}
use red_monkey.FaultConfigServer.Server.{HttpRequest, post, responded, Matcher}
use red_monkey.FaultConfigServer.Server.Routing.{dispatch-routes}
use red_monkey.Proxy.RespUtil.{Resp, UrlCrate}
use red_monkey.Proxy.Connection.{OriginServerConfig}
use red_monkey.Program.{
  waiting, checked, replied, System, start, updated, section, advanced, arrive, advance, Reach,
  here, next,
}

abbrev pub post_of : {T : Type 0} → T → Fault T → HttpRequest T
post_of now fault = record { method = post; path = codes "/fault"; body = some fault; time = now }

module _ {T : Type 0} (d : FaultStore T) (c : IsTable d) (timestamp : T → ℤ) (m : Matcher) where
  -- The sections of the tasks that a schedule picks, in its order.
  unfoldable run_sections : List ℕ → System d → System d
  run_sections [] y = y
  run_sections (i ∷ schedule) y = run_sections schedule (advanced d timestamp m i y)

  section-post :
      (now : T) (fault : Fault T) (s : d.Store)
      → NoConflict d c fault s
      → section d timestamp m (waiting (post_of now fault)) s ≡ (checked (stamp now fault), s)
  unfolding section
  section-post now fault s new =
      let e = (dispatch-routes m [] (codes "x") refl).0.0.1 in
      rw (e, store_fault_check-ok d c (stamp now fault) s new) refl

  section-write :
      (fault : Fault T) (s : d.Store)
      → section d timestamp m (checked fault) s
        ≡ (replied (responded (empty_response created)), (d.store s fault.name fault).1)
  unfolding section
  section-write fault s = rw (store_fault_write_lem d c fault s) refl

  -- Both POSTs have arrived.
  abbrev both_posted : d.Store → T → T → Fault T → Fault T → System d
  both_posted s now later a b = record (start d s) {
    tasks =
        updated (updated (start d s).tasks 0 (waiting (post_of now a))) 1
          (waiting (post_of later b));
    posted = (1, post_of later b) ∷ (0, post_of now a) ∷ [];
  }

  run_sections-both_posted :
      (s : d.Store) (now later : T) (a b : Fault T)
      → a.name ≢ b.name
      → a.command ≡ b.command
      → NoConflict d c a s
      → let y = run_sections (0 ∷ 1 ∷ 0 ∷ 1 ∷ []) (both_posted s now later a b) in
        (y.tasks 0 ≡ replied (responded (empty_response created)))
        × (y.tasks 1 ≡ replied (responded (empty_response created)))
        × (c.table y.store a.name ≡ some (stamp now a))
        × (c.table y.store b.name ≡ some (stamp later b))
        × ¬ IsValid (c.table y.store)
  unfolding run_sections
  run_sections-both_posted s now later a b ne same new =
      rw
        (
          section-post now a s new,
          section-post later b s (λ k g e q. new k g e (q ∙ sym same)),
          section-write (stamp now a) s,
          section-write (stamp later b) (d.store s a.name (stamp now a)).1,
        )
        (
          refl,
          refl,
          table-written_first d c s (stamp now a) (stamp later b) ne,
          table-written_second d c s (stamp now a) (stamp later b) ne,
          not-IsValid-written d c s (stamp now a) (stamp later b) ne same,
        )

  module _ (r : Resp) (u : UrlCrate) (config : OriginServerConfig) where
    Reach-run_sections :
        (schedule : List ℕ) {y z : System d}
        → Reach d timestamp m r u config y z
        → Reach d timestamp m r u config y (run_sections schedule z)
    unfolding run_sections
    Reach-run_sections [] h = h
    Reach-run_sections (i ∷ schedule) h = Reach-run_sections schedule (next h (advance i))

    -- Whatever table of faults the program starts on, if no fault in it is for their command, two
    -- POSTs of different names for one command can both be answered 201 and both be stored, and
    -- then the table has two faults for one command.
    pub Reach-race :
        (s : d.Store) (now later : T) (a b : Fault T)
        → a.name ≢ b.name
        → a.command ≡ b.command
        → NoConflict d c a s
        → (y : System d) × Reach d timestamp m r u config (start d s) y
          × (y.tasks 0 ≡ replied (responded (empty_response created)))
          × (y.tasks 1 ≡ replied (responded (empty_response created)))
          × (c.table y.store a.name ≡ some (stamp now a))
          × (c.table y.store b.name ≡ some (stamp later b))
          × ¬ IsValid (c.table y.store)
    Reach-race s now later a b ne same new =
        let (first, second, at_a, at_b, bad) =
          run_sections-both_posted s now later a b ne same new in
        (
          run_sections (0 ∷ 1 ∷ 0 ∷ 1 ∷ []) (both_posted s now later a b),
          Reach-run_sections (0 ∷ 1 ∷ 0 ∷ 1 ∷ [])
              (next (next here (arrive 0 (post_of now a) refl)) (arrive 1 (post_of later b) refl)),
          first,
          second,
          at_a,
          at_b,
          bad,
        )
