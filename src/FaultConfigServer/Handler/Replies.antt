-- ===== src/FaultConfigServer/Handler/Replies.antt =====
-- What each handler answers and does to a store that is a table of faults, on every branch.
use red_monkey.Common.{
  Bool-cases, Text, ◌≡◌, ◌≢◌, refl, sym, ◌∙◌, none, some, List, [], ◌∷◌, ◌==◌, ==_iff, ==_refl,
  if◌then◌else◌, All, Member, inl, inr, Result, ok, err, map,
}
use red_monkey.Store.Fault.{Fault}
use red_monkey.Store.Interface.{FaultStore, IsTable, value}
use red_monkey.Store.HashMap.{lookup}
use red_monkey.Store.Entries.{lookup-Member, All-lookup}
use red_monkey.FaultConfigServer.Http.{
  HttpResponse, ServerErrorResponse, created, json_fault, no_content, empty_response,
}
use red_monkey.FaultConfigServer.Handler.{
  Answer, after_check, stamp, conflict_error, find_conflict, store_fault, store_fault_check,
  store_fault_write, delete_fault, get_fault,
}

-- How the loop over the stored faults ends.
abbrev pub Found :
    {T : Type 0} → Fault T → List (Fault T) → Result ServerErrorResponse (Unit {0}) → Type 0
Found {T} fault l (ok _) = All (λ (g : Fault T). g.command ≢ fault.command) l
Found {T} fault l (err e) =
    (e ≡ conflict_error fault) × (g : Fault T) × Member g l × (g.command ≡ fault.command)

Found-cons :
    {T : Type 0} (fault f : Fault T) (l : List (Fault T))
    (r : Result ServerErrorResponse (Unit {0}))
    → f.command ≢ fault.command
    → Found fault l r
    → Found fault (f ∷ l) r
Found-cons fault f l (ok _) ne h = (ne, h)
Found-cons fault f l (err e) ne (same, g, m, c) = (same, g, inr m, c)

pub find_conflict-Found :
    {T : Type 0} (fault : Fault T) (l : List (Fault T)) → Found fault l (find_conflict fault l)
unfolding find_conflict
find_conflict-Found fault [] = tt
find_conflict-Found fault (f ∷ l) = elim (Bool-cases (f.command == fault.command)) [
  | inl e ↦ rw e (refl, f, inl refl, (==_iff _ _).0 e)
  | inr n ↦
      rw n (Found-cons fault f l _ (λ e. cc (n, (==_iff _ _).1 e)) (find_conflict-Found fault l))
]

module _ {T : Type 0} (d : FaultStore T) (c : IsTable d) where
  -- What POST /fault does to a table. Conflict: some stored fault is for the same command, and
  -- the store is left alone. Created: no stored fault is, and the name now has the fault.
  abbrev pub Posted : Fault T → d.Store → Answer T × d.Store → Type 0
  Posted fault s (ok response, s') =
      (response ≡ empty_response created)
      × ((k : Text) (g : Fault T) → c.table s k ≡ some g → g.command ≢ fault.command)
      × ((j : Text) → c.table s' j ≡ (if fault.name == j then some fault else c.table s j))
  Posted fault s (err e, s') =
      (e ≡ conflict_error fault)
      × ((k : Text) × (g : Fault T) × (c.table s k ≡ some g) × (g.command ≡ fault.command))
      × (s' ≡ s)

  table-entries :
      (s : d.Store) (k : Text) {g : Fault T}
      → c.table s k ≡ some g
      → lookup k (c.entries s) ≡ some g
  table-entries s k e = c.lookup-entries s k ∙ e

  after_check-Posted :
      (fault : Fault T) (s : d.Store) (r : Result ServerErrorResponse (Unit {0}))
      → Found fault (map value (c.entries s)) r
      → Posted fault s (after_check d fault s r)
  unfolding store_fault_write
  after_check-Posted fault s (ok u) h = rw (c.store_reply s fault.name fault) (
    refl,
    λ k g e. All-lookup _ (c.entries s) k g h (table-entries s k e),
    λ j. c.table-store s fault.name fault j,
  )
  after_check-Posted fault s (err x) (same, g, m, e) =
      let (k, at) = lookup-Member g (c.entries s) (c.entries-NodupKeys s) m in
      (same, (k, g, sym (c.lookup-entries s k) ∙ at, e), refl)

  -- On a store that is a table, POST /fault answers 201 and stores the fault with the time of the
  -- request under its name, exactly when no stored fault has the same command; otherwise it
  -- answers 409 with the message that names the command, and the store is unchanged.
  pub store_fault-Posted :
      (now : T) (body : Fault T) (s : d.Store)
      → Posted (stamp now body) s (store_fault d now body s)
  unfolding store_fault store_fault_check store_fault_write
  store_fault-Posted now body s =
      rw (c.all_reply s)
        (after_check-Posted (stamp now body) s _ (find_conflict-Found (stamp now body) _))

  -- On a store that is a table, DELETE /fault/{fault_name} answers 204 whether or not there was a
  -- fault of that name; no fault has the name afterwards, and every other name keeps its fault.
  pub delete_fault_lem :
      (s : d.Store) (name : Text)
      → let (answer, s') = delete_fault d (some name) s in
        (answer ≡ ok (empty_response no_content))
        × ((j : Text) → c.table s' j ≡ (if name == j then none else c.table s j))
  unfolding delete_fault
  delete_fault_lem s name = (rw (c.delete_reply s name), λ j. c.table-delete s name j)

  pub table-Posted :
      (fault : Fault T) (s : d.Store) (r : Answer T × d.Store) {response : HttpResponse T}
      → Posted fault s r
      → r.0 ≡ ok response
      → c.table r.1 fault.name ≡ some fault
  table-Posted fault s (ok x, s') (_, _, at) e = rw (at fault.name, ==_refl fault.name)
  table-Posted fault s (err x, s') p e = cc

  -- On a store that is a table, GET /fault/{fault_name} after a POST that was answered 201
  -- returns the fault that was posted, with the time of the request.
  pub get_fault-store_fault :
      (now : T) (body : Fault T) (s : d.Store) {response : HttpResponse T}
      → (store_fault d now body s).0 ≡ ok response
      → get_fault d (some body.name) (store_fault d now body s).1
        ≡ ok (record { status = 200; body = json_fault (stamp now body) })
  unfolding get_fault
  get_fault-store_fault now body s created_it = rw (
    c.get_reply _ body.name,
    table-Posted (stamp now body) s (store_fault d now body s) (store_fault-Posted now body s)
        created_it,
  )
