-- ===== src/FaultConfigServer/Handler/DeleteAll.antt =====
-- DELETE /faults: which faults the loop deletes.
use red_monkey.Common.{
  Text, ◌≡◌, refl, ◌∙◌, none, some, Option-cases, List, [], ◌∷◌, ◌==◌, if◌then◌else◌, arith, ok,
  map, Bool, true, false, inl, inr,
}
use red_monkey.Store.Fault.{Fault}
use red_monkey.Store.HashMap.{lookup}
use red_monkey.Store.Interface.{FaultStore, IsTable, value}
use red_monkey.FaultConfigServer.Http.{no_content, empty_response}
use red_monkey.FaultConfigServer.Handler.{delete_each, delete_all_faults}
use red_monkey.FaultConfigServer.Handler.Invariant.{IsOrderly}

-- Whether one of the faults has the name.
abbrev named : {T : Type 0} → Text → List (Fault T) → Bool
named k [] = false
named k (f ∷ l) = if f.name == k then true else named k l

named-lookup :
    {T : Type 0} (k : Text) (f : Fault T) (l : List (Text × Fault T))
    → lookup k l ≡ some f
    → f.name ≡ k
    → named k (map value l) ≡ true
named-lookup k f [] e n = cc
named-lookup k f ((j, g) ∷ l) e n = ground (arith, named-lookup k f l)

module _ {T : Type 0} (d : FaultStore T) (c : IsTable d) where
  delete_each_lem :
      (l : List (Fault T)) (s : d.Store)
      → let (answer, s') = delete_each d l s in
        (answer ≡ ok (empty_response no_content))
        × ((k : Text) → c.table s' k ≡ (if named k l then none else c.table s k))
  unfolding delete_each
  delete_each_lem [] s = (refl, λ k. refl)
  delete_each_lem (f ∷ l) s =
      rw (c.delete_reply s f.name, delete_each)
        (let (answer, rest) = delete_each_lem l (d.delete_fault s f.name).1 in
          (answer, λ k. ground (arith, rest k, c.table-delete s f.name k)))

  -- DELETE /faults on an orderly table answers 204 and leaves no fault under any name.
  pub delete_all_faults_lem :
      (s : d.Store)
      → IsOrderly (c.table s)
      → let (answer, s') = delete_all_faults d s in
        (answer ≡ ok (empty_response no_content)) × ((k : Text) → c.table s' k ≡ none)
  unfolding delete_all_faults
  delete_all_faults_lem s v = rw (c.all_reply s) (
      let (answer, rest) = delete_each_lem (map value (c.entries s)) s in
      (answer, λ k. rest k ∙ cleared k))
    where
      cleared :
          (k : Text) → (if named k (map value (c.entries s)) then none else c.table s k) ≡ none
      cleared k = elim (Option-cases (c.table s k)) [
        | inl e ↦ ground arith
        | inr (f, e) ↦
            rw (named-lookup k f (c.entries s) (c.lookup-entries s k ∙ e) (v.keyed k f e))
      ]
