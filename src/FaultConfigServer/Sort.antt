-- ===== src/FaultConfigServer/Sort.antt =====
-- `slice::sort_by` of the standard library, a stable sort, for a comparison that may panic. `none`
-- is a panic. The library compares every element of a slice of two or more at least once, as this
-- insertion sort does, so both panic on the same slices if the comparison panics on an element
-- whatever it is compared with.
pub mod Laws
use red_monkey.Common.{Option, none, some, Bool, true, false, List, [], ◌∷◌}

-- `after a b` is whether the comparison of `a` with `b` is `Ordering::Greater`.
module _ {A : Type 0} (after : A → A → Option Bool) where
  abbrev pub prepend : A → Option (List A) → Option (List A)
  prepend y none = none
  prepend y (some l) = some (y ∷ l)

  unfoldable pub insert_by : A → List A → Option (List A)
  insert_by x [] = some (x ∷ [])
  insert_by x (y ∷ l) = elim (after x y) [
    | none ↦ none
    | some true ↦ prepend y (insert_by x l)
    | some false ↦ some (x ∷ y ∷ l)
  ]

  abbrev pub insert_into : A → Option (List A) → Option (List A)
  insert_into x none = none
  insert_into x (some l) = insert_by x l

  unfoldable pub sort_by : List A → Option (List A)
  unfolding insert_by
  sort_by [] = some []
  sort_by (x ∷ l) = insert_into x (sort_by l)
