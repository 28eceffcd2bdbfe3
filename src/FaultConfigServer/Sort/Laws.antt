-- ===== src/FaultConfigServer/Sort/Laws.antt =====
-- The sort of `get_all_faults` in fault_config_server/handler.rs, where the comparison is by an
-- integer key, the greatest first, and where it panics.
use mathlib.Core.List.{Perm}
use mathlib.Core.List.Perm
use red_monkey.Common.{
  ◌≡◌, ◌≢◌, refl, ap, ◌∙◌, Option, none, some, Bool, List, [], ◌∷◌, All, Member, inl, inr, arith,
  if◌then◌else◌, Bool-cases, Option-cases, ◌≤◌, length,
}
use red_monkey.Common.Int.{ℤ, ltb_ℤ, ◌≤ℤ◌}
use red_monkey.FaultConfigServer.Sort.{sort_by, insert_by, insert_into}

module _ {A : Type 0} (key : A → ℤ) where
  abbrev pub IsNewestFirst : List A → Type 0
  IsNewestFirst [] = Unit
  IsNewestFirst (x ∷ l) = All (λ (y : A). key y ≤ℤ key x) l × IsNewestFirst l

  -- The elements with a key, in their order.
  abbrev pub with_key : ℤ → List A → List A
  with_key t [] = []
  with_key t (x ∷ l) =
      if ltb_ℤ (key x) t
      then with_key t l
      else if ltb_ℤ t (key x)
      then with_key t l
      else x ∷ with_key t l

  -- The sort without the panics.
  abbrev pub insert : A → List A → List A
  insert x [] = x ∷ []
  insert x (y ∷ l) = if ltb_ℤ (key x) (key y) then y ∷ insert x l else x ∷ y ∷ l

  abbrev pub sorted : List A → List A
  sorted [] = []
  sorted (x ∷ l) = insert x (sorted l)

  All-insert : (P : A → Type 0) (x : A) (l : List A) → P x → All P l → All P (insert x l)
  All-insert P x [] px h = (px, tt)
  All-insert P x (y ∷ l) px h = elim (Bool-cases (ltb_ℤ (key x) (key y))) [
    | inl e ↦ rw e (h.0, All-insert P x l px h.1)
    | inr e ↦ rw e (px, h)
  ]

  All-sorted : (P : A → Type 0) (l : List A) → All P l → All P (sorted l)
  All-sorted P [] h = tt
  All-sorted P (x ∷ l) h = All-insert P x (sorted l) h.0 (All-sorted P l h.1)

  perm-insert : (x : A) (l : List A) → Perm (insert x l) (x ∷ l)
  perm-insert x [] = Perm.refl _
  perm-insert x (y ∷ l) = elim (Bool-cases (ltb_ℤ (key x) (key y))) [
    | inl e ↦ rw e (Perm.trans (Perm.cons y (perm-insert x l)) (Perm.swap x y l))
    | inr e ↦ rw e (Perm.refl _)
  ]

  pub perm-sorted : (l : List A) → Perm (sorted l) l
  perm-sorted [] = Perm.refl _
  perm-sorted (x ∷ l) = Perm.trans (perm-insert x (sorted l)) (Perm.cons x (perm-sorted l))

  le_trans_All :
      (x y : A) (l : List A)
      → key y ≤ℤ key x
      → All (λ (z : A). key z ≤ℤ key y) l
      → All (λ (z : A). key z ≤ℤ key x) l
  le_trans_All x y [] h a = tt
  le_trans_All x y (z ∷ l) h a = (omega arith, le_trans_All x y l h a.1)

  insert-IsNewestFirst : (x : A) (l : List A) → IsNewestFirst l → IsNewestFirst (insert x l)
  insert-IsNewestFirst x [] h = (tt, tt)
  insert-IsNewestFirst x (y ∷ l) h = elim (Bool-cases (ltb_ℤ (key x) (key y))) [
    | inl e ↦ rw e (All-insert _ x l (ground arith) h.0, insert-IsNewestFirst x l h.1)
    | inr e ↦ rw e ((ground arith, le_trans_All x y l (ground arith) h.0), h)
  ]

  pub sorted-IsNewestFirst : (l : List A) → IsNewestFirst (sorted l)
  sorted-IsNewestFirst [] = tt
  sorted-IsNewestFirst (x ∷ l) = insert-IsNewestFirst x (sorted l) (sorted-IsNewestFirst l)

  -- The order in which two elements with different keys are inserted does not matter.
  pub insert_comm :
      (x y : A) (l : List A) → key x ≢ key y → insert x (insert y l) ≡ insert y (insert x l)
  insert_comm x y [] ne = ground arith
  insert_comm x y (z ∷ l) ne = ground (arith, insert_comm x y l ne)

  with_key-insert : (t : ℤ) (x : A) (l : List A) → with_key t (insert x l) ≡ with_key t (x ∷ l)
  with_key-insert t x [] = refl
  with_key-insert t x (y ∷ l) = ground (arith, with_key-insert t x l)

  pub with_key-sorted : (t : ℤ) (l : List A) → with_key t (sorted l) ≡ with_key t l
  with_key-sorted t [] = refl
  with_key-sorted t (x ∷ l) = with_key-insert t x (sorted l) ∙ rw (with_key-sorted t l)

  -- Elements that can be compared are sorted, with no panic.
  module _ (after : A → A → Option Bool) (Good : A → Type 0)
      (compares : (x y : A) → Good x → Good y → after x y ≡ some (ltb_ℤ (key x) (key y))) where
    insert_by-eq-insert :
        (x : A) (l : List A) → Good x → All Good l → insert_by after x l ≡ some (insert x l)
    unfolding insert_by
    insert_by-eq-insert x [] gx gl = refl
    insert_by-eq-insert x (y ∷ l) gx gl =
        ground (arith, compares x y gx gl.0, insert_by-eq-insert x l gx gl.1)

    pub sort_by-eq-sorted : (l : List A) → All Good l → sort_by after l ≡ some (sorted l)
    unfolding sort_by
    sort_by-eq-sorted [] g = refl
    sort_by-eq-sorted (x ∷ l) g =
        rw (sort_by-eq-sorted l g.1) (insert_by-eq-insert x (sorted l) g.0 (All-sorted Good l g.1))

-- An element without a key makes the sort panic, unless there is nothing to compare it with.
module _ {A : Type 0} (after : A → A → Option Bool) where
  insert_by-ne-nil : (x : A) (l : List A) → insert_by after x l ≡ some [] → ⊥
  unfolding insert_by
  insert_by-ne-nil x [] e = cc
  insert_by-ne-nil x (y ∷ l) e = ground arith

  sort_by-ne-nil : (x : A) (l : List A) → sort_by after (x ∷ l) ≡ some [] → ⊥
  unfolding sort_by
  sort_by-ne-nil x l e = elim (Option-cases (sort_by after l)) [
    | inl n ↦ ground arith
    | inr (r, s) ↦ insert_by-ne-nil x r (ground arith)
  ]

  module _ (bad : A) (as_first : (y : A) → after bad y ≡ none)
      (as_second : (x : A) → after x bad ≡ none) where
    insert_by-bad : (r : List A) → (r ≡ [] → ⊥) → insert_by after bad r ≡ none
    unfolding insert_by
    insert_by-bad [] h = absurd (h refl)
    insert_by-bad (z ∷ r) h = ground (arith, as_first z)

    insert_into-bad :
        (x : A) (o : Option (List A)) → bad ≡ x → (o ≡ some [] → ⊥) → insert_into after x o ≡ none
    insert_into-bad x none e h = refl
    insert_into-bad x (some r) e h = rw (← e) (insert_by-bad r (λ n. h (ap some n)))

    pub sort_by-panics : (l : List A) → Member bad l → 2 ≤ length l → sort_by after l ≡ none
    unfolding sort_by
    sort_by-panics [] m h = elim m [ ]
    sort_by-panics (x ∷ []) m h = absurd (omega arith)
    sort_by-panics (x ∷ y ∷ l) (inl e) h =
        insert_into-bad x (sort_by after (y ∷ l)) e (sort_by-ne-nil y l)
    sort_by-panics (x ∷ y ∷ []) (inr (inl e)) h = ground (arith, as_second x)
    sort_by-panics (x ∷ y ∷ []) (inr (inr m)) h = absurd m
    sort_by-panics (x ∷ y ∷ z ∷ l) (inr m) h =
        ap (insert_into after x) (sort_by-panics (y ∷ z ∷ l) m (omega arith))
