-- ===== src/Common/Lists.antt =====
-- Lists measured by native numbers, predicates on lists, and association lists.
use Prim.Native.Nat.{ℕ, zero, suc, ◌+◌}
use mathlib.Core.Path.{◌≡◌, refl}
use mathlib.Core.Logic.{◌⊎◌, inl, inr}
use mathlib.Core.Bool.{Bool, true, false}
use mathlib.Core.Option.{Option, none, some}
use red_monkey.Common.Tests.{if◌then◌else◌}
use mathlib.Core.List.{List, [], ◌∷◌, ◌++◌}
use native.Mathlib.Omega.{arith}

module _ {ℓ} {A : Type ℓ} where
  abbrev pub length : List A → ℕ
  length [] = 0
  length (x ∷ xs) = suc (length xs)

  abbrev pub take : ℕ → List A → List A
  take zero xs = []
  take (suc n) [] = []
  take (suc n) (x ∷ xs) = x ∷ take n xs

  abbrev pub drop : ℕ → List A → List A
  drop zero xs = xs
  drop (suc n) [] = []
  drop (suc n) (x ∷ xs) = drop n xs

  pub take-append-drop : (n : ℕ) (xs : List A) → take n xs ++ drop n xs ≡ xs
  take-append-drop zero xs = refl
  take-append-drop (suc n) [] = refl
  take-append-drop (suc n) (x ∷ xs) = rw (take-append-drop n xs)

  pub length-append : (xs ys : List A) → length (xs ++ ys) ≡ length xs + length ys
  length-append [] ys = omega arith
  length-append (x ∷ xs) ys = omega (arith, length-append xs ys)

-- Every element has the property.
abbrev pub All {ℓ κ} : {A : Type ℓ} → (A → Type κ) → List A → Type κ
All P [] = Unit
All P (x ∷ xs) = P x × All P xs

pub All-mono {κ μ} :
    {A : Type 0} {P : A → Type κ} {Q : A → Type μ} (xs : List A)
    → ((x : A) → P x → Q x)
    → All P xs
    → All Q xs
All-mono [] f h = tt
All-mono (x ∷ xs) f h = (f x h.0, All-mono xs f h.1)

abbrev pub Member : {A : Type 0} → A → List A → Type 0
Member a [] = ⊥
Member a (x ∷ xs) = (a ≡ x) ⊎ Member a xs

pub All-Member {κ} :
    {A : Type 0} (P : A → Type κ) (a : A) (xs : List A) → All P xs → Member a xs → P a
All-Member P a [] h m = absurd m
All-Member P a (x ∷ xs) h (inl e) = rw e h.0
All-Member P a (x ∷ xs) h (inr m) = All-Member P a xs h.1 m

-- The last element that passes a test, or what stands in for it.
module _ {A : Type 0} (p : A → Bool) where
  abbrev pub last_where : List A → Option A → Option A
  last_where [] acc = acc
  last_where (x ∷ xs) acc = last_where xs (if p x then some x else acc)

  pub last_where-none :
      (xs : List A) (acc : Option A)
      → last_where xs acc ≡ none
      → (acc ≡ none) × All (λ x. p x ≡ false) xs
  last_where-none [] acc h = (h, tt)
  last_where-none (x ∷ xs) acc h =
      ground (arith, last_where-none xs (if p x then some x else acc) h)

  pub last_where-some :
      (xs : List A) (acc : Option A) (a : A)
      → last_where xs acc ≡ some a
      → (acc ≡ some a) ⊎ (Member a xs × (p a ≡ true))
  last_where-some [] acc a h = inl h
  last_where-some (x ∷ xs) acc a h =
      ground (arith, last_where-some xs (if p x then some x else acc) a h)
