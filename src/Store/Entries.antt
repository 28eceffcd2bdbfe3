-- ===== src/Store/Entries.antt =====
-- Listings of entries without repeated keys, and the tables that they hold.
use red_monkey.Common.{
  Text, ==_refl, refl, ◌≡◌, none, some, List, [], ◌∷◌, map, All, Member, inl, inr, arith,
}
use red_monkey.Store.Fault.{Fault}
use red_monkey.Store.Interface.{value}
use red_monkey.Store.HashMap.{lookup, NodupKeys}

-- An entry of a listing without repeated keys is what its key looks up, and the other way round.
pub lookup-Member :
    {T : Type 0} (f : Fault T) (l : List (Text × Fault T))
    → NodupKeys l
    → Member f (map value l)
    → (k : Text) × (lookup k l ≡ some f)
lookup-Member f [] n m = absurd m
lookup-Member f ((j, g) ∷ l) n (inl e) = (j, ground (arith))
lookup-Member f ((j, g) ∷ l) n (inr m) = let (k, e) = lookup-Member f l n.1 m in (k, ground arith)

pub All-lookup :
    {T : Type 0} (P : Fault T → Type 0) (l : List (Text × Fault T)) (k : Text) (f : Fault T)
    → All P (map value l)
    → lookup k l ≡ some f
    → P f
All-lookup P [] k f h e = cc
All-lookup P ((j, g) ∷ l) k f h e = grind (arith, All-lookup P l k f h.1)

pub lookup-cons :
    {T : Type 0} (j k : Text) (g f : Fault T) (l : List (Text × Fault T))
    → lookup j l ≡ none
    → lookup k l ≡ some f
    → lookup k ((j, g) ∷ l) ≡ some f
lookup-cons j k g f l n e = ground arith

pub All-of_lookup :
    {T : Type 0} (P : Fault T → Type 0) (l : List (Text × Fault T))
    → NodupKeys l
    → ((k : Text) (f : Fault T) → lookup k l ≡ some f → P f)
    → All P (map value l)
All-of_lookup P [] n h = tt
All-of_lookup P ((j, g) ∷ l) n h =
    (h j g (rw ==_refl refl), All-of_lookup P l n.1 (λ k f e. h k f (lookup-cons j k g f l n.0 e)))
