-- ===== src/Store/HashMap.antt =====
-- The concurrent hash map that the in-memory store is built on (`chashmap::CHashMap<String, V>`),
-- a crate: a type of maps with the operations that the store calls, and their documented behaviour.
-- A map comes back from the operations that change it. The order in which a map yields its
-- entries is left open.
use red_monkey.Common.{Text, ◌≡◌, Option, none, some, List, [], ◌∷◌, ◌==◌, if◌then◌else◌}

module _ {ℓ} {V : Type ℓ} where
  -- The first value that a list of entries has at a key.
  abbrev pub lookup : Text → List (Text × V) → Option V
  lookup k [] = none
  lookup k ((j, v) ∷ l) = if j == k then some v else lookup k l

  -- No key stands twice.
  abbrev pub NodupKeys : List (Text × V) → Type ℓ
  NodupKeys [] = Unit
  NodupKeys ((k, v) ∷ l) = (lookup k l ≡ none) × NodupKeys l

pub record HashMap (V : Type 0) : Type 1 where
  pub Map : Type 0
  pub new : Map
  -- `get`, and the entries that `into_iter` of a clone yields, in its order.
  pub get : Map → Text → Option V
  pub into_iter : Map → List (Text × V)
  -- `insert` and `remove` return the value that the key had.
  pub insert : Map → Text → V → Option V × Map
  pub remove : Map → Text → Option V × Map
  pub get-new : (k : Text) → get new k ≡ none
  pub insert_old : (m : Map) (k : Text) (v : V) → (insert m k v).0 ≡ get m k
  pub get-insert :
      (m : Map) (k : Text) (v : V) (j : Text)
      → get (insert m k v).1 j ≡ (if k == j then some v else get m j)
  pub remove_old : (m : Map) (k : Text) → (remove m k).0 ≡ get m k
  pub get-remove :
      (m : Map) (k j : Text) → get (remove m k).1 j ≡ (if k == j then none else get m j)
  pub lookup-into_iter : (m : Map) (k : Text) → lookup k (into_iter m) ≡ get m k
  pub into_iter-NodupKeys : (m : Map) → NodupKeys (into_iter m)
