-- ===== src/Tests/AssocMap.antt =====
-- A hash map as an association list in the order of insertion.
use red_monkey.Common.{Text, ◌≡◌, ◌≢◌, refl, none, some, List, [], ◌∷◌, ◌==◌, if◌then◌else◌, arith}
use red_monkey.Store.HashMap.{HashMap, lookup, NodupKeys}

module _ {V : Type 0} where
  abbrev put : Text → V → List (Text × V) → List (Text × V)
  put k v [] = (k, v) ∷ []
  put k v ((j, w) ∷ l) = if j == k then (k, v) ∷ l else (j, w) ∷ put k v l

  abbrev remove : Text → List (Text × V) → List (Text × V)
  remove k [] = []
  remove k ((j, w) ∷ l) = if j == k then l else (j, w) ∷ remove k l

  pub lookup-put :
      (k : Text) (v : V) (j : Text) (l : List (Text × V))
      → lookup j (put k v l) ≡ (if k == j then some v else lookup j l)
  lookup-put k v j [] = refl
  lookup-put k v j ((i, w) ∷ l) = ground (arith, lookup-put k v j l)

  pub put-NodupKeys : (k : Text) (v : V) (l : List (Text × V)) → NodupKeys l → NodupKeys (put k v l)
  put-NodupKeys k v [] n = (refl, tt)
  put-NodupKeys k v ((i, w) ∷ l) n = ground (arith, lookup-put k v i l, put-NodupKeys k v l n.1)

  lookup-remove_ne : (k j : Text) (l : List (Text × V)) → j ≢ k → lookup j (remove k l) ≡ lookup j l
  lookup-remove_ne k j [] h = refl
  lookup-remove_ne k j ((i, w) ∷ l) h = ground (arith, lookup-remove_ne k j l h)

  pub lookup-remove :
      (k j : Text) (l : List (Text × V))
      → NodupKeys l
      → lookup j (remove k l) ≡ (if k == j then none else lookup j l)
  lookup-remove k j [] n = ground arith
  lookup-remove k j ((i, w) ∷ l) n = ground (arith, lookup-remove k j l n.1)

  pub remove-NodupKeys : (k : Text) (l : List (Text × V)) → NodupKeys l → NodupKeys (remove k l)
  remove-NodupKeys k [] n = tt
  remove-NodupKeys k ((i, w) ∷ l) n =
      ground (arith, lookup-remove_ne k i l, remove-NodupKeys k l n.1)

abbrev pub assoc_map : (V : Type 0) → HashMap V
assoc_map V = record {
  Map = (l : List (Text × V)) × NodupKeys l;
  new = ([], tt);
  get = λ m k. lookup k m.0;
  into_iter = λ m. m.0;
  insert = λ m k v. (lookup k m.0, (put k v m.0, put-NodupKeys k v m.0 m.1));
  remove = λ m k. (lookup k m.0, (remove k m.0, remove-NodupKeys k m.0 m.1));
  get-new = λ k. refl;
  insert_old = λ m k v. refl;
  get-insert = λ m k v j. lookup-put k v j m.0;
  remove_old = λ m k. refl;
  get-remove = λ m k j. lookup-remove k j m.0 m.1;
  lookup-into_iter = λ m k. refl;
  into_iter-NodupKeys = λ m. m.1;
}
