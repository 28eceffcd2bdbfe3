-- ===== src/Store/Same.antt =====
-- Listings of entries that hold the same table, in whatever order.
use mathlib.Core.List.{Perm}
use mathlib.Core.List.Perm
use red_monkey.Common.{
  Text, ==_refl, refl, ◌≡◌, ◌∙◌, sym, none, some, true, false, List, [], ◌∷◌, ◌==◌, ==_iff,
  if◌then◌else◌, Bool-cases, inl, inr, arith,
}
use red_monkey.Store.HashMap.{lookup, NodupKeys}

module _ {V : Type 0} where
  -- The entries without the first at the key.
  abbrev pub without : Text → List (Text × V) → List (Text × V)
  without k [] = []
  without k ((j, v) ∷ l) = if j == k then l else (j, v) ∷ without k l

  pub lookup-without :
      (k j : Text) (l : List (Text × V))
      → NodupKeys l
      → lookup j (without k l) ≡ (if k == j then none else lookup j l)
  lookup-without k j [] n = ground arith
  lookup-without k j ((i, v) ∷ l) n = ground (arith, lookup-without k j l n.1)

  pub without-NodupKeys : (k : Text) (l : List (Text × V)) → NodupKeys l → NodupKeys (without k l)
  without-NodupKeys k [] n = tt
  without-NodupKeys k ((j, v) ∷ l) n =
      ground (arith, lookup-without k j l n.1, without-NodupKeys k l n.1)

  -- An induction over two listings without repeated keys that look up the same: take the entries of
  -- the first away from the second one by one.
  pub same_ind {ℓ} :
      (P : List (Text × V) → List (Text × V) → Type ℓ)
      → P [] []
      → ((k : Text) (v : V) (l l' : List (Text × V))
          → lookup k l' ≡ some v
          → P l (without k l')
          → P ((k, v) ∷ l) l')
      → (l l' : List (Text × V)) → NodupKeys l
      → NodupKeys l'
      → ((k : Text) → lookup k l ≡ lookup k l')
      → P l l'
  same_ind P base step [] [] n n' h = base
  same_ind P base step [] ((k, v) ∷ l') n n' h = cc (h k, ==_refl k)
  same_ind P base step ((k, v) ∷ l) l' n n' h = step k v l l' (sym (h k) ∙ rw (==_refl k) refl) (
      same_ind P base step l (without k l') n.1 (without-NodupKeys k l' n')
        (λ j. ground (arith, h j, lookup-without k j l' n', n.0)))

  pub lookup-head :
      (k j : Text) (v w : V) (l : List (Text × V))
      → lookup k ((j, w) ∷ l) ≡ some v
      → j == k ≡ true
      → (k ≡ j) × (v ≡ w)
  lookup-head k j v w l e t = (sym ((==_iff j k).0 t), ground arith)

  pub lookup-tail :
      (k j : Text) (v w : V) (l : List (Text × V))
      → lookup k ((j, w) ∷ l) ≡ some v
      → j == k ≡ false
      → lookup k l ≡ some v
  lookup-tail k j v w l e n = ground arith

  perm-without :
      (k : Text) (v : V) (l : List (Text × V)) → lookup k l ≡ some v → Perm ((k, v) ∷ without k l) l
  perm-without k v [] e = cc
  perm-without k v ((j, w) ∷ l) e = elim (Bool-cases (j == k)) [
    | inl t ↦
        let (same_key, same) = lookup-head k j v w l e t in rw (t, same_key, same) (Perm.refl _)
    | inr t ↦ rw t (
        Perm.trans (Perm.swap _ _ _) (Perm.cons _ (perm-without k v l (lookup-tail k j v w l e t))))
  ]

  -- Listings without repeated keys that look up the same have the same entries.
  pub perm-same :
      (l l' : List (Text × V))
      → NodupKeys l
      → NodupKeys l'
      → ((k : Text) → lookup k l ≡ lookup k l')
      → Perm l l'
  perm-same =
      same_ind (λ l l'. Perm l l') (Perm.refl [])
        (λ k v l l' e p. Perm.trans (Perm.cons (k, v) p) (perm-without k v l' e))
