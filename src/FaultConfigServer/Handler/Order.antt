-- ===== src/FaultConfigServer/Handler/Order.antt =====
-- What the answer of GET /faults depends on. A store lists its faults in an order of its own, for
-- the in-memory store that of the buckets of its hash map; the handler sorts them.
use mathlib.Core.List.{Perm}
use mathlib.Core.List.Perm
use mathlib.Core.Quot
use mathlib.Core.Quot.{Quot}
use red_monkey.Common.{
  Text, ◌≡◌, sym, ap, ◌∙◌, refl, Option, some, List, [], ◌∷◌, arith, ok, map, ◌==◌, ==_iff, ==_refl,
  Bool-cases, inl, inr,
}
use red_monkey.Common.Int.{ℤ}
use red_monkey.Store.Fault.{Fault}
use red_monkey.Store.HashMap.{lookup, NodupKeys}
use red_monkey.Store.Entries.{lookup-cons}
use red_monkey.Store.Interface.{FaultStore, IsTable, value}
use red_monkey.Store.Same.{
  without, lookup-without, without-NodupKeys, same_ind, perm-same, lookup-head, lookup-tail,
}
use red_monkey.FaultConfigServer.Http.{json_faults}
use red_monkey.FaultConfigServer.Sort.Laws.{insert, insert_comm, sorted}
use red_monkey.FaultConfigServer.Handler.{get_all_faults}
use red_monkey.FaultConfigServer.Handler.Invariant.{IsOrderly}
use red_monkey.FaultConfigServer.Handler.Listing.{
  changed, get_all_faults_lem, get_all_faults-sorted,
}

-- No two faults of a table have their last change in the same second.
abbrev pub DistinctSeconds : {T : Type 0} → (T → ℤ) → (Text → Option (Fault T)) → Type 0
DistinctSeconds {T} timestamp table =
    (j k : Text) (f g : Fault T)
    → table j ≡ some f
    → table k ≡ some g
    → changed timestamp f ≡ changed timestamp g
    → j ≡ k

module _ {T : Type 0} (timestamp : T → ℤ) where
  abbrev at : List (Text × Fault T) → Text → Option (Fault T)
  at l k = lookup k l

  -- Sorting puts an entry in its place, wherever the listing had it.
  sorted-without :
      (k : Text) (f : Fault T) (l : List (Text × Fault T))
      → NodupKeys l
      → DistinctSeconds timestamp (at l)
      → lookup k l ≡ some f
      → insert (changed timestamp) f (sorted (changed timestamp) (map value (without k l)))
        ≡ sorted (changed timestamp) (map value l)
  sorted-without k f [] n v e = cc
  sorted-without k f ((j, g) ∷ l) n v e = elim (Bool-cases (j == k)) [
    | inl t ↦ rw (t, (lookup-head k j f g l e t).1) refl
    | inr t ↦ rw t (
        insert_comm (changed timestamp) f g _
          (λ q. cc ((==_iff j k).1 (sym (v k j f g e (rw ==_refl refl) q)), t))
        ∙ ap (insert (changed timestamp) g) (
            sorted-without k f l n.1
              (λ a b x y ea eb.
                v a b x y (lookup-cons j a g x l n.0 ea) (lookup-cons j b g y l n.0 eb))
              (lookup-tail k j f g l e t)))
  ]

  without-DistinctSeconds :
      (k : Text) (l : List (Text × Fault T))
      → NodupKeys l
      → DistinctSeconds timestamp (at l)
      → DistinctSeconds timestamp (at (without k l))
  without-DistinctSeconds k l n v a b x y ea eb = v a b x y (kept a x ea) (kept b y eb)
    where
      kept : (a : Text) (x : Fault T) → lookup a (without k l) ≡ some x → lookup a l ≡ some x
      kept a x e = ground (arith, lookup-without k a l n)

  -- What a listing is sorted into depends on the table alone, if no two times are the same.
  sorted-same :
      (l l' : List (Text × Fault T))
      → NodupKeys l
      → NodupKeys l'
      → ((k : Text) → lookup k l ≡ lookup k l')
      → DistinctSeconds timestamp (at l')
      → sorted (changed timestamp) (map value l) ≡ sorted (changed timestamp) (map value l')
  sorted-same l l' n n' h v =
      same_ind
        (λ l l'.
          NodupKeys l'
          → DistinctSeconds timestamp (at l')
          → sorted (changed timestamp) (map value l) ≡ sorted (changed timestamp) (map value l'))
        (λ n v. refl)
        (λ k f l l' e p n v.
          ap (insert (changed timestamp) f)
            (p (without-NodupKeys k l' n) (without-DistinctSeconds k l' n v))
          ∙ sorted-without k f l' n v e)
        l l' n n' h n' v

  module _ (d d' : FaultStore T) (c : IsTable d) (c' : IsTable d') where
    -- Two stores, of whatever implementations, have the same table.
    abbrev pub SameTable : d.Store → d'.Store → Type 0
    SameTable s s' = (k : Text) → c.table s k ≡ c'.table s' k

    entries-same :
        (s : d.Store) (s' : d'.Store)
        → SameTable s s'
        → (k : Text) → lookup k (c.entries s) ≡ lookup k (c'.entries s')
    entries-same s s' h k = c.lookup-entries s k ∙ h k ∙ sym (c'.lookup-entries s' k)

    same-IsOrderly :
        (s : d.Store) (s' : d'.Store)
        → SameTable s s'
        → IsOrderly (c.table s)
        → IsOrderly (c'.table s')
    same-IsOrderly s s' h v = record {
      keyed = λ k f e. v.keyed k f (h k ∙ e);
      stamped = λ k f e. v.stamped k f (h k ∙ e);
    }

    -- For two stores with the same orderly table, GET /faults answers 200 with the same faults, if
    -- their order is forgotten.
    pub get_all_faults-same_faults :
        (s : d.Store) (s' : d'.Store)
        → SameTable s s'
        → IsOrderly (c.table s)
        → (faults : List (Fault T)) × (faults' : List (Fault T)) × (get_all_faults d timestamp s
            ≡ some (ok (record { status = 200; body = json_faults faults })))
          × (get_all_faults d' timestamp s'
              ≡ some (ok (record { status = 200; body = json_faults faults' })))
          × (◌≡◌ {A = Quot (Perm {A = Fault T})} (Quot.mk faults) (Quot.mk faults'))
    get_all_faults-same_faults s s' h v =
        let (faults, e, p, _, _) = get_all_faults_lem timestamp d c s v in
        let (faults', e', p', _, _) =
          get_all_faults_lem timestamp d' c' s' (same-IsOrderly s s' h v) in
        let q =
          perm-same (c.entries s) (c'.entries s') (c.entries-NodupKeys s) (c'.entries-NodupKeys s')
            (entries-same s s' h) in
        (
          faults,
          faults',
          e,
          e',
          Quot.sound (Perm.trans p (Perm.trans (Perm.map value q) (Perm.symm p'))),
        )

    -- For two stores with the same orderly table, in which no two faults have their last change in
    -- the same second, GET /faults gives one and the same answer.
    pub get_all_faults-same_answer :
        (s : d.Store) (s' : d'.Store)
        → SameTable s s'
        → IsOrderly (c.table s)
        → DistinctSeconds timestamp (c'.table s')
        → get_all_faults d timestamp s ≡ get_all_faults d' timestamp s'
    get_all_faults-same_answer s s' h v apart =
        rw
          (
            get_all_faults-sorted timestamp d c s v,
            get_all_faults-sorted timestamp d' c' s' (same-IsOrderly s s' h v),
            sorted-same (c.entries s) (c'.entries s') (c.entries-NodupKeys s)
                (c'.entries-NodupKeys s') (entries-same s s' h)
                (λ j k f g ej ek.
                  apart j k f g (sym (c'.lookup-entries s' j) ∙ ej)
                    (sym (c'.lookup-entries s' k) ∙ ek)),
          )
          refl
