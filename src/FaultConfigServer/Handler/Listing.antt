-- ===== src/FaultConfigServer/Handler/Listing.antt =====
-- GET /faults: the order of the listing, and when the handler panics.
use mathlib.Core.List.{Perm}
use red_monkey.Common.{
  ◌≡◌, refl, sym, ◌∙◌, ◌≤◌, length, Option, none, some, List, arith, ok, map, true, is_some, All,
  Member,
}
use red_monkey.Common.Int.{ℤ, pos, ltb_ℤ}
use red_monkey.Store.Fault.{Fault}
use red_monkey.Store.Interface.{FaultStore, IsTable, value}
use red_monkey.Store.Entries.{All-of_lookup}
use red_monkey.FaultConfigServer.Http.{json_faults}
use red_monkey.FaultConfigServer.Sort.Laws.{
  IsNewestFirst, with_key, sorted, perm-sorted, sorted-IsNewestFirst, with_key-sorted,
  sort_by-eq-sorted, sort_by-panics,
}
use red_monkey.FaultConfigServer.Handler.{get_all_faults, newest_first}
use red_monkey.FaultConfigServer.Handler.Invariant.{IsOrderly}

module _ {T : Type 0} (timestamp : T → ℤ) where
  -- The seconds of the last change, for a fault that has them.
  abbrev seconds : Option T → ℤ
  seconds none = pos 0
  seconds (some t) = timestamp t

  abbrev pub changed : Fault T → ℤ
  changed f = seconds f.last_modified

  abbrev IsStamped : Fault T → Type 0
  IsStamped f = is_some f.last_modified ≡ true

  newest_first-compares :
      (f g : Fault T)
      → IsStamped f
      → IsStamped g
      → newest_first timestamp f g ≡ some (ltb_ℤ (changed f) (changed g))
  unfolding newest_first
  newest_first-compares f g hf hg = ground arith

  newest_first-none_left :
      (f g : Fault T) → f.last_modified ≡ none → newest_first timestamp f g ≡ none
  unfolding newest_first
  newest_first-none_left f g e = rw e

  newest_first-none_right :
      (f g : Fault T) → g.last_modified ≡ none → newest_first timestamp f g ≡ none
  unfolding newest_first
  newest_first-none_right f g e = ground arith

  module _ (d : FaultStore T) (c : IsTable d) where
    entries-IsStamped :
        (s : d.Store) → IsOrderly (c.table s) → All IsStamped (map value (c.entries s))
    entries-IsStamped s v =
        All-of_lookup IsStamped (c.entries s) (c.entries-NodupKeys s)
          (λ k f e. v.stamped k f (sym (c.lookup-entries s k) ∙ e))

    pub get_all_faults-sorted :
        (s : d.Store)
        → IsOrderly (c.table s)
        → get_all_faults d timestamp s
          ≡ some (
              ok (record {
                status = 200;
                body = json_faults (sorted changed (map value (c.entries s)));
              }))
    unfolding get_all_faults
    get_all_faults-sorted s v =
        rw
          (
            c.all_reply s,
            sort_by-eq-sorted changed (newest_first timestamp) IsStamped newest_first-compares _
                (entries-IsStamped s v),
          )
          refl

    -- GET /faults on an orderly table does not panic. It answers 200 with the stored faults, each
    -- once, the latest changed first, and faults of one second in the order of the store's listing.
    pub get_all_faults_lem :
        (s : d.Store)
        → IsOrderly (c.table s)
        → (faults : List (Fault T)) × (get_all_faults d timestamp s
            ≡ some (ok (record { status = 200; body = json_faults faults })))
          × Perm faults (map value (c.entries s))
          × IsNewestFirst changed faults
          × ((t : ℤ) → with_key changed t faults ≡ with_key changed t (map value (c.entries s)))
    get_all_faults_lem s v = (
      sorted changed (map value (c.entries s)),
      get_all_faults-sorted s v,
      perm-sorted changed (map value (c.entries s)),
      sorted-IsNewestFirst changed (map value (c.entries s)),
      λ t. with_key-sorted changed t (map value (c.entries s)),
    )

  -- GET /faults panics if a stored fault has no time of its last change and is not the only one.
  pub get_all_faults-panics :
      (d : FaultStore T) (s : d.Store) (faults : List (Fault T)) (f : Fault T)
      → d.get_all_faults s ≡ ok faults
      → Member f faults
      → f.last_modified ≡ none
      → 2 ≤ length faults
      → get_all_faults d timestamp s ≡ none
  unfolding get_all_faults
  get_all_faults-panics d s faults f e m unset many = rw (
    e,
    sort_by-panics (newest_first timestamp) f (λ y. newest_first-none_left f y unset)
        (λ x. newest_first-none_right x f unset) faults m many,
  )
