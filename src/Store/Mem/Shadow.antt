-- ===== src/Store/Mem/Shadow.antt =====
-- `get_by_redis_cmd` of store/mem_store.rs when commands differ only in their case.
use red_monkey.Common.{
  Text, codes, ◌≡◌, ◌≢◌, refl, sym, ◌∙◌, ap, Option, none, some, List, [], ◌∷◌, ◌⊎◌, inl, inr, ◌==◌,
  ==_iff, ==_refl, Bool-cases,
}
use red_monkey.Store.Fault.{Fault}
use red_monkey.Store.Lowercase.{to_lowercase}
use red_monkey.Store.HashMap.{HashMap}
use red_monkey.Store.Mem.{MemStore, matches, scan, choose, or_else, get_by_redis_cmd, collect}
use red_monkey.Store.Mem.Choice.{IsChoice, get_by_redis_cmd-IsChoice, matches-lower}

module _ {T : Type 0} (unicode_lower : Text → Text) (cmd cmd' : Text)
    (same : to_lowercase unicode_lower cmd ≡ to_lowercase unicode_lower cmd') where
  matches-same : (f : Fault T) → matches unicode_lower cmd f ≡ matches unicode_lower cmd' f
  unfolding matches
  matches-same f = rw same refl

  scan-same :
      (l : List (Fault T)) (a m : Option (Fault T))
      → scan unicode_lower cmd l a m ≡ scan unicode_lower cmd' l a m
  unfolding scan
  scan-same [] a m = refl
  scan-same (f ∷ l) a m = rw (matches-same f) (scan-same l _ _)

  -- The case of the command does not matter.
  pub get_by_redis_cmd-same :
      (h : HashMap (Fault T)) (m : MemStore h)
      → get_by_redis_cmd unicode_lower h m cmd ≡ get_by_redis_cmd unicode_lower h m cmd'
  unfolding get_by_redis_cmd choose
  get_by_redis_cmd-same h m =
      ap (λ p. or_else p.1 p.0) (scan-same (collect (h.into_iter m.map)) none none)

module _ {T : Type 0} (unicode_lower : Text → Text) (h : HashMap (Fault T)) (m : MemStore h) where
  abbrev get : Text → Option (Fault T)
  get = get_by_redis_cmd unicode_lower h m

  -- A fault that is not for all commands is chosen only for its command, up to case.
  chosen-lower :
      (cmd : Text) (f : Fault T) (r : Option (Fault T))
      → f.command ≢ codes "*"
      → r ≡ some f
      → IsChoice unicode_lower cmd (h.get m.map) r
      → to_lowercase unicode_lower cmd ≡ to_lowercase unicode_lower f.command
  chosen-lower cmd f none ns e c = cc
  chosen-lower cmd f (some g) ns e ((k, at), inl p) =
      matches-lower unicode_lower cmd g p ∙ ap (to_lowercase unicode_lower) (cc e)
  chosen-lower cmd f (some g) ns e ((k, at), inr (star, _)) =
      absurd (ns (cc (e, (==_iff g.command (codes "*")).0 star)))

  -- Of two faults for the same command, up to case, that have different names and are not for all
  -- commands, one is never chosen, whatever the command.
  pub one_shadowed :
      (f g : Fault T)
      → f.name ≢ g.name
      → to_lowercase unicode_lower f.command ≡ to_lowercase unicode_lower g.command
      → f.command ≢ codes "*"
      → g.command ≢ codes "*"
      → ((cmd : Text) → get cmd ≢ some f) ⊎ ((cmd : Text) → get cmd ≢ some g)
  one_shadowed f g ne same nf ng = pick (get f.command) refl
    where
      as_first :
          (cmd : Text) (x : Fault T)
          → get cmd ≡ some x
          → x.command ≢ codes "*"
          → to_lowercase unicode_lower x.command ≡ to_lowercase unicode_lower f.command
          → get f.command ≡ some x
      as_first cmd x e ns low =
          get_by_redis_cmd-same unicode_lower f.command cmd
            (sym low
              ∙ sym (
                  chosen-lower cmd x (get cmd) ns e
                    (get_by_redis_cmd-IsChoice unicode_lower cmd h m)))
            h m
          ∙ e

      pick :
          (r : Option (Fault T))
          → get f.command ≡ r
          → ((cmd : Text) → get cmd ≢ some f) ⊎ ((cmd : Text) → get cmd ≢ some g)
      pick none e = inl (λ cmd at. cc (as_first cmd f at nf refl, e))
      pick (some x) e = elim (Bool-cases (x.name == f.name)) [
        | inl t ↦
            inr (λ cmd at. ne (cc ((==_iff x.name f.name).0 t, as_first cmd g at ng (sym same), e)))
        | inr t ↦ inl (λ cmd at. cc (t, ==_refl f.name, as_first cmd f at nf refl, e))
      ]
