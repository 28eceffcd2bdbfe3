-- ===== src/Store/Mem/Choice.antt =====
-- `get_by_redis_cmd` of store/mem_store.rs: which fault is chosen for a command.
use red_monkey.Common.{
  Text, codes, ◌==◌, ==_iff, ◌≡◌, refl, sym, ◌∙◌, ap, Option, none, some, Bool, true, false, List,
  [], ◌∷◌, map, All, Member, last_where, last_where-none, last_where-some, ◌⊎◌, inl, inr, arith,
}
use mathlib.Core.Path.{fun_ext, subst}
use red_monkey.Store.Fault.{Fault}
use red_monkey.Store.Lowercase.{to_lowercase}
use red_monkey.Store.Interface.{value}
use red_monkey.Store.HashMap.{HashMap, lookup, NodupKeys}
use red_monkey.Store.Mem.{MemStore, matches, scan, choose, or_else, get_by_redis_cmd}
use red_monkey.Store.Entries.{lookup-Member, All-lookup}
use red_monkey.Store.Mem.Table.{collect-eq-map}

abbrev pub is_star : {T : Type 0} → Fault T → Bool
is_star f = f.command == codes "*"

module _ {T : Type 0} (unicode_lower : Text → Text) (cmd : Text) where
  -- What the choice for a command from a listing is.
  abbrev IsListChoice : List (Fault T) → Option (Fault T) → Type 0
  IsListChoice l none =
      All (λ (g : Fault T). matches unicode_lower cmd g ≡ false) l
      × All (λ (g : Fault T). is_star g ≡ false) l
  IsListChoice l (some f) =
      Member f l
      × ((matches unicode_lower cmd f ≡ true)
          ⊎ ((is_star f ≡ true) × All (λ (g : Fault T). matches unicode_lower cmd g ≡ false) l))

  scan-eq-last_where :
      (l : List (Fault T)) (a m : Option (Fault T))
      → scan unicode_lower cmd l a m
        ≡ (last_where is_star l a, last_where (matches unicode_lower cmd) l m)
  unfolding scan
  scan-eq-last_where [] a m = refl
  scan-eq-last_where (x ∷ l) a m = scan-eq-last_where l _ _

  or_else-IsListChoice :
      (l : List (Fault T)) (a m : Option (Fault T))
      → last_where is_star l none ≡ a
      → last_where (matches unicode_lower cmd) l none ≡ m
      → IsListChoice l (or_else m a)
  or_else-IsListChoice l a (some f) ea em =
      ground (arith, last_where-some (matches unicode_lower cmd) l none f em)
  or_else-IsListChoice l none none ea em = ground (
    arith,
    last_where-none (matches unicode_lower cmd) l none em,
    last_where-none is_star l none ea,
  )
  or_else-IsListChoice l (some f) none ea em = ground (
    arith,
    last_where-none (matches unicode_lower cmd) l none em,
    last_where-some is_star l none f ea,
  )

  choose-IsListChoice : (l : List (Fault T)) → IsListChoice l (choose unicode_lower cmd l)
  unfolding choose
  choose-IsListChoice l = rw (scan-eq-last_where l none none) (or_else-IsListChoice l _ _ refl refl)

module _ {T : Type 0} (unicode_lower : Text → Text) (cmd : Text) where
  -- What the choice for a command from a table of faults is: a fault for the command, or a fault
  -- for all commands if no fault is for the command, or nothing if there is neither.
  abbrev pub IsChoice : (Text → Option (Fault T)) → Option (Fault T) → Type 0
  IsChoice table none =
      (k : Text) (g : Fault T)
      → table k ≡ some g
      → (matches unicode_lower cmd g ≡ false) × (is_star g ≡ false)
  IsChoice table (some f) =
      ((k : Text) × (table k ≡ some f))
      × ((matches unicode_lower cmd f ≡ true)
          ⊎ ((is_star f ≡ true)
              × ((k : Text) (g : Fault T)
                  → table k ≡ some g
                  → matches unicode_lower cmd g ≡ false)))

  IsListChoice-IsChoice :
      (l : List (Text × Fault T)) (r : Option (Fault T))
      → NodupKeys l
      → IsListChoice unicode_lower cmd (map value l) r
      → IsChoice (λ k. lookup k l) r
  IsListChoice-IsChoice l none n c = λ k g e. (All-lookup _ l k g c.0 e, All-lookup _ l k g c.1 e)
  IsListChoice-IsChoice l (some f) n (m, inl p) = (lookup-Member f l n m, inl p)
  IsListChoice-IsChoice l (some f) n (m, inr (p, all)) =
      (lookup-Member f l n m, inr (p, λ k g e. All-lookup _ l k g all e))

  -- For every table of faults that the map holds and every command, `get_by_redis_cmd` returns a
  -- stored fault for the command, up to case; if there is none, a stored fault for `*`; and nothing
  -- if there is neither.
  pub get_by_redis_cmd-IsChoice :
      (h : HashMap (Fault T)) (m : MemStore h)
      → IsChoice (h.get m.map) (get_by_redis_cmd unicode_lower h m cmd)
  unfolding get_by_redis_cmd
  get_by_redis_cmd-IsChoice h m =
      subst (λ table. IsChoice table (get_by_redis_cmd unicode_lower h m cmd))
        (fun_ext (h.lookup-into_iter m.map))
        (IsListChoice-IsChoice (h.into_iter m.map) _ (h.into_iter-NodupKeys m.map) (
          rw collect-eq-map
            (choose-IsListChoice unicode_lower cmd (map value (h.into_iter m.map)))))

  -- No two stored faults are for the same command, up to case.
  abbrev pub OnePerCommand : (Text → Option (Fault T)) → Type 0
  OnePerCommand table =
      (j k : Text) (f g : Fault T)
      → table j ≡ some f
      → table k ≡ some g
      → to_lowercase unicode_lower f.command ≡ to_lowercase unicode_lower g.command
      → f ≡ g

  pub matches-lower :
      (f : Fault T)
      → matches unicode_lower cmd f ≡ true
      → to_lowercase unicode_lower cmd ≡ to_lowercase unicode_lower f.command
  unfolding matches
  matches-lower f h = (==_iff _ _).0 h

  IsChoice-unique :
      (table : Text → Option (Fault T)) (q r : Option (Fault T))
      → OnePerCommand table
      → IsChoice table q
      → IsChoice table r
      → q ≡ r
  IsChoice-unique table none none one cq cr = refl
  IsChoice-unique table none (some g) one cq ((k, e), cr) = ground (arith, cq k g e)
  IsChoice-unique table (some f) none one ((k, e), cq) cr = ground (arith, cr k f e)
  IsChoice-unique table (some f) (some g) one ((j, ef), inl p) ((k, eg), inl q) =
      ap some (one j k f g ef eg (sym (matches-lower f p) ∙ matches-lower g q))
  IsChoice-unique table (some f) (some g) one ((j, ef), inl p) ((k, eg), inr (q, no_match)) =
      cc (p, no_match j f ef)
  IsChoice-unique table (some f) (some g) one ((j, ef), inr (p, no_match)) ((k, eg), inl q) =
      cc (q, no_match k g eg)
  IsChoice-unique table (some f) (some g) one ((j, ef), inr (p, _)) ((k, eg), inr (q, _)) =
      ap some (
        one j k f g ef eg (
          ap (to_lowercase unicode_lower)
            ((==_iff f.command _).0 p ∙ sym ((==_iff g.command _).0 q))))

  -- With at most one fault for a command, up to case, the choice is fixed by the table: it does not
  -- depend on the map, nor on the order in which it yields its entries.
  pub get_by_redis_cmd_order :
      (h h' : HashMap (Fault T)) (m : MemStore h) (m' : MemStore h')
      → ((k : Text) → h.get m.map k ≡ h'.get m'.map k)
      → OnePerCommand (h.get m.map)
      → get_by_redis_cmd unicode_lower h m cmd ≡ get_by_redis_cmd unicode_lower h' m' cmd
  get_by_redis_cmd_order h h' m m' same one =
      IsChoice-unique (h.get m.map) _ _ one (get_by_redis_cmd-IsChoice h m) (
        subst (λ table. IsChoice table (get_by_redis_cmd unicode_lower h' m' cmd))
          (sym (fun_ext same)) (get_by_redis_cmd-IsChoice h' m'))
