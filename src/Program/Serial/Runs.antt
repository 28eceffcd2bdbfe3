-- ===== src/Program/Serial/Runs.antt =====
-- Runs of the program of main.rs, in which no two POSTs of one command are between their two
-- sections at once, against a server that serves its requests one after the other.
use red_monkey.Common.{
  ℕ, Text, ◌≡◌, refl, sym, none, List, [], ◌∷◌, ◌++◌, append_assoc, ◌⊎◌, inl, inr, All-mono,
}
use mathlib.Core.Path.{subst}
use red_monkey.Common.Int.{ℤ}
use red_monkey.Store.Interface.{FaultStore, IsTable}
use red_monkey.FaultConfigServer.Server.{HttpRequest, Matcher}
use red_monkey.Proxy.RespUtil.{Resp, UrlCrate}
use red_monkey.Proxy.Connection.{OriginServerConfig}
use red_monkey.Program.{
  Task, waiting, checked, System, start, section, Step, arrive, advance, accept_client,
  accept_fails, interrupt, serve_client,
}
use red_monkey.Program.Sections.{updated-all}
use red_monkey.Program.Exclusive.{
  IsGuarded, ReachExclusive, here, next, Reach-IsGuarded, start-IsGuarded,
}
use red_monkey.Program.Serial.{serial, Origin, IsOpen, moved, Comes, IsSerial}
use red_monkey.Program.Serial.Sections.{section-Comes}
use red_monkey.Program.Serial.Orders.{Origin-more, updated-same, pending-IsSerial, served-IsSerial}

module _ {T : Type 0} (d : FaultStore T) (c : IsTable d) (timestamp : T → ℤ) (m : Matcher) where
  -- The order is one of the state, whose tasks are traced.
  abbrev pub Ordered : d.Store → System d → List (ℕ × HttpRequest T) → Type 0
  Ordered s y order = IsSerial d timestamp m s y order × ((i : ℕ) → Origin m y.posted i (y.tasks i))

  -- The tasks that have been answered since come after those of the order.
  abbrev pub Extended : d.Store → System d → List (ℕ × HttpRequest T) → Type 0
  Extended s y order = (more : List (ℕ × HttpRequest T)) × Ordered s y (more ++ order)

  moved-Extended :
      (s : d.Store) (y : System d) (i : ℕ) (order : List (ℕ × HttpRequest T)) (p : Task T × d.Store)
      → Ordered s y order
      → (p ≡ (y.tasks i, y.store)) ⊎ (IsOpen (y.tasks i) × Comes d timestamp m y.posted i y.store p)
      → Extended s (moved d i y p) order
  moved-Extended s y i order p (v, origin) (inl e) =
      subst (λ x. Extended s (moved d i y x) order) (sym e)
        (subst (λ x. Extended s (record y { tasks = x }) order) (sym (updated-same y.tasks i))
          ([], (v, origin)))
  moved-Extended s y i order p (v, origin) (inr (before, inl (fault, posted, e))) =
      subst (λ x. Extended s (moved d i y x) order) (sym e)
        (
          [],
          (
            pending-IsSerial d timestamp m s y order i (checked fault) v before (λ reply x. cc),
            updated-all (Origin m y.posted) y.tasks i (checked fault) posted origin,
          ),
        )
  moved-Extended s y i order p (v, origin) (inr (before, inr (q, at, e))) =
      subst (λ x. Extended s (moved d i y x) order) (sym e)
        (
          (i, q) ∷ [],
          (
            served-IsSerial d timestamp m s y order i q v before at,
            updated-all (Origin m y.posted) y.tasks i _ tt origin,
          ),
        )

  module _ (r : Resp) (u : UrlCrate) (config : OriginServerConfig) where
    pub Step-Extended :
        (s : d.Store) {y z : System d} (order : List (ℕ × HttpRequest T))
        → Step d timestamp m r u config y z
        → IsGuarded d c timestamp m y
        → Ordered s y order
        → Extended s z order
    Step-Extended s {y} order (arrive i q e) guarded (v, origin) =
        let w =
          pending-IsSerial d timestamp m s y order i (waiting q) v (λ reply x. cc (e, x))
            (λ reply x. cc) in
        (
          [],
          (
            record {
              once = w.once;
              listed = w.listed;
              arrived = All-mono order (λ p at. inr at) w.arrived;
              answers = w.answers;
              store_left = w.store_left;
            },
            updated-all (Origin m ((i, q) ∷ y.posted)) y.tasks i (waiting q) (inl refl)
                (λ j. Origin-more m y.posted j (i, q) (y.tasks j) (origin j)),
          ),
        )
    Step-Extended s {y} order (advance i) guarded (v, origin) =
        moved-Extended s y i order (section d timestamp m (y.tasks i) y.store) (v, origin)
          (section-Comes d c timestamp m y.posted i (y.tasks i) y.store (origin i)
            (guarded.fresh i))
    Step-Extended s order (accept_client j client e free) guarded o = ([], o)
    Step-Extended s order (accept_fails e) guarded o = ([], o)
    Step-Extended s order interrupt guarded o = ([], o)
    Step-Extended s order (serve_client j client e) guarded o = ([], o)

    Reach-Extended :
        (s : d.Store) {y z : System d} (order : List (ℕ × HttpRequest T))
        → ReachExclusive d c timestamp m r u config y z
        → IsGuarded d c timestamp m y
        → Ordered s y order
        → Extended s z order
    Reach-Extended s order here guarded o = ([], o)
    Reach-Extended s {y} {z} order (next reached one step) guarded o =
        let (more, o') = Reach-Extended s order reached guarded o in
        let (last, o'') =
          Step-Extended s (more ++ order) step
            (Reach-IsGuarded d c timestamp m r u config reached guarded) o' in
        (last ++ more, subst (λ l. Ordered s z l) (sym (append_assoc last more order)) o'')

    pub start-Ordered : (s : d.Store) → Ordered s (start d s) []
    unfolding serial
    start-Ordered s = (
      record {
        once = tt;
        listed = λ i reply e. cc;
        arrived = tt;
        answers = refl;
        store_left = refl;
      },
      λ i. tt,
    )

    -- From a start with no faults, if at no moment two POSTs of one command are between their two
    -- sections, then the tasks that have been answered at a moment have an order, in which their
    -- requests, served one after the other from the start, get the replies that the tasks have got,
    -- and leave the store as it is; and at any later moment the tasks that have been answered since
    -- come after these in such an order.
    pub ReachExclusive-IsSerial :
        (s : d.Store)
        → ((k : Text) → c.table s k ≡ none)
        → (y z : System d) → ReachExclusive d c timestamp m r u config (start d s) y
        → ReachExclusive d c timestamp m r u config y z
        → (order more : List (ℕ × HttpRequest T)) × IsSerial d timestamp m s y order
          × IsSerial d timestamp m s z (more ++ order)
    ReachExclusive-IsSerial s empty y z reached later =
        let guarded = start-IsGuarded d c timestamp m r u config s empty in
        let (order, o) = Reach-Extended s [] reached guarded (start-Ordered s) in
        let (more, o') =
          Reach-Extended s (order ++ []) later
            (Reach-IsGuarded d c timestamp m r u config reached guarded) o in
        (order ++ [], more, o.0, o'.0)
