-- ===== src/Program/Serial/Orders.antt =====
-- How an order in which the tasks of the program of main.rs are answered grows.
use red_monkey.Common.{
  ℕ, ◌≡◌, refl, ap, ◌∙◌, Bool-cases, List, [], ◌∷◌, map, eqb, inl, inr, Member, arith,
}
use mathlib.Core.Path.{fun_ext}
use red_monkey.Common.Int.{ℤ}
use red_monkey.Store.Fault.{Fault}
use red_monkey.Store.Interface.{FaultStore}
use red_monkey.FaultConfigServer.Server.{HttpRequest, Reply, Matcher, serve_request}
use red_monkey.Program.{Task, idle, waiting, checked, replied, System, replies, updated}
use red_monkey.Program.Serial.{serial, IsPostedBy, Origin, IsOpen, moved, IsSerial}

module _ {T : Type 0} (m : Matcher) where
  IsPostedBy-more :
      (posted : List (ℕ × HttpRequest T)) (i : ℕ) (p : ℕ × HttpRequest T) (fault : Fault T)
      → IsPostedBy m posted i fault
      → IsPostedBy m (p ∷ posted) i fault
  IsPostedBy-more posted i p fault (q, info, body, at, to, b, e) = (q, info, body, inr at, to, b, e)

  pub Origin-more :
      (posted : List (ℕ × HttpRequest T)) (i : ℕ) (p : ℕ × HttpRequest T) (task : Task T)
      → Origin m posted i task
      → Origin m (p ∷ posted) i task
  Origin-more posted i p idle o = tt
  Origin-more posted i p (waiting q) o = inr o
  Origin-more posted i p (checked fault) o = IsPostedBy-more posted i p fault o
  Origin-more posted i p (replied reply) o = tt

module _ {T : Type 0} where
  -- A task of the order has been answered.
  order-replied :
      (tasks : ℕ → Task T) (order : List (ℕ × HttpRequest T)) (answers : List (Reply T)) (i : ℕ)
      → map (λ p. tasks p.0) order ≡ map replied answers
      → Member i (map (λ p. p.0) order)
      → ¬ IsOpen (tasks i)
  order-replied tasks [] answers i e at pending = at
  order-replied tasks ((j, q) ∷ order) (reply ∷ answers) i e (inl same) pending =
      pending reply (cc (same, e))
  order-replied tasks ((j, q) ∷ order) (reply ∷ answers) i e (inr at) pending =
      order-replied tasks order answers i (cc e) at pending
  order-replied tasks ((j, q) ∷ order) [] i e at pending = cc

  tasks-order :
      (tasks : ℕ → Task T) (i : ℕ) (task : Task T) (order : List (ℕ × HttpRequest T))
      → ¬ Member i (map (λ p. p.0) order)
      → map (λ p. updated tasks i task p.0) order ≡ map (λ p. tasks p.0) order
  tasks-order tasks i task [] h = refl
  tasks-order tasks i task ((j, q) ∷ order) h = ground (arith, h, tasks-order tasks i task order)

  pub updated-same : (tasks : ℕ → Task T) (i : ℕ) → updated tasks i (tasks i) ≡ tasks
  updated-same tasks i = fun_ext (λ j. same j)
    where
      same : (j : ℕ) → updated tasks i (tasks i) j ≡ tasks j
      same j = ground arith

  with_task_self : (tasks : ℕ → Task T) (i : ℕ) (task : Task T) → updated tasks i task i ≡ task
  with_task_self tasks i task = ground arith

module _ {T : Type 0} (d : FaultStore T) (timestamp : T → ℤ) (m : Matcher) where
  unlisted :
      (s : d.Store) (y : System d) (order : List (ℕ × HttpRequest T)) (i : ℕ)
      → IsSerial d timestamp m s y order
      → IsOpen (y.tasks i)
      → ¬ Member i (map (λ p. p.0) order)
  unlisted s y order i v pending at = order-replied y.tasks order _ i v.answers at pending

  -- A task that is not answered goes on, and is not answered yet.
  pub pending-IsSerial :
      (s : d.Store) (y : System d) (order : List (ℕ × HttpRequest T)) (i : ℕ) (task : Task T)
      → IsSerial d timestamp m s y order
      → IsOpen (y.tasks i)
      → IsOpen task
      → IsSerial d timestamp m s (record y { tasks = updated y.tasks i task }) order
  pending-IsSerial s y order i task v before after = record {
    once = v.once;
    listed = λ j reply e. elim (Bool-cases (eqb i j)) [
      | inl hit ↦ absurd (after reply (ground arith))
      | inr miss ↦ v.listed j reply (ground arith)
    ];
    arrived = v.arrived;
    answers = tasks-order y.tasks i task order (unlisted s y order i v before) ∙ v.answers;
    store_left = v.store_left;
  }

  -- A task is answered, and comes last in the order.
  pub served-IsSerial :
      (s : d.Store) (y : System d) (order : List (ℕ × HttpRequest T)) (i : ℕ) (q : HttpRequest T)
      → IsSerial d timestamp m s y order
      → IsOpen (y.tasks i)
      → Member (i, q) y.posted
      → IsSerial d timestamp m s
          (moved d i y (replies (serve_request d timestamp m q y.store)))
          ((i, q) ∷ order)
  unfolding serial
  served-IsSerial s y order i q v before at =
      let missing = unlisted s y order i v before in
      let (reply, s') = serve_request d timestamp m q y.store in
      let now =
        with_task_self y.tasks i (replied reply)
        ∙ ap (λ x. replied (serve_request d timestamp m q x).0) v.store_left in
      let earlier = tasks-order y.tasks i (replied reply) order missing ∙ v.answers in
      record {
        once = (missing, v.once);
        listed = λ j r x. elim (Bool-cases (eqb i j)) [
          | inl hit ↦ inl (ground arith)
          | inr miss ↦ inr (v.listed j r (ground arith))
        ];
        arrived = (at, v.arrived);
        answers = cc (now, earlier);
        store_left = ap (λ x. (serve_request d timestamp m q x).1) v.store_left;
      }
