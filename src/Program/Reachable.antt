-- ===== src/Program/Reachable.antt =====
-- What holds of the program of main.rs at every moment, however its tasks and connections
-- interleave.
use red_monkey.Common.{
  ℕ, Text, ◌≡◌, ◌≢◌, refl, Option, none, some, true, is_some, List, ◌∷◌, inl, inr, arith, Member,
}
use red_monkey.Common.Int.{ℤ}
use red_monkey.Store.Fault.{Fault}
use red_monkey.Store.Interface.{FaultStore, IsTable}
use red_monkey.FaultConfigServer.Handler.{stamp, get_all_faults}
use red_monkey.FaultConfigServer.Handler.Invariant.{IsOrderly}
use red_monkey.FaultConfigServer.Handler.Listing.{get_all_faults_lem}
use red_monkey.FaultConfigServer.Server.{
  HttpRequest, Matcher, panicked, Info, store_fault, dispatch, routes,
}
use red_monkey.Proxy.RespUtil.{Resp, UrlCrate}
use red_monkey.Proxy.Connection.{OriginServerConfig}
use red_monkey.Program.{
  Task, idle, waiting, checked, replied, System, requests, start, advanced, Step, arrive, advance,
  accept_client, accept_fails, interrupt, serve_client, Reach, here, next,
}
use red_monkey.Program.Sections.{updated-all, TableHas, TaskHas, TableHas-IsOrderly, section-Kept}

module _ {T : Type 0} (m : Matcher) where
  -- A fault is the body of a POST /fault request that has arrived, with the time of the request.
  abbrev pub IsPosted : List (HttpRequest T) → Fault T → Type 0
  IsPosted requests fault =
      (q : HttpRequest T) × (info : Info) × (body : Fault T) × Member q requests
      × (dispatch m routes q.method q.path ≡ some (store_fault, info))
      × (q.body ≡ some body)
      × (fault ≡ stamp q.time body)

  pub IsPosted-timed :
      (requests : List (HttpRequest T)) (f : Fault T)
      → IsPosted requests f
      → is_some f.last_modified ≡ true
  IsPosted-timed requests f (q, info, body, at, to, b, e) = rw e

  pub IsPosted-more :
      (requests : List (HttpRequest T)) (q : HttpRequest T) (f : Fault T)
      → IsPosted requests f
      → IsPosted (q ∷ requests) f
  IsPosted-more requests q f (q', info, body, at, to, b, e) = (q', info, body, inr at, to, b, e)

module _ {T : Type 0} (d : FaultStore T) (c : IsTable d) (timestamp : T → ℤ) (m : Matcher) where
  abbrev pub TableIs : List (HttpRequest T) → (Text → Option (Fault T)) → Type 0
  TableIs requests = TableHas d c timestamp m (IsPosted m requests) (IsPosted-timed m requests)

  abbrev pub TaskIs : List (HttpRequest T) → Task T → Type 0
  TaskIs requests = TaskHas d c timestamp m (IsPosted m requests) (IsPosted-timed m requests)

  -- Everything stored, or on its way into the store, has been posted, and no task has panicked.
  pub record Sourced (posted : List (HttpRequest T)) (s : d.Store) (tasks : ℕ → Task T)
      : Type 0 where
    pub stored : TableIs posted (c.table s)
    pub tasks_sourced : (i : ℕ) → TaskIs posted (tasks i)

  abbrev pub IsSourced : System d → Type 0
  IsSourced y = Sourced (requests d y) y.store y.tasks

  TaskIs-more :
      (requests : List (HttpRequest T)) (q : HttpRequest T) (task : Task T)
      → TaskIs requests task
      → TaskIs (q ∷ requests) task
  TaskIs-more requests q idle h = tt
  TaskIs-more requests q (waiting p) h =
      λ info body to e. IsPosted-more m requests q _ (h info body to e)
  TaskIs-more requests q (checked f) h = IsPosted-more m requests q f h
  TaskIs-more requests q (replied r) h = h

  TaskIs-NoPanic :
      (requests : List (HttpRequest T)) (task : Task T)
      → TaskIs requests task
      → task ≢ replied panicked
  TaskIs-NoPanic requests idle h e = cc
  TaskIs-NoPanic requests (waiting q) h e = cc
  TaskIs-NoPanic requests (checked f) h e = cc
  TaskIs-NoPanic requests (replied reply) h e = h (ground arith)

  advanced-IsSourced : (i : ℕ) (y : System d) → IsSourced y → IsSourced (advanced d timestamp m i y)
  advanced-IsSourced i y v =
      let (task, table) =
        section-Kept d c timestamp m (IsPosted m (requests d y)) (IsPosted-timed m (requests d y))
          (y.tasks i) y.store (v.tasks_sourced i) v.stored in
      record {
        stored = table;
        tasks_sourced = updated-all (λ j. TaskIs (requests d y)) y.tasks i _ task v.tasks_sourced;
      }

  module _ (r : Resp) (u : UrlCrate) (config : OriginServerConfig) where
    Step-IsSourced :
        {y z : System d} → Step d timestamp m r u config y z → IsSourced y → IsSourced z
    Step-IsSourced {y} (arrive i q e) v = record {
      stored = λ k f at. let (n, p) = v.stored k f at in (n, IsPosted-more m (requests d y) q f p);
      tasks_sourced =
          updated-all (λ j. TaskIs (q ∷ requests d y)) y.tasks i (waiting q)
            (λ info body to b. (q, info, body, inl refl, to, b, refl))
            (λ j. TaskIs-more (requests d y) q (y.tasks j) (v.tasks_sourced j));
    }
    Step-IsSourced {y} (advance i) v = advanced-IsSourced i y v
    Step-IsSourced (accept_client j client e free) v = v
    Step-IsSourced (accept_fails e) v = v
    Step-IsSourced interrupt v = v
    Step-IsSourced (serve_client j client e) v = v

    pub Reach-IsSourced :
        {y z : System d} → Reach d timestamp m r u config y z → IsSourced y → IsSourced z
    Reach-IsSourced here v = v
    Reach-IsSourced (next reached step) v = Step-IsSourced step (Reach-IsSourced reached v)

    pub start-IsSourced : (s : d.Store) → ((k : Text) → c.table s k ≡ none) → IsSourced (start d s)
    start-IsSourced s empty = record { stored = λ k f e. cc (empty k, e); tasks_sourced = λ i. tt }

    module _ (s : d.Store) (empty : (k : Text) → c.table s k ≡ none) (y : System d)
        (reached : Reach d timestamp m r u config (start d s) y) where
      pub sourced : IsSourced y
      sourced = Reach-IsSourced reached (start-IsSourced s empty)

      -- From a start with no faults, whatever requests arrive, and however the sections of their
      -- handlers interleave with one another and with the connections of the proxy: no handler
      -- panics, the table is orderly at every moment, and so GET /faults would not panic now.
      pub Reach-NoPanic :
          ((i : ℕ) → y.tasks i ≢ replied panicked)
          × IsOrderly (c.table y.store)
          × (get_all_faults d timestamp y.store ≢ none)
      Reach-NoPanic =
          let orderly =
            TableHas-IsOrderly d c timestamp m (IsPosted m (requests d y))
              (IsPosted-timed m (requests d y)) y.store sourced.stored in
          let (faults, e, _, _, _) = get_all_faults_lem timestamp d c y.store orderly in
          (
            λ i. TaskIs-NoPanic (requests d y) (y.tasks i) (sourced.tasks_sourced i),
            orderly,
            λ n. cc (n, e),
          )

      -- From a start with no faults, every stored fault is at every moment the body of a POST that
      -- has arrived, with the time of that request, under its own name.
      pub Reach-IsPosted :
          (k : Text) (f : Fault T)
          → c.table y.store k ≡ some f
          → (f.name ≡ k) × IsPosted m (requests d y) f
      Reach-IsPosted = sourced.stored
