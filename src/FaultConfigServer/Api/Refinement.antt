-- ===== src/FaultConfigServer/Api/Refinement.antt =====
-- The server of fault_config_server/server.rs, with the handlers of fault_config_server/handler.rs,
-- keeps the interface of `Api`.
use red_monkey.Common.{codes, Text, refl, ap, Option, Option-cases, none, some, inl, inr, ok, err}
use red_monkey.Common.Int.{ℤ}
use red_monkey.Store.Fault.{Fault}
use red_monkey.Store.Interface.{FaultStore, IsTable}
use red_monkey.FaultConfigServer.Handler
use red_monkey.FaultConfigServer.Handler.{Answer, stamp}
use red_monkey.FaultConfigServer.Handler.Replies.{Posted, store_fault-Posted, delete_fault_lem}
use red_monkey.FaultConfigServer.Handler.Invariant.{IsOrderly}
use red_monkey.FaultConfigServer.Handler.Listing.{get_all_faults_lem}
use red_monkey.FaultConfigServer.Handler.DeleteAll.{delete_all_faults_lem}
use red_monkey.FaultConfigServer.Server.{
  HttpRequest, respond, respond_unless_panic, Matcher, Endpoint, store_fault, get_fault,
  get_all_faults, delete_fault, delete_all_faults, Info, call, serve_request, dispatch, routes,
  post_fault,
}
use red_monkey.FaultConfigServer.Api.{
  Promised, PromisedPost, PromisedBody, PromisedGet, PromisedDelete,
}

module _ {T : Type 0} (d : FaultStore T) (c : IsTable d) where
  pub Posted-PromisedPost :
      (fault : Fault T) (s : d.Store) (r : Answer T × d.Store)
      → Posted d c fault s r
      → PromisedPost fault (c.table s) (respond r.0) (c.table r.1)
  Posted-PromisedPost fault s (ok x, s') (same, new, at) =
      inl (ap (λ y. respond (ok y)) same, new, at)
  Posted-PromisedPost fault s (err x, s') (same, there, kept) =
      inr (ap (λ y. respond (err y)) same, there, λ k. ap (λ y. c.table y k) kept)

  get_fault-PromisedGet :
      (name : Option Text) (s : d.Store)
      → PromisedGet name (c.table s) (respond (Handler.get_fault d name s))
  unfolding Handler.get_fault
  get_fault-PromisedGet none s = refl
  get_fault-PromisedGet (some name) s = elim (Option-cases (c.table s name)) [
    | inl e ↦ rw (c.get_reply s name, e) refl
    | inr (fault, e) ↦ rw (c.get_reply s name, e) refl
  ]

  delete_fault-PromisedDelete :
      (name : Option Text) (s : d.Store)
      → let (answer, s') = Handler.delete_fault d name s in
        PromisedDelete name (c.table s) (respond answer) (c.table s')
  delete_fault-PromisedDelete none s = unfold Handler.delete_fault in (refl, λ k. refl)
  delete_fault-PromisedDelete (some name) s =
      let (answer, at) = delete_fault_lem d c s name in (ap respond answer, at)

  module _ (timestamp : T → ℤ) where
    pub call-Promised :
        (q : HttpRequest T) (target : Option (Endpoint × Info)) (s : d.Store)
        → IsOrderly (c.table s)
        → let (reply, s') = call d timestamp q target s in
          Promised timestamp q target (c.table s) reply (c.table s')
    call-Promised q none s v = (refl, λ k. refl)
    call-Promised q (some (store_fault, info)) s v = post q.body
      where
        post :
            (body : Option (Fault T))
            → let (reply, s') = post_fault d timestamp q.time body s in
              PromisedBody q.time body (c.table s) reply (c.table s')
        post none = (refl, λ k. refl)
        post (some fault) =
            Posted-PromisedPost (stamp q.time fault) s _ (store_fault-Posted d c q.time fault s)
    call-Promised q (some (get_fault, info)) s v =
        (get_fault-PromisedGet (info (codes "fault_name")) s, λ k. refl)
    call-Promised q (some (get_all_faults, info)) s v =
        let (faults, e, p, newest, _) = get_all_faults_lem timestamp d c s v in
        (
          (
            faults,
            ap respond_unless_panic e,
            (c.entries s, c.entries-NodupKeys s, c.lookup-entries s, p),
            newest,
          ),
          λ k. refl,
        )
    call-Promised q (some (delete_fault, info)) s v =
        delete_fault-PromisedDelete (info (codes "fault_name")) s
    call-Promised q (some (delete_all_faults, info)) s v =
        let (answer, empty) = delete_all_faults_lem d c s v in (ap respond answer, empty)

    -- On a store that is an orderly table, a request gets the reply that the interface promises for
    -- the endpoint that its method and path are routed to, and leaves the table that it promises.
    pub serve_request-Promised :
        (m : Matcher) (q : HttpRequest T) (s : d.Store)
        → IsOrderly (c.table s)
        → let (reply, s') = serve_request d timestamp m q s in
          Promised timestamp q (dispatch m routes q.method q.path) (c.table s) reply (c.table s')
    unfolding serve_request
    serve_request-Promised m q s v = call-Promised q (dispatch m routes q.method q.path) s v
