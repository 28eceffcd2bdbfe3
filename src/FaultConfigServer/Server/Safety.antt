-- ===== src/FaultConfigServer/Server/Safety.antt =====
-- fault_config_server/server.rs: the server over a sequence of requests.
use red_monkey.Common.{codes, ◌≢◌, ap, Option, none, some, List, [], ◌∷◌, All, ok, err}
use red_monkey.Common.Int.{ℤ}
use red_monkey.Store.Fault.{Fault}
use red_monkey.Store.Interface.{FaultStore, IsTable}
use red_monkey.FaultConfigServer.Handler.{Answer}
use red_monkey.FaultConfigServer.Handler.Invariant.{
  IsValid, IsValid-empty, store_fault-IsValid, delete_fault-IsValid,
}
use red_monkey.FaultConfigServer.Handler.DeleteAll.{delete_all_faults_lem}
use red_monkey.FaultConfigServer.Handler.Listing.{get_all_faults_lem}
use red_monkey.FaultConfigServer.Server.{
  Matcher, HttpRequest, Reply, panicked, respond, Endpoint, store_fault, get_fault, get_all_faults,
  delete_fault, delete_all_faults, Info, call, serve_request, serve, dispatch, routes,
  respond_unless_panic, post_fault,
}

-- A reply that is not a panic of the handler.
abbrev pub NoPanic : {T : Type 0} → Reply T → Type 0
NoPanic r = r ≢ panicked

pub respond-NoPanic : {T : Type 0} (a : Answer T) → NoPanic (respond a)
respond-NoPanic (ok response) e = cc
respond-NoPanic (err x) e = cc

module _ {T : Type 0} (d : FaultStore T) (c : IsTable d) (timestamp : T → ℤ) where
  -- A served request does not panic, and leaves a valid table.
  abbrev pub Served : Reply T × d.Store → Type 0
  Served (reply, s) = NoPanic reply × IsValid (c.table s)

  pub call-Served :
      (q : HttpRequest T) (target : Option (Endpoint × Info)) (s : d.Store)
      → IsValid (c.table s)
      → Served (call d timestamp q target s)
  call-Served q none s v = (λ e. cc, v)
  call-Served q (some (store_fault, info)) s v = post q.body
    where
      post : (body : Option (Fault T)) → Served (post_fault d timestamp q.time body s)
      post none = (λ e. cc, v)
      post (some fault) = (respond-NoPanic _, store_fault-IsValid d c q.time fault s v)
  call-Served q (some (get_fault, info)) s v = (respond-NoPanic _, v)
  call-Served q (some (get_all_faults, info)) s v =
      let (faults, e, _, _, _) = get_all_faults_lem timestamp d c s v.orderly in
      (λ p. cc (p, ap respond_unless_panic e), v)
  call-Served q (some (delete_fault, info)) s v =
      (respond-NoPanic _, delete_fault-IsValid d c (info (codes "fault_name")) s v)
  call-Served q (some (delete_all_faults, info)) s v =
      (respond-NoPanic _, IsValid-empty _ (delete_all_faults_lem d c s v.orderly).1)

  module _ (m : Matcher) where
    -- From a valid table, any sequence of requests, whatever their methods, paths and bodies, is
    -- served without a panic of a handler, and leaves a valid table.
    pub serve-Served :
        (requests : List (HttpRequest T)) (s : d.Store)
        → IsValid (c.table s)
        → let (replies, s') = serve d timestamp m requests s in
          All NoPanic replies × IsValid (c.table s')
    unfolding serve serve_request
    serve-Served [] s v = (tt, v)
    serve-Served (q ∷ requests) s v =
        let (fine, v') = call-Served q (dispatch m routes q.method q.path) s v in
        let (rest, v'') = serve-Served requests _ v' in ((fine, rest), v'')
