-- ===== src/FaultConfigServer/Server.antt =====
-- fault_config_server/server.rs: the routes of the HTTP server, and the serving of requests one
-- after the other. The matching of a path with a pattern is that of the crate `actix_web`.
pub mod Safety
pub mod Routing
use red_monkey.Common.{
  ℕ, Text, codes, ◌≡◌, ◌≢◌, ◌==◌, if◌then◌else◌, eqb, Option, none, some, Bool, true, false, ◌&&◌,
  not, List, [], ◌∷◌, ◌++◌, Result, ok, err,
}
use red_monkey.Common.Int.{ℤ}
use red_monkey.Store.Fault.{Fault}
use red_monkey.Store.Interface.{FaultStore}
use red_monkey.FaultConfigServer.Http.{HttpResponse, error_response}
use red_monkey.FaultConfigServer.Handler
use red_monkey.FaultConfigServer.Handler.{Answer}

pub data Method : Type 0 where
  get post delete other_method : Method

pub data Endpoint : Type 0 where
  store_fault get_fault get_all_faults delete_fault delete_all_faults : Endpoint

pub record Route : Type 0 where
  pub pattern : Text
  pub method : Method
  pub endpoint : Endpoint

-- The calls of `App::route`, in their order.
abbrev pub routes : List Route
routes =
    record { pattern = codes "/fault"; method = post; endpoint = store_fault }
    ∷ record { pattern = codes "/fault/{fault_name}"; method = get; endpoint = get_fault }
    ∷ record { pattern = codes "/faults"; method = get; endpoint = get_all_faults }
    ∷ record { pattern = codes "/fault/{fault_name}"; method = delete; endpoint = delete_fault }
    ∷ record { pattern = codes "/faults"; method = delete; endpoint = delete_all_faults }
    ∷ []

-- Whether a byte does not occur in a text.
abbrev pub without : ℕ → Text → Bool
without b [] = true
without b (c ∷ s) = not (eqb c b) && without b s

-- A path segment: not empty, and without a slash.
abbrev pub is_segment : Text → Bool
is_segment [] = false
is_segment (c ∷ s) = without b'/' (c ∷ s)

-- `actix_web` matches a path with a pattern, and keeps the values of the pattern's parameters. A
-- pattern without a parameter matches itself; `{fault_name}` at the end matches one segment.
pub record Matcher : Type 0 where
  pub match_path : Text → Text → Option (Text → Option Text)
  pub literal_self :
      (p : Text)
      → without b'{' p ≡ true
      → (info : Text → Option Text) × (match_path p p ≡ some info)
  pub literal_other : (p path : Text) → without b'{' p ≡ true → p ≢ path → match_path p path ≡ none
  pub segment_match :
      (p name : Text)
      → without b'{' p ≡ true
      → is_segment name ≡ true
      → (info : Text → Option Text) × (match_path (p ++ codes "{fault_name}") (p ++ name)
          ≡ some info)
        × (info (codes "fault_name") ≡ some name)
  pub segment_other :
      (p path : Text)
      → without b'{' p ≡ true
      → ((name : Text) → is_segment name ≡ true → p ++ name ≢ path)
      → match_path (p ++ codes "{fault_name}") path ≡ none

abbrev pub same_method : Method → Method → Bool
same_method get get = true
same_method post post = true
same_method delete delete = true
same_method _ _ = false

abbrev pub Info : Type 0
Info = Text → Option Text

module _ (m : Matcher) where
  abbrev pub matched : Endpoint → Option Info → Option (Endpoint × Info) → Option (Endpoint × Info)
  matched e (some info) rest = some (e, info)
  matched e none rest = rest

  -- The first route whose method and pattern fit.
  unfoldable pub dispatch : List Route → Method → Text → Option (Endpoint × Info)
  dispatch [] method path = none
  dispatch (route ∷ rest) method path =
      let later = dispatch rest method path in
      if same_method route.method method
      then matched route.endpoint (m.match_path route.pattern path) later
      else later

-- A request as it is served: its body, if it is the JSON of a fault, and the time of the server.
pub record HttpRequest (T : Type 0) : Type 0 where
  pub method : Method
  pub path : Text
  pub body : Option (Fault T)
  pub time : T

-- What becomes of a request: a response, no route, a body that is refused before the handler, or
-- a panic of the handler.
pub data Reply (T : Type 0) : Type 0 where
  responded : HttpResponse T → Reply T
  not_routed body_refused panicked : Reply T

abbrev pub respond : {T : Type 0} → Answer T → Reply T
respond (ok response) = responded response
respond (err e) = responded (error_response e)

abbrev pub respond_unless_panic : {T : Type 0} → Option (Answer T) → Reply T
respond_unless_panic none = panicked
respond_unless_panic (some answer) = respond answer

module _ {T : Type 0} (d : FaultStore T) (timestamp : T → ℤ) where
  abbrev pub post_fault : T → Option (Fault T) → d.Store → Reply T × d.Store
  post_fault now none s = (body_refused, s)
  post_fault now (some fault) s =
      let (answer, s') = Handler.store_fault d now fault s in (respond answer, s')

  abbrev pub call : HttpRequest T → Option (Endpoint × Info) → d.Store → Reply T × d.Store
  call q none s = (not_routed, s)
  call q (some (store_fault, info)) s = post_fault q.time q.body s
  call q (some (get_fault, info)) s =
      (respond (Handler.get_fault d (info (codes "fault_name")) s), s)
  call q (some (get_all_faults, info)) s =
      (respond_unless_panic (Handler.get_all_faults d timestamp s), s)
  call q (some (delete_fault, info)) s =
      let (answer, s') = Handler.delete_fault d (info (codes "fault_name")) s in
      (respond answer, s')
  call q (some (delete_all_faults, info)) s =
      let (answer, s') = Handler.delete_all_faults d s in (respond answer, s')

  module _ (m : Matcher) where
    unfoldable pub serve_request : HttpRequest T → d.Store → Reply T × d.Store
    serve_request q s = call q (dispatch m routes q.method q.path) s

    -- Requests that are served one after the other.
    unfoldable pub serve : List (HttpRequest T) → d.Store → List (Reply T) × d.Store
    serve [] s = ([], s)
    serve (q ∷ requests) s =
        let (reply, s') = serve_request q s in
        let (replies, s'') = serve requests s' in (reply ∷ replies, s'')
