-- ===== src/FaultConfigServer/Api.antt =====
-- The interface of the fault configuration server as its users see it, apart from the code: which
-- reply a request gets from a table of faults, and which table it leaves. The server is
-- fault_config_server/server.rs with the handlers of fault_config_server/handler.rs.
pub mod Refinement
use mathlib.Core.List.{Perm}
use red_monkey.Common.{
  ℕ, Text, codes, ◌≡◌, ◌≢◌, Option, none, some, List, [], ◌∷◌, ◌++◌, map, ◌⊎◌, ◌==◌, if◌then◌else◌,
}
use red_monkey.Common.Int.{ℤ}
use red_monkey.Store.Fault.{Fault}
use red_monkey.Store.HashMap.{lookup, NodupKeys}
use red_monkey.Store.Interface.{value}
use red_monkey.FaultConfigServer.Http.{Body, no_body, json_fault, json_faults, json_error}
use red_monkey.FaultConfigServer.Sort.Laws.{IsNewestFirst}
use red_monkey.FaultConfigServer.Handler.Listing.{changed}
use red_monkey.FaultConfigServer.Server.{
  HttpRequest, Reply, responded, not_routed, body_refused, Endpoint, store_fault, get_fault,
  get_all_faults, delete_fault, delete_all_faults, Info,
}

abbrev pub Table : Type 0 → Type 0
Table T = Text → Option (Fault T)

module _ {T : Type 0} where
  abbrev pub reply_of : ℕ → Body T → Reply T
  reply_of status body = responded (record { status = status; body = body })

  abbrev pub error_reply : ℕ → Text → Reply T
  error_reply status message =
      reply_of status (json_error (record { status_code = status; message = message }))

  abbrev pub Unchanged : Table T → Table T → Type 0
  Unchanged table table' = (k : Text) → table' k ≡ table k

  -- The faults of a table, each once.
  abbrev pub Lists : Table T → List (Fault T) → Type 0
  Lists table faults =
      (l : List (Text × Fault T)) × NodupKeys l
      × ((k : Text) → lookup k l ≡ table k)
      × Perm faults (map value l)

  -- A fault is added if none is for its command, and refused if one is.
  abbrev pub PromisedPost : Fault T → Table T → Reply T → Table T → Type 0
  PromisedPost fault table reply table' =
      ((reply ≡ reply_of 201 no_body)
        × ((k : Text) (g : Fault T) → table k ≡ some g → g.command ≢ fault.command)
        × ((k : Text) → table' k ≡ (if fault.name == k then some fault else table k)))
      ⊎ ((reply
            ≡ error_reply 409 (
                codes "There already exists a fault for the same "
                ++ fault.command
                ++ codes " command"))
          × ((k : Text) × (g : Fault T) × (table k ≡ some g) × (g.command ≡ fault.command))
          × Unchanged table table')

  -- A body that is not the JSON of a fault is refused; a fault gets the time of the request.
  abbrev pub PromisedBody : T → Option (Fault T) → Table T → Reply T → Table T → Type 0
  PromisedBody now none table reply table' = (reply ≡ body_refused) × Unchanged table table'
  PromisedBody now (some body) table reply table' =
      PromisedPost (record body { last_modified = some now }) table reply table'

  abbrev pub get_reply : Text → Option (Fault T) → Reply T
  get_reply name (some fault) = reply_of 200 (json_fault fault)
  get_reply name none = error_reply 400 (codes "Fault " ++ name ++ codes " not found")

  -- Where a path has no name of a fault as its parameter, the reply is an error.
  abbrev unnamed : Reply T
  unnamed = error_reply 500 (codes "Error fetching fault name from the request path")

  abbrev pub PromisedGet : Option Text → Table T → Reply T → Type 0
  PromisedGet none table reply = reply ≡ unnamed
  PromisedGet (some name) table reply = reply ≡ get_reply name (table name)

  abbrev pub PromisedDelete : Option Text → Table T → Reply T → Table T → Type 0
  PromisedDelete none table reply table' = (reply ≡ unnamed) × Unchanged table table'
  PromisedDelete (some name) table reply table' =
      (reply ≡ reply_of 204 no_body)
      × ((k : Text) → table' k ≡ (if name == k then none else table k))

module _ {T : Type 0} (timestamp : T → ℤ) where
  -- For each endpoint, and for none: what a request gets from a table, and the table that it leaves.
  abbrev pub Promised :
      HttpRequest T → Option (Endpoint × Info) → Table T → Reply T → Table T → Type 0
  Promised q none table reply table' = (reply ≡ not_routed) × Unchanged table table'
  Promised q (some (store_fault, info)) table reply table' =
      PromisedBody q.time q.body table reply table'
  Promised q (some (get_fault, info)) table reply table' =
      PromisedGet (info (codes "fault_name")) table reply × Unchanged table table'
  Promised q (some (get_all_faults, info)) table reply table' =
      ((faults : List (Fault T)) × (reply ≡ reply_of 200 (json_faults faults))
        × Lists table faults
        × IsNewestFirst (changed timestamp) faults)
      × Unchanged table table'
  Promised q (some (delete_fault, info)) table reply table' =
      PromisedDelete (info (codes "fault_name")) table reply table'
  Promised q (some (delete_all_faults, info)) table reply table' =
      (reply ≡ reply_of 204 no_body) × ((k : Text) → table' k ≡ none)
