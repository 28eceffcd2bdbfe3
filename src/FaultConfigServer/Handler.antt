-- ===== src/FaultConfigServer/Handler.antt =====
-- fault_config_server/handler.rs: the handlers of the fault configuration server, over any store
-- `d` that has the operations of the trait `FaultStore`. A handler returns the store that it leaves
-- beside its answer. A lock section of a handler is a function of its own, so that the sections of
-- several requests can be interleaved; logging is left out.
pub mod Invariant
pub mod Replies
pub mod DeleteAll
pub mod Listing
pub mod Race
pub mod Schedules
pub mod Repeats
pub mod Order
pub mod Cases
use red_monkey.Common.{
  Text, codes, ◌==◌, if◌then◌else◌, Option, none, some, Bool, true, false, List, [], ◌∷◌, ◌++◌,
  Result, ok, err, map_err,
}
use red_monkey.Common.Int.{ℤ, ltb_ℤ}
use red_monkey.Store.Fault.{Fault, StoreError, store_error_to_string}
use red_monkey.Store.Interface.{FaultStore}
use red_monkey.FaultConfigServer.Http.{
  HttpResponse, ServerErrorResponse, StatusCode, created, no_content, ok_200, bad_request, conflict,
  internal_server_error, as_u16, new_server_error, empty_response, json_fault, json_faults,
}
use red_monkey.FaultConfigServer.Sort.{sort_by}

-- A handler's answer.
abbrev pub Answer : Type 0 → Type 0
Answer T = Result ServerErrorResponse (HttpResponse T)

abbrev pub internal_error : StoreError → ServerErrorResponse
internal_error e = new_server_error internal_server_error e.message

abbrev pub not_in_path : ServerErrorResponse
not_in_path =
    new_server_error internal_server_error (codes "Error fetching fault name from the request path")

module _ {T : Type 0} where
  -- `let mut fault = fault.clone(); fault.last_modified = Some(Utc::now());`
  abbrev pub stamp : T → Fault T → Fault T
  stamp now fault = record fault { last_modified = some now }

  abbrev pub conflict_error : Fault T → ServerErrorResponse
  conflict_error fault =
      new_server_error conflict
        (codes "There already exists a fault for the same " ++ fault.command ++ codes " command")

  -- The loop of `store_fault` over the stored faults.
  unfoldable pub find_conflict : Fault T → List (Fault T) → Result ServerErrorResponse (Unit {0})
  find_conflict fault [] = ok tt
  find_conflict fault (f ∷ faults) =
      if f.command == fault.command then err (conflict_error fault) else find_conflict fault faults

-- `timestamp` is the seconds of a `DateTime<Utc>`.
module _ {T : Type 0} (timestamp : T → ℤ) where
  abbrev pub compare_times : Option T → Option T → Option Bool
  compare_times none b = none
  compare_times (some a) none = none
  compare_times (some a) (some b) = some (ltb_ℤ (timestamp a) (timestamp b))

  -- Whether the closure given to `sort_by` is `Greater`: it unwraps both times, and compares the
  -- second with the first. `none` is the panic of `unwrap`.
  unfoldable pub newest_first : Fault T → Fault T → Option Bool
  newest_first a b = compare_times a.last_modified b.last_modified

module _ {T : Type 0} (d : FaultStore T) where
  abbrev check_listing :
      Fault T → Result StoreError (List (Fault T)) → Result ServerErrorResponse (Unit {0})
  check_listing fault (ok faults) = find_conflict fault faults
  check_listing fault (err e) = err (internal_error e)

  -- The section of `store_fault` under the read lock.
  unfoldable pub store_fault_check : Fault T → d.Store → Result ServerErrorResponse (Unit {0})
  unfolding find_conflict
  store_fault_check fault s = check_listing fault (d.get_all_faults s)

  abbrev created_or : Result StoreError Bool → Answer T
  created_or (ok _) = ok (empty_response created)
  created_or (err e) = err (internal_error e)

  -- The section of `store_fault` under the write lock.
  unfoldable pub store_fault_write : Fault T → d.Store → Answer T × d.Store
  store_fault_write fault s = let (r, s') = d.store s fault.name fault in (created_or r, s')

  abbrev after_check :
      Fault T → d.Store → Result ServerErrorResponse (Unit {0}) → Answer T × d.Store
  after_check fault s (ok _) = store_fault_write fault s
  after_check fault s (err e) = (err e, s)

  -- POST /fault, when no other request changes the store between its two sections.
  unfoldable pub store_fault : T → Fault T → d.Store → Answer T × d.Store
  unfolding store_fault_check store_fault_write
  store_fault now body s =
      let fault = stamp now body in after_check fault s (store_fault_check fault s)

  abbrev fetched : Result StoreError (Fault T) → Answer T
  fetched (ok fault) = ok (record { status = as_u16 ok_200; body = json_fault fault })
  fetched (err e) = err (new_server_error bad_request (store_error_to_string e))

  -- GET /fault/{fault_name}; the argument is `request.match_info().get("fault_name")`.
  unfoldable pub get_fault : Option Text → d.Store → Answer T
  get_fault none s = err not_in_path
  get_fault (some fault_name) s = fetched (d.get_by_fault_name s fault_name)

  abbrev deleted : Result StoreError Bool → Answer T
  deleted (ok _) = ok (empty_response no_content)
  deleted (err e) = err (internal_error e)

  -- DELETE /fault/{fault_name}
  unfoldable pub delete_fault : Option Text → d.Store → Answer T × d.Store
  delete_fault none s = (err not_in_path, s)
  delete_fault (some fault_name) s = let (r, s') = d.delete_fault s fault_name in (deleted r, s')

  -- The loop of `delete_all_faults`. The write lock is held throughout.
  unfoldable pub delete_each : List (Fault T) → d.Store → Answer T × d.Store
  delete_each [] s = (ok (empty_response no_content), s)
  delete_each (fault ∷ faults) s =
      let (r, s') = d.delete_fault s fault.name in
      elim r [ ok _ ↦ delete_each faults s' | err e ↦ (err (internal_error e), s') ]

  abbrev delete_listing : Result StoreError (List (Fault T)) → d.Store → Answer T × d.Store
  delete_listing (ok faults) s = delete_each faults s
  delete_listing (err e) s = (err (internal_error e), s)

  -- DELETE /faults
  unfoldable pub delete_all_faults : d.Store → Answer T × d.Store
  unfolding delete_each
  delete_all_faults s = delete_listing (d.get_all_faults s) s

  -- GET /faults.
  module _ (timestamp : T → ℤ) where
    abbrev listed : Option (List (Fault T)) → Option (Answer T)
    listed none = none
    listed (some faults) = some (ok (record { status = as_u16 ok_200; body = json_faults faults }))

    abbrev sort_listing : Result StoreError (List (Fault T)) → Option (Answer T)
    sort_listing (ok faults) = listed (sort_by (newest_first timestamp) faults)
    sort_listing (err e) = some (err (internal_error e))

    -- `none` is a panic of the handler.
    unfoldable pub get_all_faults : d.Store → Option (Answer T)
    unfolding newest_first sort_by
    get_all_faults s = sort_listing (d.get_all_faults s)
