-- ===== src/FaultConfigServer/Server/Routing.antt =====
-- fault_config_server/server.rs: which handler a request reaches.
use red_monkey.Common.{Text, codes, ◌≡◌, ◌≢◌, refl, none, some, true, ◌++◌, arith}
use red_monkey.FaultConfigServer.Server.{
  Matcher, Method, get, post, delete, other_method, Endpoint, store_fault, get_fault,
  get_all_faults, delete_fault, delete_all_faults, routes, dispatch, is_segment, Info,
}

faults_no_segment :
    (name : Text) → is_segment name ≡ true → codes "/fault/" ++ name ≢ codes "/faults"
faults_no_segment name h e = ground arith

module _ (m : Matcher) where
  unnamed : m.match_path (codes "/fault/{fault_name}") (codes "/faults") ≡ none
  unnamed = m.segment_other (codes "/fault/") (codes "/faults") refl faults_no_segment

  abbrev pub Reaches : Method → Text → Endpoint → Type 0
  Reaches method path endpoint =
      (info : Info) × (dispatch m routes method path ≡ some (endpoint, info))

  abbrev pub ReachesNamed : Method → Text → Endpoint → Type 0
  ReachesNamed method name endpoint =
      (info : Info) × (dispatch m routes method (codes "/fault/" ++ name) ≡ some (endpoint, info))
      × (info (codes "fault_name") ≡ some name)

  dispatch-fixed :
      (path : Text)
      → Reaches post (codes "/fault") store_fault
        × Reaches get (codes "/faults") get_all_faults
        × Reaches delete (codes "/faults") delete_all_faults
        × (dispatch m routes other_method path ≡ none)
  unfolding dispatch
  dispatch-fixed path = (
    (let (info, e) = m.literal_self (codes "/fault") refl in (info, rw e)),
    (let (info, e) = m.literal_self (codes "/faults") refl in (info, rw (unnamed, e))),
    (let (info, e) = m.literal_self (codes "/faults") refl in (info, rw (unnamed, e))),
    refl,
  )

  dispatch-named :
      (name : Text)
      → is_segment name ≡ true
      → ReachesNamed get name get_fault × ReachesNamed delete name delete_fault
  unfolding dispatch
  dispatch-named name h =
      let (info, e, at) = m.segment_match (codes "/fault/") name refl h in
      ((info, rw e, at), (info, rw e, at))

  -- POST /fault, GET /faults and DELETE /faults reach their handlers; GET and DELETE of
  -- /fault/{fault_name}, for a name that is a path segment (not empty and without a slash), reach
  -- the handlers for one fault, with that name as the parameter; and a request with a method that is
  -- none of GET, POST and DELETE reaches no handler, whatever its path.
  pub dispatch-routes :
      (path name : Text)
      → is_segment name ≡ true
      → (Reaches post (codes "/fault") store_fault
          × Reaches get (codes "/faults") get_all_faults
          × Reaches delete (codes "/faults") delete_all_faults
          × (dispatch m routes other_method path ≡ none))
        × ReachesNamed get name get_fault
        × ReachesNamed delete name delete_fault
  dispatch-routes path name h =
      let (got, deleted) = dispatch-named name h in (dispatch-fixed path, got, deleted)
