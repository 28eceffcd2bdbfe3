-- ===== src/Proxy/RespUtil/Laws.antt =====
-- proxy/resp_util.rs: which requests have a command, and which addresses have a host name.
use red_monkey.Common.{
  Text, codes, ◌≡◌, refl, ◌↔◌, ◌⊎◌, inl, inr, none, some, List, ◌∷◌, ◌++◌, Result, ok, err, arith,
  Option-cases,
}
use red_monkey.Proxy.Error.{url_error}
use red_monkey.Proxy.RespUtil.{
  Resp, ValueView, array, bulk, string, UrlCrate, fetch_redis_command, command_of, command_text,
  host_of_parsed, host_of_first, get_host_name,
}

module _ (r : Resp) where
  abbrev IsText : ValueView r.Value → Text → Type 0
  IsText w command = (w ≡ bulk command) ⊎ (w ≡ string command)

  command_text-ok :
      (w : ValueView r.Value) (command : Text) → command_text r w ≡ ok command → IsText w command
  command_text-ok (bulk v) command h = inl (cc)
  command_text-ok (string v) command h = inr (cc)
  command_text-ok _ command h = cc

  text-command_text :
      (w : ValueView r.Value) (command : Text) → IsText w command → command_text r w ≡ ok command
  text-command_text w command (inl e) = rw e
  text-command_text w command (inr e) = rw e

  command_of-ok :
      (w : ValueView r.Value) (command : Text)
      → command_of r w ≡ ok command
      → (first : r.Value) × (rest : List r.Value) × (w ≡ array (first ∷ rest))
        × IsText (r.view first) command
  command_of-ok (array (first ∷ rest)) command h =
      (first, rest, refl, command_text-ok (r.view first) command h)
  command_of-ok _ command h = cc

  -- A decoded request has a command exactly if it is an array whose first element is a bulk or a
  -- simple string, and the command is that string.
  pub fetch_redis_command-ok_iff :
      (v : r.Value) (command : Text)
      → (fetch_redis_command r v ≡ ok command) ↔ (
          (first : r.Value) × (rest : List r.Value) × (r.view v ≡ array (first ∷ rest))
          × ((r.view first ≡ bulk command) ⊎ (r.view first ≡ string command)))
  unfolding fetch_redis_command
  fetch_redis_command-ok_iff v command = (
    command_of-ok (r.view v) command,
    λ (first, rest, e, text). rw e (text-command_text (r.view first) command text),
  )

module _ (u : UrlCrate) where
  -- An address whose first parse fails has no host name: the scheme is put in front only where the
  -- parse succeeds and yields no host.
  pub get_host_name-parse_error :
      (addr message : Text)
      → u.parse addr ≡ err message
      → get_host_name u addr ≡ err (url_error message)
  unfolding get_host_name
  get_host_name-parse_error addr message e = rw e

  abbrev pub HasHost : Text → Text → Result Text u.Url → Type 0
  HasHost addr host p =
      (url : u.Url) × (p ≡ ok url)
      × ((u.host_str url ≡ some host)
          ⊎ ((u.host_str url ≡ none)
              × ((again : u.Url) × (u.parse (codes "redis://" ++ addr) ≡ ok again)
                  × (u.host_str again ≡ some host))))

  host_of_parsed-ok :
      (p : Result Text u.Url) (host : Text)
      → host_of_parsed u p ≡ ok host
      → (again : u.Url) × (p ≡ ok again) × (u.host_str again ≡ some host)
  host_of_parsed-ok (err e) host h = cc
  host_of_parsed-ok (ok url) host h = (url, refl, ground arith)

  host_of_first-ok :
      (addr host : Text) (p : Result Text u.Url)
      → host_of_first u addr p ≡ ok host
      → HasHost addr host p
  host_of_first-ok addr host (err e) h = cc
  host_of_first-ok addr host (ok url) h = elim (Option-cases (u.host_str url)) [
    | inl n ↦ (url, refl, inr (n, host_of_parsed-ok _ host (ground arith)))
    | inr (x, s) ↦ (url, refl, inl (ground arith))
  ]

  -- An address has a host name exactly if it parses, and the URL has that host, or has none and
  -- the address parses behind the scheme `redis://` to a URL with that host.
  pub get_host_name-ok_iff :
      (addr host : Text) → (get_host_name u addr ≡ ok host) ↔ HasHost addr host (u.parse addr)
  unfolding get_host_name
  get_host_name-ok_iff addr host =
      (host_of_first-ok addr host (u.parse addr), λ (url, e, d). ground (arith, e, d))
