-- ===== src/Proxy/Connection/Configured.antt =====
-- What the proxy does with a request after the fault configuration server has changed the store:
-- the two halves of the program, through the store that they share.
use red_monkey.Common.{
  Text, Bytes, ◌≡◌, ◌≢◌, refl, sym, ap, ◌∙◌, true, Option, none, some, List, [], ◌∷◌, ok, err, inl,
  inr, ◌==◌, ==_iff, ==_refl, if◌then◌else◌, arith, Bool-cases,
}
use red_monkey.Utf8.{is_utf8}
use red_monkey.Store.Fault.{Fault, error}
use red_monkey.Store.Interface.{IsTable, found}
use red_monkey.Store.HashMap.{HashMap}
use red_monkey.Store.Lowercase.{to_lowercase}
use red_monkey.Store.Mem.{
  MemStore, mem_store, get_by_redis_cmd, matches, get_by_fault_name, found_or,
}
use red_monkey.Store.Mem.Table.{mem_store-IsTable}
use red_monkey.Store.Mem.Choice.{IsChoice, get_by_redis_cmd-IsChoice, matches-lower}
use red_monkey.FaultConfigServer.Http.{created, empty_response}
use red_monkey.FaultConfigServer.Handler.{Answer, stamp, store_fault, delete_all_faults}
use red_monkey.FaultConfigServer.Handler.Replies.{Posted, store_fault-Posted}
use red_monkey.FaultConfigServer.Handler.Invariant.{IsOrderly}
use red_monkey.FaultConfigServer.Handler.DeleteAll.{delete_all_faults_lem}
use red_monkey.Proxy.RespUtil.{Resp, UrlCrate, decode, fetch_redis_command}
use red_monkey.Proxy.Net.{client_next, Net, wrote_all, client_wrote, client_shut}
use red_monkey.Proxy.Faulter.{check_fault}
use red_monkey.Proxy.Faulter.Effects.{error_line}
use red_monkey.Proxy.Relay.{Poll}
use red_monkey.Proxy.Connection.{OriginServerConfig, handle, request_bytes}
use red_monkey.Proxy.Connection.Safety.{handle-error}

module _ {T : Type 0} (unicode_lower : Text → Text) (cmd : Text) where
  lower-matches :
      (f : Fault T)
      → to_lowercase unicode_lower cmd ≡ to_lowercase unicode_lower f.command
      → matches unicode_lower cmd f ≡ true
  unfolding matches
  lower-matches f e = (==_iff _ _).1 e

  -- The one stored fault for the command is the choice.
  IsChoice-only :
      (table : Text → Option (Fault T)) (r : Option (Fault T)) (k : Text) (f : Fault T)
      → IsChoice unicode_lower cmd table r
      → table k ≡ some f
      → matches unicode_lower cmd f ≡ true
      → ((j : Text) (g : Fault T) → table j ≡ some g → matches unicode_lower cmd g ≡ true → g ≡ f)
      → r ≡ some f
  IsChoice-only table none k f c e m only = cc ((c k f e).0, m)
  IsChoice-only table (some g) k f ((j, at), inl p) e m only = ap some (only j g at p)
  IsChoice-only table (some g) k f ((j, at), inr (star, no_match)) e m only = cc (no_match k f e, m)

  IsChoice-empty :
      (table : Text → Option (Fault T)) (r : Option (Fault T))
      → IsChoice unicode_lower cmd table r
      → ((k : Text) → table k ≡ none)
      → r ≡ none
  IsChoice-empty table none c h = refl
  IsChoice-empty table (some g) ((j, at), c) h = cc (h j, at)

found-injective :
    {T : Type 0} (k : Text) (a b : Option (Fault T)) → found_or k a ≡ found k b → a ≡ b
found-injective k none none e = refl
found-injective k none (some g) e = cc
found-injective k (some f) none e = cc
found-injective k (some f) (some g) e = ground arith

-- Whatever table the in-memory store is, it is the one that the map holds.
pub get-eq-table :
    {T : Type 0} (unicode_lower : Text → Text) (h : HashMap (Fault T))
    (c : IsTable (mem_store unicode_lower h)) (m : MemStore h) (k : Text)
    → h.get m.map k ≡ c.table m k
unfolding get_by_fault_name
get-eq-table unicode_lower h c m k = found-injective k _ _ (c.get_reply m k)

module _ {T : Type 0} (unicode_lower : Text → Text) (h : HashMap (Fault T)) (now : T)
    (fault : Fault T) (m : MemStore h) where
  -- No stored fault is for the same command, up to case.
  abbrev pub IsFresh : Type 0
  IsFresh =
      (k : Text) (g : Fault T)
      → h.get m.map k ≡ some g
      → to_lowercase unicode_lower g.command ≢ to_lowercase unicode_lower fault.command

  abbrev Accepted : Answer T × MemStore h → Type 0
  Accepted (answer, m') =
      (answer ≡ ok (empty_response created))
      × ((j : Text)
          → h.get m'.map j ≡ (if fault.name == j then some (stamp now fault) else h.get m.map j))

  holds :
      (x : MemStore h) (k : Text) → h.get x.map k ≡ (mem_store-IsTable unicode_lower h).table x k
  holds = get-eq-table unicode_lower h (mem_store-IsTable unicode_lower h)

  Posted-Accepted :
      (r : Answer T × MemStore h)
      → Posted (mem_store unicode_lower h) (mem_store-IsTable unicode_lower h) (stamp now fault) m r
      → IsFresh
      → Accepted r
  Posted-Accepted (ok x, m') (same, _, at) fresh =
      (ap ok same, λ j. rw (holds m' j, holds m j) (at j))
  Posted-Accepted (err x, m') (_, (k, g, e, q), _) fresh =
      absurd (fresh k g (holds m k ∙ e) (ap (to_lowercase unicode_lower) q))

  accepted : IsFresh → Accepted (store_fault (mem_store unicode_lower h) now fault m)
  accepted = Posted-Accepted _ (
      store_fault-Posted (mem_store unicode_lower h) (mem_store-IsTable unicode_lower h) now fault
        m)

  only :
      (cmd : Text)
      → IsFresh
      → to_lowercase unicode_lower cmd ≡ to_lowercase unicode_lower fault.command
      → (j : Text) (g : Fault T)
      → (if fault.name == j then some (stamp now fault) else h.get m.map j) ≡ some g
      → matches unicode_lower cmd g ≡ true
      → g ≡ stamp now fault
  only cmd fresh same j g e p = elim (Bool-cases (fault.name == j)) [
    | inl y ↦ ground arith
    | inr n ↦ absurd (fresh j g (ground arith) (sym (matches-lower unicode_lower cmd g p) ∙ same))
  ]

  chosen :
      (cmd : Text)
      → IsFresh
      → to_lowercase unicode_lower cmd ≡ to_lowercase unicode_lower fault.command
      → get_by_redis_cmd unicode_lower h (store_fault (mem_store unicode_lower h) now fault m).1 cmd
        ≡ some (stamp now fault)
  chosen cmd fresh same =
      let m' = (store_fault (mem_store unicode_lower h) now fault m).1 in
      let (answer, at) = accepted fresh in
      IsChoice-only unicode_lower cmd (h.get m'.map) _ fault.name (stamp now fault)
        (get_by_redis_cmd-IsChoice unicode_lower cmd h m') (at fault.name ∙ rw (==_refl fault.name))
        (lower-matches unicode_lower cmd (stamp now fault) same)
        (λ j g e p. only cmd fresh same j g (sym (at j) ∙ e) p)

module _ {T : Type 0} (r : Resp) (unicode_lower : Text → Text) (h : HashMap (Fault T))
    (m : MemStore h) (body : Bytes) (v : r.Value) (command : Text) (decoded : decode r body ≡ ok v)
    (named : fetch_redis_command r v ≡ ok command) where
  check_fault-command :
      (x : MemStore h)
      → check_fault r (mem_store unicode_lower h) x body
        ≡ ok (get_by_redis_cmd unicode_lower h x command)
  unfolding check_fault
  check_fault-command x = rw (decoded, named)

  -- After DELETE /faults on an orderly table, the check of a request that has a command finds no
  -- fault.
  pub check_fault-delete_all_faults :
      IsOrderly ((mem_store-IsTable unicode_lower h).table m)
      → check_fault r
          (mem_store unicode_lower h)
          (delete_all_faults (mem_store unicode_lower h) m).1
          body
        ≡ ok none
  check_fault-delete_all_faults w =
      let m' = (delete_all_faults (mem_store unicode_lower h) m).1 in
      let c = mem_store-IsTable unicode_lower h in
      check_fault-command m'
      ∙ ap ok (
          IsChoice-empty unicode_lower command (h.get m'.map) _
            (get_by_redis_cmd-IsChoice unicode_lower command h m')
            (λ k. get-eq-table unicode_lower h c m' k ∙ (delete_all_faults_lem _ c m w).1 k))

  module _ (now : T) (fault : Fault T) (fresh : IsFresh unicode_lower h now fault m)
      (same : to_lowercase unicode_lower command ≡ to_lowercase unicode_lower fault.command) where
    -- A fault that is posted for a command that no stored fault is for, up to case, is accepted with
    -- 201, and the check of a request for the command, up to case, then finds that fault, with the
    -- time of the POST.
    pub check_fault-store_fault :
        let (answer, m') = store_fault (mem_store unicode_lower h) now fault m in
        (answer ≡ ok (empty_response created))
        × (check_fault r (mem_store unicode_lower h) m' body ≡ ok (some (stamp now fault)))
    check_fault-store_fault = (
      (accepted unicode_lower h now fault m fresh).0,
      check_fault-command _ ∙ ap ok (chosen unicode_lower h now fault m command fresh same),
    )

    -- Once an error fault with a message in UTF-8 is posted for a command that no stored fault is
    -- for, up to case, a client whose request in UTF-8 is for that command, up to case, gets exactly
    -- the RESP error line of the message, if the write and the shutdown succeed, and the origin
    -- server is not connected to.
    pub handle-store_fault :
        (u : UrlCrate) (config : OriginServerConfig) (net : Net) (response : Bytes)
        (schedule : List Poll) (message : Text)
        → request_bytes (client_next net) ≡ ok body
        → is_utf8 body ≡ true
        → fault.fault_type ≡ error
        → fault.error_msg ≡ some message
        → is_utf8 message ≡ true
        → net.client_write (error_line message) ≡ wrote_all
        → net.client_shutdown ≡ ok tt
        → let m' = (store_fault (mem_store unicode_lower h) now fault m).1 in
          handle r u (mem_store unicode_lower h) config net m' response schedule ≡ record {
            result = some (ok tt);
            trace = client_shut ∷ client_wrote (error_line message) ∷ [];
            relay = none;
          }
    handle-store_fault u config net response schedule message received valid kind text utf8 written
          shut =
        handle-error r u (mem_store unicode_lower h) config net _ response schedule body
          (stamp now fault) received valid check_fault-store_fault.1 message kind text utf8 written
          shut
