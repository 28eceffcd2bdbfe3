-- ===== src/Tests/StoreExamples.antt =====
-- The theorems on the store at concrete stores.
use red_monkey.Common.{
  ℕ, Text, codes, ◌≡◌, sym, ap, ◌∙◌, ◌⊎◌, inl, inr, some, [], ◌∷◌, arith, text_dec,
}
use red_monkey.Store.Fault.{Fault}
use red_monkey.Store.Interface.{IsTable}
use red_monkey.Store.Mem.{MemStore, mem_store, new_db, store, get_by_redis_cmd}
use red_monkey.Store.Mem.Table.{mem_store-IsTable}
use red_monkey.Store.Mem.Choice.{
  IsChoice, get_by_redis_cmd-IsChoice, OnePerCommand, get_by_redis_cmd_order,
}
use red_monkey.Store.Lowercase.{to_lowercase}
use red_monkey.Tests.Fixtures.{
  h, same, delay_10_milliseconds, get_custom_err, mock_fault_store, store_each,
}

mem_store-IsTable_example : IsTable (mem_store same h)
mem_store-IsTable_example = mem_store-IsTable same h

get_by_redis_cmd-IsChoice_example :
    IsChoice same
      (codes "set")
      (h.get (mock_fault_store 5).map)
      (get_by_redis_cmd same h (mock_fault_store 5) (codes "set"))
get_by_redis_cmd-IsChoice_example =
    get_by_redis_cmd-IsChoice same (codes "set") h (mock_fault_store 5)

-- Two faults, stored in either order.
abbrev one_order : MemStore h
one_order = store_each (delay_10_milliseconds ∷ get_custom_err ∷ []) (new_db h)

abbrev other_order : MemStore h
other_order = store_each (get_custom_err ∷ delay_10_milliseconds ∷ []) (new_db h)

same_tables : (k : Text) → h.get one_order.map k ≡ h.get other_order.map k
unfolding store text_dec
same_tables k = ground arith

one_of_two :
    (k : Text) (f : Fault ℕ)
    → h.get one_order.map k ≡ some f
    → (f ≡ delay_10_milliseconds) ⊎ (f ≡ get_custom_err)
unfolding store text_dec
one_of_two k f e = ground arith

different_commands : to_lowercase same (codes "SET") ≡ to_lowercase same (codes "GET") → ⊥
unfolding to_lowercase
different_commands e = ground arith

same_command :
    (f g : Fault ℕ)
    → (f ≡ delay_10_milliseconds) ⊎ (f ≡ get_custom_err)
    → (g ≡ delay_10_milliseconds) ⊎ (g ≡ get_custom_err)
    → to_lowercase same f.command ≡ to_lowercase same g.command
    → f ≡ g
same_command f g (inl p) (inl q) e = p ∙ sym q
same_command f g (inr p) (inr q) e = p ∙ sym q
same_command f g (inl p) (inr q) e = absurd (different_commands (rw (← p', ← q') e))
  where
    p' : f.command ≡ codes "SET"
    p' = ap (λ (x : Fault ℕ). x.command) p

    q' : g.command ≡ codes "GET"
    q' = ap (λ (x : Fault ℕ). x.command) q
same_command f g (inr p) (inl q) e = absurd (different_commands (rw (← p', ← q') (sym e)))
  where
    p' : g.command ≡ codes "SET"
    p' = ap (λ (x : Fault ℕ). x.command) q

    q' : f.command ≡ codes "GET"
    q' = ap (λ (x : Fault ℕ). x.command) p

one_per_command : OnePerCommand same (codes "get") (h.get one_order.map)
one_per_command j k f g ef eg e = same_command f g (one_of_two j f ef) (one_of_two k g eg) e

get_by_redis_cmd_order_example :
    get_by_redis_cmd same h one_order (codes "get")
    ≡ get_by_redis_cmd same h other_order (codes "get")
get_by_redis_cmd_order_example =
    get_by_redis_cmd_order same (codes "get") h h one_order other_order same_tables one_per_command
