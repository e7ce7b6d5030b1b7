-- ===== src/ChainStore/MemoryLaws.antt =====
-- The in-memory store keeps the promises of a compare-and-set store.
use receipts_sdk.Prelude.{
  ◌≡◌, ◌≤◌, refl, Bool, true, false, inl, inr, Option, none, some, Option-cases, Text, arith, ok,
  err,
}
use receipts_sdk.Prelude.Maps.{Map, get}
use receipts_sdk.Errors.{Error}
use receipts_sdk.Types.{ChainState}
use receipts_sdk.ChainStore.{IsCasStore, head_of}
use receipts_sdk.ChainStore.Memory.{
  memory_load, memory_advance, memory_store, moved, commit, next_of,
}
use receipts_sdk.ChainStore.Outcomes.{
  entry_head, map_head, IsKeyed, IsOutcome, IsOutcome-IsKeyed, IsOutcome-ok,
}

memory_load-head :
    (m : Map ChainState) (tenant now : Text) (st : ChainState)
    → IsKeyed m
    → memory_store.load m tenant now ≡ ok st
    → (st.tenant_id ≡ tenant) × (head_of st ≡ map_head m tenant)
unfolding memory_load
memory_load-head m tenant now st keyed e = elim (Option-cases (get m tenant)) [
  | inl missing ↦ ground arith
  | inr (found, there) ↦ ground (arith, keyed tenant found there)
]

settled :
    (current : Option ChainState) (prev : ChainState)
    → moved current prev ≡ false
    → prev.chain_height ≤ (entry_head current).chain_height
    → (entry_head current).chain_height ≡ prev.chain_height
unfolding moved
settled none prev won behind = omega arith
settled (some st) prev won behind = ground arith

module _ (m : Map ChainState) (prev : ChainState) (hash id now : Text) where
  commit-IsOutcome :
      (b : Bool)
      → moved (get m prev.tenant_id) prev ≡ b
      → IsOutcome m prev hash id now (commit b m prev (next_of prev hash id now))
  unfolding commit
  commit-IsOutcome true e = inr (refl, λ st. cc)
  commit-IsOutcome false e = inl (settled (get m prev.tenant_id) prev e, refl)

  memory_advance-IsOutcome : IsOutcome m prev hash id now (memory_advance m prev hash id now)
  unfolding memory_advance
  memory_advance-IsOutcome = commit-IsOutcome _ refl

  memory_advance-err :
      (e : Error)
      → (memory_advance m prev hash id now).1 ≡ err e
      → (memory_advance m prev hash id now).0 ≡ m
  unfolding memory_advance
  memory_advance-err e failed = ground arith

-- The in-memory store is a compare-and-set store: a load shows the tenant's head, an advance from
-- a head that the store has had replaces it only if it is still the head, and no other tenant's
-- head changes; where an advance throws, nothing changes.
pub memory_store-IsCasStore : IsCasStore memory_store IsKeyed map_head
memory_store-IsCasStore = record {
  load_head = memory_load-head;
  advance_valid = λ m prev hash id now keyed.
      IsOutcome-IsKeyed m prev hash id now _ (memory_advance-IsOutcome m prev hash id now) keyed;
  advance_ok = λ m prev hash id now st keyed.
      IsOutcome-ok m prev hash id now _ st (memory_advance-IsOutcome m prev hash id now);
  advance_err = memory_advance-err;
}
