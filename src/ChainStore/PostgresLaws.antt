-- ===== src/ChainStore/PostgresLaws.antt =====
-- The Postgres store keeps the promises of a compare-and-set store, over any pool.
use receipts_sdk.Prelude.{
  ◌≡◌, refl, Bool, true, false, inl, inr, Option-cases, Text, ◌==◌, arith, ok, err, if◌then◌else◌,
}
use receipts_sdk.Prelude.Maps.{get}
use receipts_sdk.Errors.{Error, Throws}
use receipts_sdk.Types.{ChainState}
use receipts_sdk.ChainStore.{IsCasStore, head_of}
use receipts_sdk.ChainStore.Memory.{next_of}
use receipts_sdk.ChainStore.Outcomes.{map_head, IsKeyed, IsOutcome, IsOutcome-IsKeyed, IsOutcome-ok}
use receipts_sdk.ChainStore.Postgres.{
  Table, insert_genesis, update_head, execute, PgPool, with_tenant, postgres_load, settle,
  postgres_advance, postgres_store,
}

module _ (pool : PgPool) where
  load-head :
      (t : Table) (tenant now : Text) (st : ChainState)
      → IsKeyed t
      → postgres_load pool t tenant now ≡ ok st
      → (st.tenant_id ≡ tenant) × (head_of st ≡ map_head t tenant)
  unfolding postgres_load execute
  load-head t tenant now st keyed e = elim (Option-cases (get t tenant)) [
    | inl missing ↦ ground arith
    | inr (found, there) ↦ ground (arith, keyed tenant found there)
  ]

  module _ (t : Table) (prev : ChainState) (hash id now : Text) where
    abbrev next : ChainState
    next = next_of prev hash id now

    abbrev Good : Table × Throws ChainState → Type 0
    Good = IsOutcome t prev hash id now

    insert-IsOutcome :
        prev.chain_height ≡ 0
        → Good (settle pool (with_tenant pool (insert_genesis next) t) next now)
    unfolding settle with_tenant execute
    insert-IsOutcome zero_height = ground arith

    update-IsOutcome :
        Good (settle pool (with_tenant pool (update_head next prev.chain_height) t) next now)
    unfolding settle with_tenant execute
    update-IsOutcome = ground arith

    pick-IsOutcome :
        (b : Bool)
        → (prev.chain_height == 0) ≡ b
        → Good (
            settle pool
              (if b
                then with_tenant pool (insert_genesis next) t
                else with_tenant pool (update_head next prev.chain_height) t)
              next
              now)
    pick-IsOutcome true e = insert-IsOutcome (ground arith)
    pick-IsOutcome false e = update-IsOutcome

    advance-IsOutcome : Good (postgres_advance pool t prev hash id now)
    unfolding postgres_advance
    advance-IsOutcome = pick-IsOutcome _ refl

    insert-err :
        (e : Error)
        → (settle pool (with_tenant pool (insert_genesis next) t) next now).1 ≡ err e
        → (settle pool (with_tenant pool (insert_genesis next) t) next now).0 ≡ t
    unfolding settle with_tenant execute
    insert-err e failed = ground arith

    update-err :
        (e : Error)
        → (settle pool (with_tenant pool (update_head next prev.chain_height) t) next now).1 ≡ err e
        → (settle pool (with_tenant pool (update_head next prev.chain_height) t) next now).0 ≡ t
    unfolding settle with_tenant execute
    update-err e failed = ground arith

    pick-err :
        (b : Bool) (e : Error)
        → (settle pool
            (if b
              then with_tenant pool (insert_genesis next) t
              else with_tenant pool (update_head next prev.chain_height) t)
            next
            now).1
          ≡ err e
        → (settle pool
            (if b
              then with_tenant pool (insert_genesis next) t
              else with_tenant pool (update_head next prev.chain_height) t)
            next
            now).0
          ≡ t
    pick-err true e failed = insert-err e failed
    pick-err false e failed = update-err e failed

    advance-err :
        (e : Error)
        → (postgres_advance pool t prev hash id now).1 ≡ err e
        → (postgres_advance pool t prev hash id now).0 ≡ t
    unfolding postgres_advance
    advance-err e failed = pick-err (prev.chain_height == 0) e failed

-- The Postgres store is a compare-and-set store, whichever statements the database fails: a load
-- shows the tenant's head, an advance from a head that the store has had replaces it only if it is
-- still the head, and no other tenant's head changes; where an advance throws, nothing changes.
pub postgres_store-IsCasStore : (pool : PgPool) → IsCasStore (postgres_store pool) IsKeyed map_head
postgres_store-IsCasStore pool = record {
  load_head = load-head pool;
  advance_valid = λ t prev hash id now keyed.
      IsOutcome-IsKeyed t prev hash id now _ (advance-IsOutcome pool t prev hash id now) keyed;
  advance_ok = λ t prev hash id now st keyed.
      IsOutcome-ok t prev hash id now _ st (advance-IsOutcome pool t prev hash id now);
  advance_err = advance-err pool;
}
