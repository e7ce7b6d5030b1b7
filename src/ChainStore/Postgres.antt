-- ===== src/ChainStore/Postgres.antt =====
-- chain-store.ts: PostgresChainStateStore. The statements that it sends are data, and the database
-- answers them: it raises an error, with the table as it was, or does what the statement says.
use receipts_sdk.Prelude.{ℕ, Option, none, some, List, [], ◌∷◌, Text, ◌==◌, if◌then◌else◌, ok, err}
use receipts_sdk.Prelude.Maps.{Map, get, put}
use receipts_sdk.Errors.{Throws, Error, concurrent_chain_write}
use receipts_sdk.Types.{ChainState}
use receipts_sdk.Chain.{genesis}
use receipts_sdk.ChainStore.{ChainStateStore}
use receipts_sdk.ChainStore.Memory.{next_of}

-- The rows of `ledger_chain_state`, by their primary key.
abbrev pub Table : Type 0
Table = Map ChainState

pub data Statement : Type 0 where
  -- SELECT … WHERE tenant_id = $1
  select : Text → Statement
  -- INSERT … ON CONFLICT (tenant_id) DO NOTHING RETURNING chain_height
  insert_genesis : ChainState → Statement
  -- UPDATE … WHERE tenant_id = $1 AND chain_height = $5 RETURNING chain_height
  update_head : ChainState → ℕ → Statement

-- The rows that a statement returns, and the table that it leaves.
abbrev updated : Table → ChainState → ℕ → Option ChainState → Table × List ChainState
updated t next expected none = (t, [])
updated t next expected (some row) =
    if row.chain_height == expected then (put t next.tenant_id next, next ∷ []) else (t, [])

abbrev inserted : Table → ChainState → Option ChainState → Table × List ChainState
inserted t next none = (put t next.tenant_id next, next ∷ [])
inserted t next (some row) = (t, [])

abbrev rows_of : Option ChainState → List ChainState
rows_of none = []
rows_of (some row) = row ∷ []

unfoldable pub execute : Statement → Table → Table × List ChainState
execute (select tenant) t = (t, rows_of (get t tenant))
execute (insert_genesis next) t = inserted t next (get t next.tenant_id)
execute (update_head next expected) t = updated t next expected (get t next.tenant_id)

-- The pool that the caller passes in: when a statement in its transaction fails, by the table.
pub record PgPool : Type 0 where
  pub fails : Statement → Table → Option Error

module _ (pool : PgPool) where
  -- `withTenant` around one query: BEGIN, the tenant's context, the query, and COMMIT; on an error
  -- ROLLBACK leaves the table as it was and the error is thrown on.
  unfoldable pub with_tenant : Statement → Table → Table × Throws (List ChainState)
  with_tenant q t = elim (pool.fails q t) [
    | some e ↦ (t, err e)
    | none ↦ let (t', rows) = execute q t in (t', ok rows)
  ]

  loaded : Throws (List ChainState) → Text → Text → Throws ChainState
  loaded (err e) tenant now = err e
  loaded (ok []) tenant now = ok (genesis tenant now)
  loaded (ok (row ∷ _)) tenant now = ok row

  unfoldable pub postgres_load : Table → Text → Text → Throws ChainState
  unfolding with_tenant loaded
  postgres_load t tenant now = loaded (with_tenant (select tenant) t).1 tenant now

  -- No row came back: the compare-and-set lost, and the head is read again for the error.
  unfoldable pub lost : Throws ChainState → Text → Throws ChainState
  lost (err e) tenant = err e
  lost (ok state) tenant = err (concurrent_chain_write tenant state.chain_height)

  unfoldable pub settle :
      Table × Throws (List ChainState) → ChainState → Text → Table × Throws ChainState
  unfolding postgres_load lost
  settle (t, err e) next now = (t, err e)
  settle (t, ok []) next now = (t, lost (postgres_load t next.tenant_id now) next.tenant_id)
  settle (t, ok (_ ∷ _)) next now = (t, ok next)

  unfoldable pub postgres_advance :
      Table → ChainState → Text → Text → Text → Table × Throws ChainState
  unfolding with_tenant settle
  postgres_advance t prev hash id now =
      let next = next_of prev hash id now in
      let first = with_tenant (insert_genesis next) t in
      let later = with_tenant (update_head next prev.chain_height) t in
      settle (if prev.chain_height == 0 then first else later) next now

  abbrev pub postgres_store : ChainStateStore Table
  postgres_store = record { load = postgres_load; advance = postgres_advance }
