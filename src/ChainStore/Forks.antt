-- ===== src/ChainStore/Forks.antt =====
-- The stores of chain-store.ts, under concurrent signers.
use receipts_sdk.Prelude.{refl, List, [], Text}
use receipts_sdk.Prelude.Maps.{get}
use receipts_sdk.ChainStore.Memory.{memory_store}
use receipts_sdk.ChainStore.MemoryLaws.{memory_store-IsCasStore}
use receipts_sdk.ChainStore.Outcomes.{map_head, IsKeyed}
use receipts_sdk.ChainStore.Postgres.{PgPool, postgres_store}
use receipts_sdk.ChainStore.PostgresLaws.{postgres_store-IsCasStore}
use receipts_sdk.ChainStore.Writers.{Action, run, IsChain}
use receipts_sdk.ChainStore.Writers.Runs.{start, run-IsChain}

empty-IsKeyed : IsKeyed []
unfolding get
empty-IsKeyed tenant st e = absurd (cc)

-- On an empty in-memory store, after any interleaving of loads and advances by any writers for any
-- tenants, the receipts that were committed for a tenant form one chain: every receipt has the next
-- height and links to the receipt before it, and the chain ends at the store's head.
pub memory_run-IsChain :
    (actions : List Action) (tenant : Text)
    → IsChain tenant
        (run memory_store (start []) actions).log
        (map_head (run memory_store (start []) actions).store tenant)
unfolding get
memory_run-IsChain actions tenant =
    run-IsChain memory_store-IsCasStore [] actions tenant empty-IsKeyed (λ t. refl)

-- The same of an empty Postgres table, whichever statements the database fails.
pub postgres_run-IsChain :
    (pool : PgPool) (actions : List Action) (tenant : Text)
    → IsChain tenant
        (run (postgres_store pool) (start []) actions).log
        (map_head (run (postgres_store pool) (start []) actions).store tenant)
unfolding get
postgres_run-IsChain pool actions tenant =
    run-IsChain (postgres_store-IsCasStore pool) [] actions tenant empty-IsKeyed (λ t. refl)
