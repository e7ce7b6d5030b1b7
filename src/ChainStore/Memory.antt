-- ===== src/ChainStore/Memory.antt =====
-- chain-store.ts: MemoryChainStateStore.
use receipts_sdk.Prelude.{
  ℕ, ◌+◌, Bool, Option, none, some, Text, or_else, not, ◌==◌, true, false, ok, err,
}
use receipts_sdk.Prelude.Maps.{Map, get, put}
use receipts_sdk.Errors.{Throws, concurrent_chain_write}
use receipts_sdk.Types.{ChainState}
use receipts_sdk.Chain.{genesis}
use receipts_sdk.ChainStore.{ChainStateStore}

unfoldable pub memory_load : Map ChainState → Text → Text → ChainState
memory_load m tenant now = or_else (get m tenant) (genesis tenant now)

-- The compare-and-set: a head that moved since `prev` was loaded.
unfoldable pub moved : Option ChainState → ChainState → Bool
moved none prev = false
moved (some current) prev = not (current.chain_height == prev.chain_height)

unfoldable pub observed : Option ChainState → ℕ
observed none = 0
observed (some current) = current.chain_height

abbrev pub next_of : ChainState → Text → Text → Text → ChainState
next_of prev hash id now = record {
  tenant_id = prev.tenant_id;
  chain_height = prev.chain_height + 1;
  previous_receipt_hash = hash;
  last_receipt_id = some id;
  updated_at = now;
}

-- The branch on the test: throw, or store the next head.
unfoldable pub commit :
    Bool → Map ChainState → ChainState → ChainState → Map ChainState × Throws ChainState
unfolding observed
commit true m prev next =
    (m, err (concurrent_chain_write prev.tenant_id (observed (get m prev.tenant_id))))
commit false m prev next = (put m prev.tenant_id next, ok next)

unfoldable pub memory_advance :
    Map ChainState → ChainState → Text → Text → Text → Map ChainState × Throws ChainState
unfolding moved commit
memory_advance m prev hash id now =
    commit (moved (get m prev.tenant_id) prev) m prev (next_of prev hash id now)

abbrev pub memory_store : ChainStateStore (Map ChainState)
memory_store = record {
  load = λ m tenant now. ok (memory_load m tenant now);
  advance = memory_advance;
}
