-- ===== src/ChainStore/File.antt =====
-- chain-store.ts: FileChainStateStore, over the files of chain.ts.
use receipts_sdk.Prelude.{Text, not, ◌==◌, if◌then◌else◌, ok, err}
use receipts_sdk.Prelude.Maps.{Map}
use receipts_sdk.Errors.{Throws, concurrent_chain_write}
use receipts_sdk.Types.{ChainState}
use receipts_sdk.Crypto.{Platform}
use receipts_sdk.Chain.{load_chain_state, advance_chain, save_chain_state}
use receipts_sdk.ChainStore.{ChainStateStore}

module _ (p : Platform) where
  -- The head is read again, and the write is refused if it moved.
  unfoldable pub file_advance :
      Map ChainState → ChainState → Text → Text → Text → Map ChainState × Throws ChainState
  file_advance files prev hash id now =
      let current = load_chain_state p files prev.tenant_id now in
      let next = advance_chain prev hash id now in
      if not (current.chain_height == prev.chain_height)
      then (files, err (concurrent_chain_write prev.tenant_id current.chain_height))
      else (save_chain_state p files next, ok next)

  abbrev pub file_store : ChainStateStore (Map ChainState)
  file_store = record {
    load = λ files tenant now. ok (load_chain_state p files tenant now);
    advance = file_advance;
  }
