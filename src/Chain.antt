-- ===== src/Chain.antt =====
-- chain.ts: the state of each tenant's chain, in a directory of JSON files. The files are a map
-- from a path to the state that was written there; reading gives back what was written.
pub mod Paths
pub mod Isolation
use receipts_sdk.Prelude.{
  ℕ, zero, ◌+◌, Bool, true, false, ◌||◌, Option, none, some, List, [], ◌∷◌, ◌++◌, map, Text, codes,
  text_eq, take, or_else, ◌==◌, leb, ◌&&◌, if◌then◌else◌,
}
use receipts_sdk.Prelude.Maps.{Map, get, put}
use receipts_sdk.Types.{ChainState, genesis_hash}
use receipts_sdk.Crypto.{Platform, sha256_string}

-- [^a-zA-Z0-9-] becomes "_"
sanitize_unit : ℕ → ℕ
sanitize_unit c =
    if leb b'a' c && leb c b'z' || leb b'A' c && leb c b'Z' || leb b'0' c && leb c b'9' || c == b'-'
    then c
    else b'_'

unfoldable pub sanitize : Text → Text
unfolding sanitize_unit
sanitize = map sanitize_unit

-- `path.join(STATE_DIR, …)`
unfoldable pub in_state_dir : Text → Text
in_state_dir name = codes ".ledger/chains/" ++ name

unfoldable pub legacy_path_for : Text → Text
legacy_path_for tenant = in_state_dir (sanitize tenant ++ codes ".json")

-- The state of a tenant with no receipt.
abbrev pub genesis : Text → Text → ChainState
genesis tenant now = record {
  tenant_id = tenant;
  chain_height = 0;
  previous_receipt_hash = genesis_hash;
  last_receipt_id = none;
  updated_at = now;
}

-- State under the old file name is adopted only if it is the tenant's own.
unfoldable pub adopt : Option ChainState → Text → Text → ChainState
adopt none tenant now = genesis tenant now
adopt (some prior) tenant now = if text_eq prior.tenant_id tenant then prior else genesis tenant now

unfoldable pub advance_chain : ChainState → Text → Text → Text → ChainState
advance_chain prev hash id now = record {
  tenant_id = prev.tenant_id;
  chain_height = prev.chain_height + 1;
  previous_receipt_hash = hash;
  last_receipt_id = some id;
  updated_at = now;
}

module _ (p : Platform) where
  -- The readable prefix is capped; a digest of the raw id tells tenants apart.
  unfoldable pub path_for : Text → Text
  path_for tenant =
      in_state_dir (
        take 64 (sanitize tenant) ++ codes "-" ++ take 16 (sha256_string p tenant) ++ codes ".json")

  unfoldable pub load_chain_state : Map ChainState → Text → Text → ChainState
  unfolding adopt
  load_chain_state files tenant now =
      or_else (get files (path_for tenant)) (adopt (get files (legacy_path_for tenant)) tenant now)

  unfoldable pub save_chain_state : Map ChainState → ChainState → Map ChainState
  save_chain_state files state = put files (path_for state.tenant_id) state
