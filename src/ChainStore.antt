-- ===== src/ChainStore.antt =====
-- chain-store.ts: the stores of chain heads, behind one interface.
pub mod Memory
pub mod File
pub mod Postgres
pub mod Outcomes
pub mod MemoryLaws
pub mod PostgresLaws
pub mod Writers
pub mod Forks
use receipts_sdk.Prelude.{ℕ, ◌≡◌, ◌≢◌, ◌≤◌, ◌+◌, Text, ok, err}
use receipts_sdk.Errors.{Throws, Error}
use receipts_sdk.Types.{ChainState}
use receipts_sdk.Signing.{Head}

-- `ChainStateStore`: each method takes the store's contents and the time, and `advance` returns the
-- new contents beside its result.
pub record ChainStateStore (S : Type 0) : Type 0 where
  pub load : S → Text → Text → Throws ChainState
  pub advance : S → ChainState → Text → Text → Text → S × Throws ChainState

abbrev pub head_of : ChainState → Head
head_of st = record {
  previous_receipt_hash = st.previous_receipt_hash;
  chain_height = st.chain_height;
}

-- What the module asks of a backend: it holds one head for each tenant, a load shows it, and an
-- advance replaces it only if its height is the one that was loaded; else nothing changes.
pub record IsCasStore {S : Type 0} (store : ChainStateStore S) (IsValid : S → Type 0)
    (head : S → Text → Head) : Type 0 where
  pub load_head :
      (s : S) (tenant now : Text) (st : ChainState)
      → IsValid s
      → store.load s tenant now ≡ ok st
      → (st.tenant_id ≡ tenant) × (head_of st ≡ head s tenant)
  pub advance_valid :
      (s : S) (prev : ChainState) (hash id now : Text)
      → IsValid s
      → IsValid (store.advance s prev hash id now).0
  pub advance_ok :
      (s : S) (prev : ChainState) (hash id now : Text) (st : ChainState)
      → IsValid s
      → prev.chain_height ≤ (head s prev.tenant_id).chain_height
      → (store.advance s prev hash id now).1 ≡ ok st
      → ((head s prev.tenant_id).chain_height ≡ prev.chain_height)
        × (head (store.advance s prev hash id now).0 prev.tenant_id
            ≡ record { previous_receipt_hash = hash; chain_height = prev.chain_height + 1 })
        × ((other : Text)
            → prev.tenant_id ≢ other
            → head (store.advance s prev hash id now).0 other ≡ head s other)
  pub advance_err :
      (s : S) (prev : ChainState) (hash id now : Text) (e : Error)
      → (store.advance s prev hash id now).1 ≡ err e
      → (store.advance s prev hash id now).0 ≡ s
