-- ===== src/EvidencePack/Shapes.antt =====
-- The parts of an evidence pack.
use receipts_sdk.Prelude.{ℕ, List, Text}
use receipts_sdk.Types.{SignedReceipt}
use receipts_sdk.Merkle.{MerkleBatch}
use receipts_sdk.Keys.{KeyRecord}

pub record EvidencePackMeta : Type 0 where
  pub title : Text
  pub tenant_id : Text
  pub purpose : Text
  pub period_from : Text
  pub period_to : Text
  pub built_by : Text
  pub built_at : Text

-- The pack without its integrity block: `Omit<EvidencePack, "integrity">`.
pub record Contents : Type 0 where
  pub context : Text
  pub kind : Text
  pub meta : EvidencePackMeta
  pub trusted_keys : List KeyRecord
  pub merkle : MerkleBatch
  pub receipts : List SignedReceipt
  pub verification_instructions : Text

pub record EvidencePack : Type 0 where
  pub contents : Contents
  pub receipts_count : ℕ
  pub pack_hash : Text
