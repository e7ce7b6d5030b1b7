-- ===== src/Errors.antt =====
-- The errors that the modelled code throws. A message is modelled by the values that it shows.
use receipts_sdk.Prelude.{ℕ, Text, Result}

pub data Error : Type 0 where
  -- canonicalize.ts
  canonicalize_undefined not_serializable : Error
  -- thrown by the canonicalize package
  canonicalize_threw : Error
  -- crypto.ts
  invalid_private_key_length : ℕ → Error
  -- validate.ts: ReceiptsValidationError, by its field
  invalid : Text → Error
  -- receipt.ts
  unsafe_integer : Error
  -- chain-store.ts: ConcurrentChainWriteError, with the tenant and the observed height
  concurrent_chain_write : Text → ℕ → Error
  -- merkle.ts
  empty_batch : Error
  -- evidence/evidence-pack.ts
  empty_pack : Error
  -- transparency-log/log.ts
  bad_leaf_length : ℕ → Error
  bad_inclusion_request bad_consistency_request : Error
  -- guardian.ts
  reviewer_is_actor : Text → Error
  action_blocked verdict_blocks : Error
  -- workflows/state-machine.ts: WorkflowError, by its code
  invalid_transition guard_failed : Text → Text → Error
  -- workflows/approval.ts, with the state, the expiry and the approver
  workflow_is window_expired not_an_approver already_decided : Text → Error
  -- key-management.ts
  unknown_kid cannot_retire_revoked : Text → Error
  -- thrown by the language: a property of undefined or null is read
  type_error : Error
  -- thrown by code that is not modelled: a database, a file system, a client of a service
  external : Text → Error

-- What a function that may throw returns.
abbrev pub Throws {ℓ} : Type ℓ → Type ℓ
Throws A = Result Error A
