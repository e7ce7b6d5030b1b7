-- ===== src/Workflow/Pipelines/Ends.antt =====
-- How a pipeline ends, and what its history says of the store.
use receipts_sdk.Prelude.{◌≡◌, ◌⊎◌, none, some, ok, err}
use receipts_sdk.Errors.{type_error}
use receipts_sdk.Workflow.Pipelines.{
  Answer, with_message, without_message, nullish, PipelineOptions, Fault, PipelineResult,
}
use receipts_sdk.Workflow.Pipelines.States.{done, failed}
use receipts_sdk.Workflow.Pipelines.Phases.{asked, IsHonest, ClientThrew}

-- A result is done without an error, or failed: with an error, or without one where a client threw a
-- value that has no message. Its history says that the receipt was persisted only if the store that
-- was given took it.
pub record IsEnded (opts : PipelineOptions) (result : PipelineResult) : Type 0 where
  pub ended :
      ((result.state ≡ done) × (result.error ≡ none))
      ⊎ ((result.state ≡ failed)
          × (((fault : Fault) × (result.error ≡ some fault))
              ⊎ ((result.error ≡ none) × ClientThrew opts without_message)))
  pub honest : IsHonest opts asked result.receipt result.history

-- A run gives such a result, or throws a TypeError where a client threw undefined or null.
abbrev pub IsOutcome : PipelineOptions → Answer PipelineResult → Type 0
IsOutcome opts (ok result) = IsEnded opts result
IsOutcome opts (err v) = (v ≡ with_message type_error) × ClientThrew opts nullish
