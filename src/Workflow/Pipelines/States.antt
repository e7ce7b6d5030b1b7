-- ===== src/Workflow/Pipelines/States.antt =====
-- receipt-pipeline.ts: the states of a pipeline and its table of transitions.
use receipts_sdk.Prelude.{none, List, [], ◌∷◌, Text, codes}
use receipts_sdk.Workflow.{Transition}

abbrev pub arrow : Text → Text → Transition (Unit {0})
arrow from to = record { from = from; to = to; guarded_by = none; action = none }

-- `PipelineState`
abbrev pub captured : Text
captured = codes "captured"

abbrev pub policy_evaluating : Text
policy_evaluating = codes "policy_evaluating"

abbrev pub policy_decided : Text
policy_decided = codes "policy_decided"

abbrev pub signing : Text
signing = codes "signing"

abbrev pub signed : Text
signed = codes "signed"

abbrev pub timestamping : Text
timestamping = codes "timestamping"

abbrev pub timestamped : Text
timestamped = codes "timestamped"

abbrev pub persisting : Text
persisting = codes "persisting"

abbrev pub persisted : Text
persisted = codes "persisted"

abbrev pub persist_skipped : Text
persist_skipped = codes "persist_skipped"

abbrev pub notifying : Text
notifying = codes "notifying"

abbrev pub done : Text
done = codes "done"

abbrev pub failed : Text
failed = codes "failed"

-- `TRANSITIONS`
abbrev pub transitions : List (Transition (Unit {0}))
transitions =
    arrow captured policy_evaluating
    ∷ arrow captured signing
    ∷ arrow policy_evaluating policy_decided
    ∷ arrow policy_evaluating failed
    ∷ arrow policy_decided signing
    ∷ arrow signing signed
    ∷ arrow signing failed
    ∷ arrow signed timestamping
    ∷ arrow signed persisting
    ∷ arrow timestamping timestamped
    ∷ arrow timestamping failed
    ∷ arrow timestamped persisting
    ∷ arrow persisting persisted
    ∷ arrow persisting persist_skipped
    ∷ arrow persisting failed
    ∷ arrow persist_skipped notifying
    ∷ arrow persist_skipped done
    ∷ arrow persisted notifying
    ∷ arrow persisted done
    ∷ arrow notifying done
    ∷ arrow notifying failed
    ∷ []
