-- ===== src/Tests/Flows.antt =====
-- Runs of approval gates, of the receipt pipeline, and of the assurance ladder.
use receipts_sdk.Prelude.{
  ℕ, ◌≡◌, refl, true, Option, some, none, List, [], ◌∷◌, length, map, Text, codes, ok, err, some_of,
  keep,
}
use receipts_sdk.Errors.{external, type_error}
use receipts_sdk.Types.{SignedReceipt}
use receipts_sdk.Workflow.{table_of, new_machine, permit, apply_transition}
use receipts_sdk.Workflow.Approvals.{
  ApprovalRequest, Choice, approve, reject, new_approval, new_gate, run_next, resume, count_votes,
  submit, expire, Event, submitting, expiring, running, resumes, happen, happen_all, Gate, approved,
  done, rejections,
}
use receipts_sdk.Workflow.Approvals.Outcomes.{IsApproval}
use receipts_sdk.Workflow.Approvals.Votes.{happen_all-IsApproval}
use receipts_sdk.Workflow.Pipelines.{
  Answer, Thrown, with_message, without_message, nullish, Fault, PipelineResult, Setting,
  enter_with, enter, enter_failed, sign_stage, stamp_with, stamp_stage, hand_over, persist_stage,
  notify_stage, run_stages, after_policy, run_pipeline,
}
use receipts_sdk.Workflow.Pipelines.States.{failed}
use receipts_sdk.Assurance.{AssuranceOptions, l2, ladder, check_signed, assurance_level}
use receipts_sdk.Assurance.Levels.{Shows, assurance_level_sound}
use receipts_sdk.Signing.Ledger.{sign_receipt}
use receipts_sdk.Chain.{load_chain_state}
use receipts_sdk.Verify.Shapes.{envelope_of}
use receipts_sdk.Toy.{toy, keys, event}
use receipts_sdk.Tests.{runs, first, trusting}

flow_runs : Unit {0}
unfolding table_of new_machine permit apply_transition new_approval new_gate run_next resume
    count_votes submit expire happen happen_all keep some_of enter_with enter enter_failed
    sign_stage stamp_with stamp_stage hand_over persist_stage notify_stage run_stages after_policy
    run_pipeline ladder check_signed assurance_level sign_receipt load_chain_state envelope_of runs
flow_runs = tt

abbrev parse_date : Text → Option ℕ
parse_date t = some (length t)

abbrev request : ApprovalRequest
request = record {
  id = codes "a1";
  tenant_id = codes "acme";
  requested_by = codes "agent";
  requested_at = codes "t";
  approvers = codes "ann" ∷ codes "bob" ∷ codes "cid" ∷ [];
  threshold = 2;
  expires_at = codes "ttt";
}

abbrev vote : Text → Choice → Event
vote name choice =
    submitting (record { approver = name; decision = choice; at = codes "t"; comment = none }) 1

-- One approver votes twice, a stranger votes, and a second approver decides; a third rejects before
-- the machine makes the change.
abbrev events : List Event
events =
    vote (codes "ann") approve
    ∷ vote (codes "ann") approve
    ∷ vote (codes "eve") approve
    ∷ vote (codes "bob") approve
    ∷ vote (codes "cid") reject
    ∷ running (codes "u")
    ∷ running (codes "v")
    ∷ resumes
    ∷ running (codes "w")
    ∷ expiring
    ∷ []

happen_all-IsApproval_example : IsApproval (happen_all parse_date (new_gate request) events)
happen_all-IsApproval_example = happen_all-IsApproval parse_date request events

abbrev gate : Gate
gate = happen_all parse_date (new_gate request) events

-- It is approved, with a rejection among its decisions.
gate_history : map (λ c. c.to) gate.workflow.sm.history ≡ approved ∷ done ∷ []
unfolding flow_runs
gate_history = refl

gate_rejections : rejections gate.workflow.decisions ≡ 1
unfolding flow_runs
gate_rejections = refl

-- A store that fails.
abbrev setting : Setting
setting = record {
  platform = toy;
  clock = λ state. codes "t";
  message = λ fault. codes "m";
  receipt_id = codes "r1";
  loaded_at = codes "t";
  signed_at = codes "t";
  saved_at = codes "t";
  event = event;
  opts = record {
    signing_key = keys;
    policy = some (
      codes "path",
      λ e. ok (record { allow = true; reason_codes = none; bundle_hash = codes "b" }),
    );
    tsa = none;
    store = some (λ s. err (with_message (external (codes "full"))));
    notify = none;
  };
}

abbrev state_of : Answer PipelineResult → Option Text
state_of (ok result) = some result.state
state_of (err v) = none

abbrev fault_of : Answer PipelineResult → Answer (Option Fault)
fault_of (ok result) = ok result.error
fault_of (err v) = err v

abbrev stored_by : Thrown → Setting
stored_by v = record setting { opts = record setting.opts { store = some (λ s. err v) } }

pipeline_fails : state_of (run_pipeline setting []) ≡ some failed
unfolding flow_runs
pipeline_fails = refl

-- A store that throws a text, and one that throws null.
texting : fault_of (run_pipeline (stored_by without_message) []) ≡ ok none
unfolding flow_runs
texting = refl

throwing : fault_of (run_pipeline (stored_by nullish) []) ≡ err (with_message type_error)
unfolding flow_runs
throwing = refl

-- A receipt with a second signature that nobody made, under a key id that is declared attested.
abbrev grafted : SignedReceipt
grafted = record first.signed {
  signatures =
      record { alg = codes "EdDSA"; kid = codes "hsm"; sig = [] } ∷ first.signed.signatures;
}

abbrev assurance_options : AssuranceOptions
assurance_options = record {
  attested_kids = some (codes "hsm" ∷ []);
  public_keys = some trusting.public_keys;
  verified_anchor = none;
}

assurance_level_sound_example :
    Shows toy grafted assurance_options (assurance_level toy grafted assurance_options).level
assurance_level_sound_example = assurance_level_sound toy grafted assurance_options

-- It reaches L2.
grafted_attested : (assurance_level toy grafted assurance_options).level ≡ l2
unfolding flow_runs
grafted_attested = refl
