-- ===== src/Workflow/Pipelines.antt =====
-- workflows/receipt-pipeline.ts: from an event to a stored receipt, over the state machine. The
-- clients that a pipeline calls are functions that may throw any value. No state is entered twice, so the
-- clock is a function of the state that is entered.
pub mod States
pub mod Phases
pub mod Stages
pub mod Ends
use receipts_sdk.Prelude.{
  Bool, true, false, Option, none, some, List, [], ◌∷◌, Bytes, Text, codes, or_else, if◌then◌else◌,
  Result, ok, err, ◌>>=◌,
}
use receipts_sdk.Prelude.Maps.{Map}
use receipts_sdk.Errors.{Error, Throws, type_error}
use receipts_sdk.Types.{
  Json, undefined, str, Fields, end, field, RawEvent, DecisionVerdict, allow, block, DecisionBlock,
  TimestampToken, SignedReceipt, KeyPair, ChainState,
}
use receipts_sdk.Crypto.{Platform}
use receipts_sdk.Payload.{canonical_signing_payload}
use receipts_sdk.Signing.{SignReceiptOptions}
use receipts_sdk.Signing.Ledger.{sign_receipt}
use receipts_sdk.Workflow.{
  Transition, StateChangeRecord, StateMachine, Request, new_machine, apply_transition,
}
use States.{
  arrow, captured, policy_evaluating, policy_decided, signing, signed, timestamping, timestamped,
  persisting, persisted, persist_skipped, notifying, done, failed, transitions,
}

-- What a client may throw: an error with its message, a value that has no message, or undefined or
-- null, which have no properties.
pub data Thrown : Type 0 where
  with_message : Error → Thrown
  without_message nullish : Thrown

-- The answer of a client.
abbrev pub Answer : Type 0 → Type 0
Answer A = Result Thrown A

-- The program's own code throws errors.
abbrev pub own : {A : Type 0} → Throws A → Answer A
own (err e) = err (with_message e)
own (ok a) = ok a

-- What the pipeline reads of a policy client's answer.
pub record PolicyAnswer : Type 0 where
  pub allow : Bool
  pub reason_codes : Option (List Text)
  pub bundle_hash : Text

pub record PipelineOptions : Type 0 where
  pub signing_key : KeyPair
  -- the path, and `client.decide` for that path
  pub policy : Option (Text × (RawEvent → Answer PolicyAnswer))
  pub tsa : Option (Bytes → Answer TimestampToken)
  pub store : Option (SignedReceipt → Answer (Unit {0}))
  pub notify : Option (SignedReceipt → Answer (Unit {0}))

-- Why a pipeline fails; the message is made of it.
pub data Fault : Type 0 where
  denied : Option (List Text) → Fault
  thrown : Error → Fault

pub record PipelineResult : Type 0 where
  pub state : Text
  pub receipt : Option SignedReceipt
  pub timestamps : Option (List TimestampToken)
  pub decision : Option DecisionBlock
  pub history : List StateChangeRecord
  pub error : Option Fault

-- The variables of a run, with the chain's files.
pub record Run : Type 0 where
  pub sm : StateMachine (Unit {0})
  pub files : Map ChainState
  pub receipt : Option SignedReceipt
  pub decision : Option DecisionBlock
  pub timestamps : Option (List TimestampToken)

-- The next statement runs only if the last did not throw.
abbrev pub then_run :
    Run × Answer (Unit {0}) → (Run → Run × Answer (Unit {0})) → Run × Answer (Unit {0})
then_run (r, err e) next = (r, err e)
then_run (r, ok u) next = next r

abbrev forget_state : Throws Text → Answer (Unit {0})
forget_state (err e) = err (with_message e)
forget_state (ok state) = ok tt

abbrev pub result_of : Run → Option Fault → PipelineResult
result_of r error = record {
  state = r.sm.state;
  receipt = r.receipt;
  timestamps = r.timestamps;
  decision = r.decision;
  history = r.sm.history;
  error = error;
}

abbrev pub decided : Text → PolicyAnswer → DecisionVerdict → DecisionBlock
decided path answer verdict = record {
  policy_bundle_hash = answer.bundle_hash;
  applied_policies = path ∷ [];
  decision = verdict;
  reason_codes = answer.reason_codes;
}

abbrev pub with_result : Run → Map ChainState × Throws SignedReceipt → Run × Answer (Unit {0})
with_result r (files, err e) = (record r { files = files }, err (with_message e))
with_result r (files, ok s) = (record r { files = files; receipt = some s }, ok tt)

abbrev pub with_token : Run → SignedReceipt → Answer TimestampToken → Run × Answer (Unit {0})
with_token r s (err e) = (r, err e)
with_token r s (ok token) = (
  record r {
    receipt = some (record s { timestamps = some (token ∷ []) });
    timestamps = some (token ∷ []);
  },
  ok tt,
)

-- What a call of `runPipeline` is given, with what it reads of the clocks and the id that it draws.
pub record Setting : Type 0 where
  pub platform : Platform
  pub clock : Text → Text
  pub message : Fault → Text
  pub receipt_id : Text
  pub loaded_at : Text
  pub signed_at : Text
  pub saved_at : Text
  pub event : RawEvent
  pub opts : PipelineOptions

module _ (w : Setting) where
  unfoldable pub enter_with : Text → Option Fields → Run → Run × Answer (Unit {0})
  enter_with to metadata r =
      let (m, answer) =
        apply_transition r.sm
          (record { to = to; actor = none; metadata = metadata; context = tt; now = w.clock to }) in
      (record r { sm = m }, forget_state answer)

  -- `await sm.transition(to)`
  unfoldable pub enter : Text → Run → Run × Answer (Unit {0})
  unfolding enter_with
  enter to r = enter_with to none r

  -- The metadata's reason, which a value without a message leaves undefined.
  abbrev pub reason_of : Option Fault → Json
  reason_of none = undefined
  reason_of (some fault) = str (w.message fault)

  -- `await sm.transition("failed", { metadata: { reason } })`
  unfoldable pub enter_failed : Option Fault → Run → Run × Answer (Unit {0})
  unfolding enter_with
  enter_failed fault r = enter_with failed (some (field (codes "reason") (reason_of fault) end)) r

  abbrev sign_options : Run → SignReceiptOptions
  sign_options r = record {
    event = w.event;
    keypair = w.opts.signing_key;
    decision = r.decision;
    decision_summary = none;
    policy_context = none;
    verification = none;
    provenance = none;
    evidence_refs = none;
    extensions = none;
    issued_at = none;
  }

  unfoldable pub sign_stage : Run → Run × Answer (Unit {0})
  sign_stage r =
      then_run
        (with_result r (
          sign_receipt w.platform r.files (sign_options r) w.receipt_id w.loaded_at w.signed_at
            w.saved_at))
        (enter signed)

  -- There is a receipt by now, here and below.
  unfoldable pub stamp_with : (Bytes → Answer TimestampToken) → Run → Run × Answer (Unit {0})
  stamp_with timestamp r = elim r.receipt [
    | none ↦ (r, ok tt)
    | some s ↦
        with_token r s
          (do canon ← own (canonical_signing_payload w.platform s.receipt); timestamp canon)
  ]

  unfoldable pub stamp_stage : Run → Run × Answer (Unit {0})
  stamp_stage r = elim w.opts.tsa [
    | none ↦ enter persisting r
    | some timestamp ↦
        then_run
          (then_run (then_run (enter timestamping r) (stamp_with timestamp)) (enter timestamped))
          (enter persisting)
  ]

  -- `await f(receipt)`
  unfoldable pub hand_over : (SignedReceipt → Answer (Unit {0})) → Run → Run × Answer (Unit {0})
  hand_over f r = elim r.receipt [ none ↦ (r, ok tt) | some s ↦ (r, f s) ]

  unfoldable pub persist_stage : Run → Run × Answer (Unit {0})
  persist_stage r = elim w.opts.store [
    | none ↦ enter persist_skipped r
    | some store ↦ then_run (hand_over store r) (enter persisted)
  ]

  unfoldable pub notify_stage : Run → Run × Answer (Unit {0})
  notify_stage r = elim w.opts.notify [
    | none ↦ enter done r
    | some notify ↦ then_run (then_run (enter notifying r) (hand_over notify)) (enter done)
  ]

  -- From the state "signing" to the end.
  unfoldable pub run_stages : Run → Run × Answer (Unit {0})
  run_stages r =
      then_run (then_run (then_run (sign_stage r) stamp_stage) persist_stage) notify_stage

  -- The `catch`, which reads the message of what was thrown; a transition to "failed" that is
  -- refused is ignored.
  abbrev pub caught : Run → Thrown → Answer PipelineResult
  caught r (with_message e) = ok (result_of (enter_failed (some (thrown e)) r).0 (some (thrown e)))
  caught r without_message = ok (result_of (enter_failed none r).0 none)
  caught r nullish = err (with_message type_error)

  abbrev pub finish : Run × Answer (Unit {0}) → Answer PipelineResult
  finish (r, ok u) = ok (result_of r none)
  finish (r, err v) = caught r v

  abbrev pub deny : Fault → Run × Answer (Unit {0}) → Answer PipelineResult
  deny fault (r, ok u) = ok (result_of r (some fault))
  deny fault (r, err v) = caught r v

  -- After the policy client's answer.
  unfoldable pub after_policy : Text → Run → Answer PolicyAnswer → Answer PipelineResult
  after_policy path r (err e) = finish (r, err e)
  after_policy path r (ok answer) =
      if answer.allow
      then finish (
          then_run
            (then_run
              (enter policy_decided (record r { decision = some (decided path answer allow) }))
              (enter signing))
            run_stages)
      else deny (denied answer.reason_codes) (
          enter_failed (some (denied answer.reason_codes))
            (record r { decision = some (decided path answer block) }))

  abbrev pub ask_policy :
      Text → Answer PolicyAnswer → Run × Answer (Unit {0}) → Answer PipelineResult
  ask_policy path answer (r, err e) = finish (r, err e)
  ask_policy path answer (r, ok u) = after_policy path r answer

  unfoldable pub run_pipeline : Map ChainState → Answer PipelineResult
  run_pipeline files =
      let start : Run = record {
        sm = new_machine captured transitions;
        files = files;
        receipt = none;
        decision = none;
        timestamps = none;
      } in
      elim w.opts.policy [
        | none ↦ finish (then_run (enter signing start) run_stages)
        | some (path, decide) ↦ ask_policy path (decide w.event) (enter policy_evaluating start)
      ]
