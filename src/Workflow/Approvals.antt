-- ===== src/Workflow/Approvals.antt =====
-- workflows/approval.ts: an approval gate over the state machine. A call runs until it first awaits a
-- transition; the transitions wait in the machine's queue, and each call goes on when its own was
-- made, so the parts of several calls may come in any order.
pub mod Outcomes
pub mod Events
pub mod Votes
use receipts_sdk.Prelude.{
  ℕ, ◌+◌, Bool, true, false, not, ◌&&◌, ◌||◌, Option, some, none, List, [], ◌∷◌, ◌++◌, Text, codes,
  text_eq, length, ltb, leb, includes, some_of, keep, if◌then◌else◌, ok, err,
}
use receipts_sdk.Errors.{
  Error, Throws, workflow_is, window_expired, not_an_approver, already_decided,
}
use receipts_sdk.Types.{Fields}
use receipts_sdk.Workflow.{Transition, StateMachine, Request, new_machine, apply_transition}

-- `ApprovalState`
abbrev pub pending : Text
pending = codes "pending"

abbrev pub approved : Text
approved = codes "approved"

abbrev pub rejected : Text
rejected = codes "rejected"

abbrev pub expired : Text
expired = codes "expired"

abbrev pub done : Text
done = codes "done"

abbrev arrow : Text → Text → Transition (Unit {0})
arrow from to = record { from = from; to = to; guarded_by = none; action = none }

-- `TRANSITIONS`
abbrev pub transitions : List (Transition (Unit {0}))
transitions =
    arrow pending approved
    ∷ arrow pending rejected
    ∷ arrow pending expired
    ∷ arrow approved done
    ∷ arrow rejected done
    ∷ arrow expired done
    ∷ []

-- The context is left out: nothing reads it. The threshold is a count.
pub record ApprovalRequest : Type 0 where
  pub id : Text
  pub tenant_id : Text
  pub requested_by : Text
  pub requested_at : Text
  pub approvers : List Text
  pub threshold : ℕ
  pub expires_at : Text

pub data Choice : Type 0 where
  approve reject : Choice

pub record ApprovalDecision : Type 0 where
  pub approver : Text
  pub decision : Choice
  pub at : Text
  pub comment : Option Text

pub record ApprovalWorkflow : Type 0 where
  pub request : ApprovalRequest
  pub sm : StateMachine (Unit {0})
  pub decisions : List ApprovalDecision

unfoldable pub new_approval : ApprovalRequest → ApprovalWorkflow
new_approval request = record {
  request = request;
  sm = new_machine pending transitions;
  decisions = [];
}

abbrev pub is_approve : Choice → Bool
is_approve approve = true
is_approve reject = false

abbrev pub approvals : List ApprovalDecision → ℕ
approvals ds = length (keep (λ x. is_approve x.decision) ds)

abbrev pub rejections : List ApprovalDecision → ℕ
rejections ds = length (keep (λ x. not (is_approve x.decision)) ds)

abbrev ask : Text → Option Text → Text → Request (Unit {0})
ask to actor now = record { to = to; actor = actor; metadata = none; context = tt; now = now }

-- What a call does after its last transition: it returns the state, or throws.
pub data After : Type 0 where
  returns_state : After
  throws : Error → After

-- A transition in the machine's queue: the first of a call, or its transition to "done".
pub data Queued : Type 0 where
  first : Text → Option Text → After → Queued
  last : After → Queued

-- A gate, the queue of its machine, the calls whose first transition was made, and the answers of
-- the calls that ended.
pub record Gate : Type 0 where
  pub workflow : ApprovalWorkflow
  pub queue : List Queued
  pub resuming : List After
  pub answers : List (Throws Text)

unfoldable pub new_gate : ApprovalRequest → Gate
unfolding new_approval
new_gate request = record {
  workflow = new_approval request;
  queue = [];
  resuming = [];
  answers = [];
}

-- A call ends.
abbrev pub answered : Gate → Throws Text → Gate
answered g answer = record g { answers = g.answers ++ answer ∷ [] }

-- A call awaits a transition.
abbrev pub awaits : Gate → Queued → Gate
awaits g q = record g { queue = g.queue ++ q ∷ [] }

abbrev pub with_machine : Gate → StateMachine (Unit {0}) → Gate
with_machine g m = record g { workflow = record g.workflow { sm = m } }

abbrev pub after_first : Gate → After → StateMachine (Unit {0}) × Throws Text → Gate
after_first g after (m, err e) = answered g (err e)
after_first g after (m, ok state) = record (with_machine g m) {
  resuming = g.resuming ++ after ∷ [];
}

abbrev pub answer_of : After → Text → Throws Text
answer_of returns_state state = ok state
answer_of (throws e) state = err e

abbrev pub after_last : Gate → After → StateMachine (Unit {0}) × Throws Text → Gate
after_last g after (m, err e) = answered g (err e)
after_last g after (m, ok state) = answered (with_machine g m) (answer_of after state)

-- The machine runs the transition that is next in its queue.
unfoldable pub run_next : Gate → Text → Gate
run_next g now = elim g.queue [
  | [] ↦ g
  | first to actor after ∷ rest ↦
      after_first (record g { queue = rest }) after
        (apply_transition g.workflow.sm (ask to actor now))
  | last after ∷ rest ↦
      after_last (record g { queue = rest }) after
        (apply_transition g.workflow.sm (ask done none now))
]

-- A call whose first transition was made goes on, to `await this.sm.transition("done")`.
unfoldable pub resume : Gate → Gate
resume g = elim g.resuming [
  | [] ↦ g
  | after ∷ rest ↦ awaits (record g { resuming = rest }) (last after)
]

-- `Number.isFinite(deadline) && Date.now() >= deadline`
abbrev pub past : ℕ → Option ℕ → Bool
past now none = false
past now (some deadline) = leb deadline now

abbrev pub same_approver : ApprovalDecision → ApprovalDecision → Bool
same_approver d x = text_eq x.approver d.approver

-- The decision is recorded, and the votes are counted.
unfoldable pub count_votes : Gate → ApprovalDecision → Gate
count_votes g d =
    let ds = g.workflow.decisions ++ d ∷ [] in
    let voted : Gate = record g { workflow = record g.workflow { decisions = ds } } in
    if ltb 0 (rejections ds)
    then awaits voted (first rejected (some d.approver) returns_state)
    else if leb g.workflow.request.threshold (approvals ds)
    then awaits voted (first approved (some d.approver) returns_state)
    else answered voted (ok g.workflow.sm.state)

module _ (parse_date : Text → Option ℕ) where
  -- `submit`, up to where it first awaits; `now_ms` is `Date.now()`.
  unfoldable pub submit : Gate → ApprovalDecision → ℕ → Gate
  submit g d now_ms =
      let w = g.workflow in
      if not (text_eq w.sm.state pending)
      then answered g (err (workflow_is w.sm.state))
      else if past now_ms (parse_date w.request.expires_at)
      then awaits g (first expired (some d.approver) (throws (window_expired w.request.expires_at)))
      else if not (includes w.request.approvers d.approver)
      then answered g (err (not_an_approver d.approver))
      else if some_of (same_approver d) w.decisions
      then answered g (err (already_decided d.approver))
      else count_votes g d

-- `expire`, up to where it first awaits.
unfoldable pub expire : Gate → Gate
expire g =
    if not (text_eq g.workflow.sm.state pending)
    then answered g (ok g.workflow.sm.state)
    else awaits g (first expired none returns_state)

-- What happens at a gate: a call of `submit` or of `expire`, the machine's next transition with the
-- time that its history records, or a call that goes on.
pub data Event : Type 0 where
  submitting : ApprovalDecision → ℕ → Event
  expiring : Event
  running : Text → Event
  resumes : Event

unfoldable pub happen : (Text → Option ℕ) → Gate → Event → Gate
unfolding submit expire
happen parse_date g (submitting d now_ms) = submit parse_date g d now_ms
happen parse_date g expiring = expire g
happen parse_date g (running now) = run_next g now
happen parse_date g resumes = resume g

unfoldable pub happen_all : (Text → Option ℕ) → Gate → List Event → Gate
happen_all parse_date g [] = g
happen_all parse_date g (e ∷ es) = happen_all parse_date (happen parse_date g e) es
