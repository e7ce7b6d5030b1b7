-- ===== src/Workflow/Approvals/Votes.antt =====
-- Calls of an approval gate: what they record and what they queue, and all that can happen.
use mathlib.Core.Path.{subst}
use mathlib.Core.List.{append-nil}
use receipts_sdk.Prelude.{
  ℕ, ◌≡◌, ◌≢◌, refl, sym, ◌⊎◌, inl, inr, true, Bool-cases, Option, some, none, List, [], ◌∷◌, ◌++◌,
  map, map-snoc, Text, text_eq, All, All-append, All-mono, ltb, leb, includes, some_of, keep, arith,
}
use receipts_sdk.Errors.{Throws}
use receipts_sdk.Workflow.{StateMachine, new_machine}
use receipts_sdk.Workflow.Approvals.{
  ApprovalRequest, ApprovalDecision, approved, rejected, expired, new_approval, approvals,
  rejections, past, same_approver, After, returns_state, Queued, first, Gate, new_gate, count_votes,
  submit, expire, Event, submitting, expiring, running, resumes, happen, happen_all,
}
use receipts_sdk.Workflow.Approvals.Outcomes.{
  AreApart, AreApart-snoc, machine, IsUndecided, Reason, by_expiry, by_rejection, by_approval,
  IsFirst, waiting, moving, ended, IsJustified, IsApproval,
}
use receipts_sdk.Workflow.Approvals.Events.{
  not_pending, IsJustified-grows, some_of-same_approver, snoc_nonempty, gate, IsVoted, Justified,
  Stage, same, run_next-IsApproval, resume-IsApproval,
}

module _ (request : ApprovalRequest) (ds : List ApprovalDecision)
    (answers : List (Throws Text)) where
  -- A call that queues a change from "pending".
  queues :
      (to : Text) (actor : Option Text) (after : After) (queue : List Queued)
      (resuming : List After)
      → IsVoted request ds answers ds
      → resuming ≡ []
      → All IsFirst queue
      → Justified request ds answers queue
      → Reason request.threshold ds to
      → IsApproval (gate request ds answers machine (queue ++ first to actor after ∷ []) resuming)
  queues to actor after queue resuming voted idle firsts justified reason = record {
    stage =
        waiting idle (All-append IsFirst queue (first to actor after ∷ []) firsts (tt, tt))
          (inl (snoc_nonempty queue (first to actor after)));
    justified =
        All-append (IsJustified request.threshold ds) queue (first to actor after ∷ []) justified
          (reason, tt);
    voters = voted.0;
    apart = voted.1;
  }

module _ (request : ApprovalRequest) (ds : List ApprovalDecision) (answers : List (Throws Text))
    (queue : List Queued) (resuming : List After) (idle : resuming ≡ [])
    (firsts : All IsFirst queue) where
  -- Recording a decision of a new approver.
  count_votes-IsApproval :
      (d : ApprovalDecision)
      → IsVoted request ds answers (ds ++ d ∷ [])
      → Justified request ds answers queue
      → IsApproval (count_votes (gate request ds answers machine queue resuming) d)
  unfolding count_votes
  count_votes-IsApproval d voted justified =
      let more = ds ++ d ∷ [] in
      let kept : Justified request more answers queue =
        All-mono (IsJustified request.threshold ds) (IsJustified request.threshold more)
          (IsJustified-grows request.threshold ds d) queue justified in
      elim (Bool-cases (ltb 0 (rejections more))) [
        | inl against ↦ rw against (
            queues request more answers rejected (some d.approver) returns_state queue resuming
              voted idle firsts kept (by_rejection (ground (arith, against))))
        | inr none_against ↦ elim (Bool-cases (leb request.threshold (approvals more))) [
          | inl enough ↦
              rw (none_against, enough)
                (queues request more answers approved (some d.approver) returns_state queue resuming
                  voted idle firsts kept
                  (by_approval more [] (sym (append-nil more)) (ground (arith, none_against))
                    (ground (arith, enough))))
          | inr few ↦
              rw (none_against, few)
                (record {
                  stage = waiting idle firsts (
                      inr (record {
                        unrejected = ground (arith, none_against);
                        short = inr (ground (arith, few));
                      }));
                  justified = kept;
                  voters = voted.0;
                  apart = voted.1;
                })
        ]
      ]

  module _ (undecided : (queue ≢ []) ⊎ IsUndecided request.threshold ds)
      (voted : IsVoted request ds answers ds) (justified : Justified request ds answers queue) where
    kept : (more : List (Throws Text)) → IsApproval (gate request ds more machine queue resuming)
    kept more =
        same request ds more voted machine queue resuming (waiting idle firsts undecided) justified

    submit_waiting :
        (parse_date : Text → Option ℕ) (d : ApprovalDecision) (now_ms : ℕ)
        → IsApproval (submit parse_date (gate request ds answers machine queue resuming) d now_ms)
    unfolding submit text_eq
    submit_waiting parse_date d now_ms =
        elim (Bool-cases (past now_ms (parse_date request.expires_at))) [
          | inl late ↦ rw late (
              queues request ds answers expired (some d.approver) _ queue resuming voted idle firsts
                justified by_expiry)
          | inr timely ↦ elim (Bool-cases (includes request.approvers d.approver)) [
            | inl allowed ↦ elim (Bool-cases (some_of (same_approver d) ds)) [
              | inl again ↦ rw (timely, allowed, again) (kept _)
              | inr new ↦
                  rw (timely, allowed, new)
                    (count_votes-IsApproval d
                      (
                        All-append (λ d. includes request.approvers d.approver ≡ true) ds (d ∷ [])
                            voted.0 (allowed, tt),
                        subst AreApart (sym (map-snoc (λ d. d.approver) ds d)) (
                            AreApart-snoc (map (λ d. d.approver) ds) d.approver voted.1
                              (some_of-same_approver d ds new)),
                      )
                      justified)
            ]
            | inr stranger ↦ rw (timely, stranger) (kept _)
          ]
        ]

    expire_waiting : IsApproval (expire (gate request ds answers machine queue resuming))
    unfolding expire text_eq
    expire_waiting =
        queues request ds answers expired none returns_state queue resuming voted idle firsts
          justified by_expiry

module _ (parse_date : Text → Option ℕ) (request : ApprovalRequest) (ds : List ApprovalDecision)
    (answers : List (Throws Text)) (queue : List Queued) (resuming : List After)
    (voted : IsVoted request ds answers ds) (justified : Justified request ds answers queue) where
  submit_staged :
      (m : StateMachine (Unit {0})) (d : ApprovalDecision) (now_ms : ℕ)
      → Stage request ds answers queue resuming m
      → IsApproval (submit parse_date (gate request ds answers m queue resuming) d now_ms)
  unfolding submit text_eq
  submit_staged _ d now_ms (waiting idle firsts undecided) =
      submit_waiting request ds answers queue resuming idle firsts undecided voted justified
        parse_date d now_ms
  submit_staged _ d now_ms (moving actor now why owed) =
      rw (not_pending why)
        (same request ds _ voted _ queue resuming (moving actor now why owed) justified)
  submit_staged _ d now_ms (ended actor now later why) =
      same request ds _ voted _ queue resuming (ended actor now later why) justified

  expire_staged :
      (m : StateMachine (Unit {0}))
      → Stage request ds answers queue resuming m
      → IsApproval (expire (gate request ds answers m queue resuming))
  unfolding expire text_eq
  expire_staged _ (waiting idle firsts undecided) =
      expire_waiting request ds answers queue resuming idle firsts undecided voted justified
  expire_staged _ (moving actor now why owed) =
      rw (not_pending why)
        (same request ds _ voted _ queue resuming (moving actor now why owed) justified)
  expire_staged _ (ended actor now later why) =
      same request ds _ voted _ queue resuming (ended actor now later why) justified

happen-IsApproval :
    (parse_date : Text → Option ℕ) (g : Gate) (e : Event)
    → IsApproval g
    → IsApproval (happen parse_date g e)
unfolding happen
happen-IsApproval parse_date g (submitting d now_ms) h =
    submit_staged parse_date g.workflow.request g.workflow.decisions g.answers g.queue g.resuming
      (h.voters, h.apart) h.justified g.workflow.sm d now_ms h.stage
happen-IsApproval parse_date g expiring h =
    expire_staged parse_date g.workflow.request g.workflow.decisions g.answers g.queue g.resuming
      (h.voters, h.apart) h.justified g.workflow.sm h.stage
happen-IsApproval parse_date g (running now) h =
    run_next-IsApproval g.workflow.request g.workflow.decisions g.answers (h.voters, h.apart)
      g.workflow.sm g.queue g.resuming now h.stage h.justified
happen-IsApproval parse_date g resumes h =
    resume-IsApproval g.workflow.request g.workflow.decisions g.answers (h.voters, h.apart)
      g.workflow.sm g.queue g.resuming h.stage h.justified

happen_all-kept :
    (parse_date : Text → Option ℕ) (g : Gate) (es : List Event)
    → IsApproval g
    → IsApproval (happen_all parse_date g es)
unfolding happen_all
happen_all-kept parse_date g [] h = h
happen_all-kept parse_date g (e ∷ es) h =
    happen_all-kept parse_date (happen parse_date g e) es (happen-IsApproval parse_date g e h)

-- Whatever happens at a new gate, calls of `submit` and `expire` that overlap included, the decisions
-- are by different approvers of its list, and the history is empty, one change from pending, or that
-- change and one to done. A change to rejected has a rejection among the decisions; a change to
-- approved has at least as many approvals as the threshold, and no rejection, among the first so many
-- decisions. While the gate is pending, a change is queued, or there is no rejection and there are
-- fewer approvals than the threshold, or no decision at all; and after its first change, the call that
-- made it goes on, or has queued the change to done.
pub happen_all-IsApproval :
    (parse_date : Text → Option ℕ) (request : ApprovalRequest) (es : List Event)
    → IsApproval (happen_all parse_date (new_gate request) es)
unfolding new_gate new_approval new_machine keep
happen_all-IsApproval parse_date request es =
    happen_all-kept parse_date (new_gate request) es (record {
      stage = waiting refl tt (inr (record { unrejected = refl; short = inl refl }));
      justified = tt;
      voters = tt;
      apart = tt;
    })
