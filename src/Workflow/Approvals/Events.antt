-- ===== src/Workflow/Approvals/Events.antt =====
-- What happens at an approval gate, event by event.
use mathlib.Core.List.{append_assoc}
use receipts_sdk.Prelude.{
  ℕ, zero, suc, ◌≤◌, ◌≡◌, ◌≢◌, refl, ap, ◌∙◌, inl, inr, true, false, Bool, not, Option, none, List,
  [], ◌∷◌, ◌++◌, map, Text, text_eq, text_ne, All, All-append, length, includes, some_of, keep, ok,
  err, arith,
}
use receipts_sdk.Prelude.Maps.{get, put}
use receipts_sdk.Errors.{Throws, invalid_transition}
use receipts_sdk.Workflow.{StateMachine, table_of, new_machine, permit, apply_transition}
use receipts_sdk.Workflow.Approvals.{
  ApprovalRequest, ApprovalDecision, pending, done, is_approve, same_approver, After, Queued, first,
  last, Gate, run_next, resume, ask,
}
use receipts_sdk.Workflow.Approvals.Outcomes.{
  AreApart, machine, opened_as, closed, Reason, by_expiry, by_rejection, by_approval, HasLast,
  IsStage, waiting, moving, ended, IsJustified, IsApproval,
}

machine_runs : Unit {0}
unfolding apply_transition permit table_of get put text_eq new_machine
machine_runs = tt

-- What the machine answers, in each of its three stages.
moves :
    {threshold : ℕ} {ds : List ApprovalDecision} {how : Text} (actor : Option Text) (now : Text)
    → Reason threshold ds how
    → apply_transition machine (ask how actor now) ≡ (opened_as how actor now, ok how)
unfolding machine_runs
moves actor now by_expiry = refl
moves actor now (by_rejection against) = refl
moves actor now (by_approval early later all none_against enough) = refl

stays_open :
    {threshold : ℕ} {ds : List ApprovalDecision} {how to : Text} (actor actor' : Option Text)
    (now now' : Text)
    → Reason threshold ds how
    → Reason threshold ds to
    → apply_transition (opened_as how actor now) (ask to actor' now')
      ≡ (opened_as how actor now, err (invalid_transition how to))
unfolding machine_runs
stays_open actor actor' now now' by_expiry by_expiry = refl
stays_open actor actor' now now' by_expiry (by_rejection _) = refl
stays_open actor actor' now now' by_expiry (by_approval _ _ _ _ _) = refl
stays_open actor actor' now now' (by_rejection _) by_expiry = refl
stays_open actor actor' now now' (by_rejection _) (by_rejection _) = refl
stays_open actor actor' now now' (by_rejection _) (by_approval _ _ _ _ _) = refl
stays_open actor actor' now now' (by_approval _ _ _ _ _) by_expiry = refl
stays_open actor actor' now now' (by_approval _ _ _ _ _) (by_rejection _) = refl
stays_open actor actor' now now' (by_approval _ _ _ _ _) (by_approval _ _ _ _ _) = refl

closes :
    {threshold : ℕ} {ds : List ApprovalDecision} {how : Text} (actor : Option Text)
    (now later : Text)
    → Reason threshold ds how
    → apply_transition (opened_as how actor now) (ask done none later)
      ≡ (closed how actor now later, ok done)
unfolding machine_runs
closes actor now later by_expiry = refl
closes actor now later (by_rejection _) = refl
closes actor now later (by_approval _ _ _ _ _) = refl

stays_closed :
    (how to : Text) (actor actor' : Option Text) (now later now' : Text)
    → apply_transition (closed how actor now later) (ask to actor' now')
      ≡ (closed how actor now later, err (invalid_transition done to))
unfolding machine_runs
stays_closed how to actor actor' now later now' = refl

pub not_pending :
    {threshold : ℕ} {ds : List ApprovalDecision} {how : Text}
    → Reason threshold ds how
    → text_eq how pending ≡ false
unfolding text_eq
not_pending by_expiry = refl
not_pending (by_rejection _) = refl
not_pending (by_approval _ _ _ _ _) = refl

-- A reason stays one when a decision is added.
keep-grows :
    (test : ApprovalDecision → Bool) (ds : List ApprovalDecision) (d : ApprovalDecision)
    → length (keep test ds) ≤ length (keep test (ds ++ d ∷ []))
unfolding keep
keep-grows test [] d = omega arith
keep-grows test (x ∷ ds) d = ground (arith, keep-grows test ds d)

Reason-grows :
    (threshold : ℕ) (ds : List ApprovalDecision) (d : ApprovalDecision) {how : Text}
    → Reason threshold ds how
    → Reason threshold (ds ++ d ∷ []) how
Reason-grows threshold ds d by_expiry = by_expiry
Reason-grows threshold ds d (by_rejection against) =
    by_rejection (omega (arith, against, keep-grows (λ x. not (is_approve x.decision)) ds d))
Reason-grows threshold ds d (by_approval early later all none_against enough) =
    by_approval early (later ++ d ∷ [])
      (ap (λ ds. ds ++ d ∷ []) all ∙ append_assoc early later (d ∷ [])) none_against enough

pub IsJustified-grows :
    (threshold : ℕ) (ds : List ApprovalDecision) (d : ApprovalDecision) (q : Queued)
    → IsJustified threshold ds q
    → IsJustified threshold (ds ++ d ∷ []) q
IsJustified-grows threshold ds d (first to actor after) reason = Reason-grows threshold ds d reason
IsJustified-grows threshold ds d (last after) reason = tt

pub some_of-same_approver :
    (d : ApprovalDecision) (ds : List ApprovalDecision)
    → some_of (same_approver d) ds ≡ false
    → All (λ k. k ≢ d.approver) (map (λ d. d.approver) ds)
unfolding some_of
some_of-same_approver d [] e = tt
some_of-same_approver d (x ∷ ds) e = (
  text_ne x.approver d.approver (ground (arith, e)),
  some_of-same_approver d ds (ground (arith, e)),
)

pub snoc_nonempty : (qs : List Queued) (q : Queued) → (qs ++ q ∷ []) ≢ []
snoc_nonempty [] q e = absurd (cc)
snoc_nonempty (x ∷ qs) q e = absurd (cc)

snoc-HasLast : (qs : List Queued) (after : After) → HasLast (qs ++ last after ∷ [])
snoc-HasLast [] after = (zero, after, refl)
snoc-HasLast (q ∷ qs) after = let (i, a, at) = snoc-HasLast qs after in (suc i, a, at)

behind_first :
    {to : Text} {actor : Option Text} {after : After} (qs : List Queued)
    → HasLast (first to actor after ∷ qs)
    → HasLast qs
behind_first qs (zero, a, at) = absurd (cc)
behind_first qs (suc i, a, at) = (i, a, at)

module _ (request : ApprovalRequest) (ds : List ApprovalDecision)
    (answers : List (Throws Text)) where
  abbrev pub gate : StateMachine (Unit {0}) → List Queued → List After → Gate
  gate m queue resuming = record {
    workflow = record { request = request; sm = m; decisions = ds };
    queue = queue;
    resuming = resuming;
    answers = answers;
  }

  abbrev pub IsVoted : List ApprovalDecision → Type 0
  IsVoted ds =
      All (λ d. includes request.approvers d.approver ≡ true) ds
      × AreApart (map (λ d. d.approver) ds)

  abbrev pub Justified : List Queued → Type 0
  Justified queue = All (IsJustified request.threshold ds) queue

  abbrev pub Stage : List Queued → List After → StateMachine (Unit {0}) → Type 0
  Stage queue resuming m = IsStage request.threshold ds queue resuming m

  module _ (voted : IsVoted ds) where
    pub same :
        (m : StateMachine (Unit {0})) (queue : List Queued) (resuming : List After)
        → Stage queue resuming m
        → Justified queue
        → IsApproval (gate m queue resuming)
    same m queue resuming stage justified = record {
      stage = stage;
      justified = justified;
      voters = voted.0;
      apart = voted.1;
    }

    pub run_next-IsApproval :
        (m : StateMachine (Unit {0})) (queue : List Queued) (resuming : List After) (now : Text)
        → Stage queue resuming m
        → Justified queue
        → IsApproval (run_next (gate m queue resuming) now)
    unfolding run_next
    run_next-IsApproval m [] resuming now stage justified = same m [] resuming stage justified
    run_next-IsApproval _ (first to actor after ∷ qs) resuming now
          (waiting idle (_, firsts) undecided) (reason, justified) =
        rw (moves actor now reason) (record {
          stage = moving actor now reason (inl (after, ap (λ r. r ++ after ∷ []) idle));
          justified = justified;
          voters = voted.0;
          apart = voted.1;
        })
    run_next-IsApproval _ (first to actor after ∷ qs) resuming now (moving actor' now' why owed)
          (reason, justified) =
        rw (stays_open actor' actor now' now why reason) (record {
          stage =
              moving actor' now' why
                (elim owed [ inl going ↦ inl going | inr queued ↦ inr (behind_first qs queued) ]);
          justified = justified;
          voters = voted.0;
          apart = voted.1;
        })
    run_next-IsApproval _ (first to actor after ∷ qs) resuming now
          (ended {how} actor' now' later why) (reason, justified) =
        rw (stays_closed how to actor' actor now' later now) (record {
          stage = ended actor' now' later why;
          justified = justified;
          voters = voted.0;
          apart = voted.1;
        })
    run_next-IsApproval _ (last after ∷ qs) resuming now (waiting idle (none_last, _) undecided)
          justified =
        absurd none_last
    run_next-IsApproval _ (last after ∷ qs) resuming now (moving actor' now' why owed)
          (_, justified) =
        rw (closes actor' now' now why) (record {
          stage = ended actor' now' now why;
          justified = justified;
          voters = voted.0;
          apart = voted.1;
        })
    run_next-IsApproval _ (last after ∷ qs) resuming now (ended {how} actor' now' later why)
          (_, justified) =
        rw (stays_closed how done actor' none now' later now) (record {
          stage = ended actor' now' later why;
          justified = justified;
          voters = voted.0;
          apart = voted.1;
        })

    -- A call that goes on queues its transition to "done".
    pub resume-IsApproval :
        (m : StateMachine (Unit {0})) (queue : List Queued) (resuming : List After)
        → Stage queue resuming m
        → Justified queue
        → IsApproval (resume (gate m queue resuming))
    unfolding resume
    resume-IsApproval m queue [] stage justified = same m queue [] stage justified
    resume-IsApproval _ queue (after ∷ rest) (waiting idle firsts undecided) justified = absurd (cc)
    resume-IsApproval _ queue (after ∷ rest) (moving actor now why owed) justified = record {
      stage = moving actor now why (inr (snoc-HasLast queue after));
      justified =
          All-append (IsJustified request.threshold ds) queue (last after ∷ []) justified (tt, tt);
      voters = voted.0;
      apart = voted.1;
    }
    resume-IsApproval _ queue (after ∷ rest) (ended actor now later why) justified = record {
      stage = ended actor now later why;
      justified =
          All-append (IsJustified request.threshold ds) queue (last after ∷ []) justified (tt, tt);
      voters = voted.0;
      apart = voted.1;
    }
