-- ===== src/Workflow/Approvals/Outcomes.antt =====
-- Where the calls of an approval gate lead.
use receipts_sdk.Prelude.{
  ℕ, ◌≤◌, ◌<◌, ◌≡◌, ◌≢◌, ◌⊎◌, true, Option, some, none, List, [], ◌∷◌, ◌++◌, map, Text, All,
  All-append, includes, get_elem?,
}
use receipts_sdk.Workflow.{StateMachine, table_of}
use receipts_sdk.Workflow.Approvals.{
  ApprovalDecision, pending, approved, rejected, expired, done, transitions, After, Queued, first,
  last, Gate, approvals, rejections,
}

-- Names that all differ.
abbrev pub AreApart : List Text → Type 0
AreApart [] = Unit
AreApart (k ∷ ks) = All (λ j. k ≢ j) ks × AreApart ks

pub AreApart-snoc :
    (ks : List Text) (x : Text) → AreApart ks → All (λ k. k ≢ x) ks → AreApart (ks ++ x ∷ [])
AreApart-snoc [] x apart new = (tt, tt)
AreApart-snoc (k ∷ ks) x (one, apart) (here, new) =
    (All-append (λ j. k ≢ j) ks (x ∷ []) one (here, tt), AreApart-snoc ks x apart new)

abbrev pub machine : StateMachine (Unit {0})
machine = record { state = pending; history = []; transitions = table_of transitions [] }

-- After the first change, and after the second.
abbrev pub opened_as : Text → Option Text → Text → StateMachine (Unit {0})
opened_as how actor now = record {
  state = how;
  history = record { from = pending; to = how; at = now; actor = actor; metadata = none } ∷ [];
  transitions = table_of transitions [];
}

abbrev pub closed : Text → Option Text → Text → Text → StateMachine (Unit {0})
closed how actor now later = record {
  state = done;
  history =
      record { from = pending; to = how; at = now; actor = actor; metadata = none }
      ∷ record { from = how; to = done; at = later; actor = none; metadata = none }
      ∷ [];
  transitions = table_of transitions [];
}

-- No decision rejects, and too few approve, unless there is none at all.
pub record IsUndecided (threshold : ℕ) (ds : List ApprovalDecision) : Type 0 where
  pub unrejected : rejections ds ≡ 0
  pub short : (ds ≡ []) ⊎ (approvals ds < threshold)

-- Why a gate may leave "pending": for a rejection, or since at some point as many had approved as
-- the threshold asks, and nobody had rejected.
pub data Reason (threshold : ℕ) (ds : List ApprovalDecision) : Text → Type 0 where
  by_expiry : Reason threshold ds expired
  by_rejection : 1 ≤ rejections ds → Reason threshold ds rejected
  by_approval :
      (early later : List ApprovalDecision)
      → ds ≡ early ++ later
      → rejections early ≡ 0
      → threshold ≤ approvals early
      → Reason threshold ds approved

abbrev pub IsFirst : Queued → Type 0
IsFirst (first to actor after) = Unit
IsFirst (last after) = ⊥

abbrev pub IsLast : Queued → Type 0
IsLast (first to actor after) = ⊥
IsLast (last after) = Unit

abbrev pub HasLast : List Queued → Type 0
HasLast qs = (i : ℕ) × (after : After) × (get_elem? qs i ≡ some (last after))

-- Before the first change, the decisions leave the request undecided, unless a change is queued;
-- after it, the call that made it goes on; after the second, the gate is closed.
pub data IsStage (threshold : ℕ) (ds : List ApprovalDecision) (queue : List Queued)
    (resuming : List After) : StateMachine (Unit {0}) → Type 0 where
  waiting :
      resuming ≡ []
      → All IsFirst queue
      → (queue ≢ []) ⊎ IsUndecided threshold ds
      → IsStage threshold ds queue resuming machine
  moving :
      {how : Text} (actor : Option Text) (now : Text)
      → Reason threshold ds how
      → ((after : After) × (resuming ≡ after ∷ [])) ⊎ HasLast queue
      → IsStage threshold ds queue resuming (opened_as how actor now)
  ended :
      {how : Text} (actor : Option Text) (now later : Text)
      → Reason threshold ds how
      → IsStage threshold ds queue resuming (closed how actor now later)

-- A queued first transition has a reason.
abbrev pub IsJustified : ℕ → List ApprovalDecision → Queued → Type 0
IsJustified threshold ds (first to actor after) = Reason threshold ds to
IsJustified threshold ds (last after) = Unit

pub record IsApproval (g : Gate) : Type 0 where
  pub stage :
      IsStage g.workflow.request.threshold g.workflow.decisions g.queue g.resuming g.workflow.sm
  pub justified : All (IsJustified g.workflow.request.threshold g.workflow.decisions) g.queue
  pub voters :
      All (λ d. includes g.workflow.request.approvers d.approver ≡ true) g.workflow.decisions
  pub apart : AreApart (map (λ d. d.approver) g.workflow.decisions)
