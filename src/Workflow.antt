-- ===== src/Workflow.antt =====
-- workflows/state-machine.ts: StateMachine. The queue runs one transition after another, so a
-- machine's calls are a list of requests.
pub mod Trails
pub mod Approvals
pub mod Pipelines
use receipts_sdk.Prelude.{
  ◌≡◌, Bool, true, false, Option, none, some, List, [], ◌∷◌, ◌++◌, Text, codes, Result, ok, err,
  guard, ◌>>=◌, ◌>>◌,
}
use receipts_sdk.Prelude.Maps.{Map, get, put}
use receipts_sdk.Errors.{Throws, invalid_transition, guard_failed}
use receipts_sdk.Types.{Fields}

-- The guard and the action are the caller's, and may throw.
pub record Transition (C : Type 0) : Type 0 where
  pub from : Text
  pub to : Text
  pub guarded_by : Option (C → Throws Bool)
  pub action : Option (C → Throws (Unit {0}))

pub record StateChangeRecord : Type 0 where
  pub from : Text
  pub to : Text
  pub at : Text
  pub actor : Option Text
  pub metadata : Option Fields

pub record StateMachine (C : Type 0) : Type 0 where
  pub state : Text
  pub history : List StateChangeRecord
  pub transitions : Map (Transition C)

-- One call of `transition`, with the clock's reading.
pub record Request (C : Type 0) : Type 0 where
  pub to : Text
  pub actor : Option Text
  pub metadata : Option Fields
  pub context : C
  pub now : Text

-- `${from}=>${to}`
abbrev pub key_of : Text → Text → Text
key_of from to = from ++ codes "=>" ++ to

module _ {C : Type 0} where
  unfoldable pub table_of : List (Transition C) → Map (Transition C) → Map (Transition C)
  table_of [] table = table
  table_of (t ∷ ts) table = table_of ts (put table (key_of t.from t.to) t)

  unfoldable pub new_machine : Text → List (Transition C) → StateMachine C
  unfolding table_of
  new_machine initial ts = record { state = initial; history = []; transitions = table_of ts [] }

  abbrev pub found : Option (Transition C) → Text → Text → Throws (Transition C)
  found none from to = err (invalid_transition from to)
  found (some t) from to = ok t

  abbrev pub allowed_by : Option (C → Throws Bool) → C → Throws Bool
  allowed_by none c = ok true
  allowed_by (some test) c = test c

  abbrev pub run_action : Option (C → Throws (Unit {0})) → C → Throws (Unit {0})
  run_action none c = ok tt
  run_action (some act) c = act c

  -- What must go well before the state changes.
  unfoldable pub permit : StateMachine C → Request C → Throws (Unit {0})
  permit m r = do
    t ← found (get m.transitions (key_of m.state r.to)) m.state r.to
    allows ← allowed_by t.guarded_by r.context
    guard allows (guard_failed m.state r.to)
    run_action t.action r.context

  abbrev pub moved_to : StateMachine C → Request C → StateMachine C
  moved_to m r = record m {
    state = r.to;
    history =
        m.history
        ++ record { from = m.state; to = r.to; at = r.now; actor = r.actor; metadata = r.metadata }
          ∷ [];
  }

  abbrev pub settle : StateMachine C → Request C → Throws (Unit {0}) → StateMachine C × Throws Text
  settle m r (err e) = (m, err e)
  settle m r (ok u) = (moved_to m r, ok r.to)

  unfoldable pub apply_transition : StateMachine C → Request C → StateMachine C × Throws Text
  unfolding permit
  apply_transition m r = settle m r (permit m r)

  -- The queue: a failed transition does not stop those after it.
  unfoldable pub run_queue : StateMachine C → List (Request C) → StateMachine C
  run_queue m [] = m
  run_queue m (r ∷ rs) = run_queue (apply_transition m r).0 rs
