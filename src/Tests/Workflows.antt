-- ===== src/Tests/Workflows.antt =====
-- A state machine that decides once.
use receipts_sdk.Prelude.{
  ◌≡◌, refl, Bool, not, every, ◌==◌, arith, true, some, none, List, [], ◌∷◌, Text, codes, ok, err,
  text_eq,
}
use receipts_sdk.Prelude.Maps.{get, put}
use receipts_sdk.Errors.{invalid_transition}
use receipts_sdk.Workflow.{
  Transition, Request, table_of, new_machine, permit, apply_transition, run_queue,
}
use receipts_sdk.Workflow.Trails.{IsTrail, IsPlain, run_queue-IsTrail}

machine_runs : Unit {0}
unfolding table_of new_machine permit apply_transition run_queue get put text_eq
machine_runs = tt

abbrev arrow : Text → Text → Transition Bool
arrow from to = record {
  from = from;
  to = to;
  guarded_by = some (λ allows. ok allows);
  action = none;
}

abbrev table : List (Transition Bool)
table = arrow (codes "pending") (codes "approved") ∷ arrow (codes "pending") (codes "rejected") ∷ []

abbrev ask : Text → Request Bool
ask to = record { to = to; actor = none; metadata = none; context = true; now = [] }

-- The second decision comes too late.
abbrev asked : List (Request Bool)
asked = ask (codes "approved") ∷ ask (codes "rejected") ∷ []

plain : (t : Text) → every (λ u. not (u == 62)) t ≡ true → IsPlain t
unfolding every
plain [] e = tt
plain (u ∷ t) e = ((λ same. absurd (ground (arith, same, e))), plain t (ground (arith, e)))

run_queue-IsTrail_example :
    IsTrail table
      (codes "pending")
      (run_queue (new_machine (codes "pending") table) asked).history
      (run_queue (new_machine (codes "pending") table) asked).state
unfolding every
run_queue-IsTrail_example =
    run_queue-IsTrail (codes "pending") table asked (plain (codes "pending") refl) (
      (plain (codes "pending") refl, plain (codes "approved") refl),
      ((plain (codes "pending") refl, plain (codes "rejected") refl), tt),
    )

ends_approved : (run_queue (new_machine (codes "pending") table) asked).state ≡ codes "approved"
unfolding machine_runs
ends_approved = refl

refused :
    (apply_transition (new_machine (codes "pending") table) (ask (codes "done"))).1
    ≡ err (invalid_transition (codes "pending") (codes "done"))
unfolding machine_runs
refused = refl
