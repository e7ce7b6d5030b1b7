-- ===== src/Tests/Graphs.antt =====
-- A run of two receipts, the second of which names the first as its parent.
use receipts_sdk.Prelude.{
  ℕ, ◌≡◌, refl, true, false, Option, none, some, List, [], ◌∷◌, map, keep, Text, codes, ok, err,
  All, includes, ◌↔◌,
}
use receipts_sdk.Types.{Number, nat, SignedReceipt}
use receipts_sdk.Signing.{build_signed_receipt}
use receipts_sdk.Guardian.Reviews.{text_leb}
use receipts_sdk.WorkflowGraph.{
  GraphOptions, workflow_id_of, else_try, first_tenant, run_of, id_of, by_id, present_parents,
  add_missing, missing_from, parents_map, has_child, steps_from, graph_of, reconstruct_workflow,
  recorded_parents,
}
use receipts_sdk.WorkflowGraph.Kahn.{
  insert_id, sort_ids, degrees_from, release, release_all, start, kahn,
}
use receipts_sdk.WorkflowGraph.Verification.{
  foreign_of, tenants_of, verify_content, verify_workflow,
}
use receipts_sdk.WorkflowGraph.Verified.{IsRun, verify_workflow_sound}
use receipts_sdk.WorkflowGraph.Orders.{IsDistinct, IsTopological}
use receipts_sdk.WorkflowGraph.Topological.{run_in, present_in, reconstruct_workflow-IsTopological}
use receipts_sdk.WorkflowGraph.Acyclic.{HasOrder, reconstruct_workflow-HasOrder}
use receipts_sdk.Toy.{toy}
use receipts_sdk.Tests.{runs, options, first, trusting}

graph_runs : Unit {0}
unfolding text_leb workflow_id_of first_tenant run_of by_id present_parents add_missing missing_from
    parents_map has_child steps_from graph_of reconstruct_workflow insert_id sort_ids degrees_from
    release release_all start kahn foreign_of tenants_of verify_content verify_workflow keep runs
graph_runs = tt

abbrev rank : Number → Option ℕ
rank (nat n) = some n
rank _ = none

-- A receipt of the run "w" with these parents.
abbrev member : Text → List Text → SignedReceipt
unfolding graph_runs
member id parents =
    elim (build_signed_receipt toy
      (record options {
        provenance = some (record {
          parent_receipt_ids = some parents;
          workflow_id = some (codes "w");
          lineage_root = none;
        });
      })
      receipts_sdk.Tests.start id (codes "2026-01-01T00:00:01Z")) [
        | ok b ↦ b.signed
        | err e ↦ first.signed
      ]

abbrev run : List SignedReceipt
run = member (codes "b") (codes "a" ∷ []) ∷ member (codes "a") [] ∷ []

abbrev graph_options : GraphOptions
graph_options = record { workflow_id = some (codes "w"); tenant_id = none }

accepted : (verify_workflow toy rank trusting.public_keys run graph_options).valid ≡ true
unfolding graph_runs member
accepted = refl

in_order :
    (verify_workflow toy rank trusting.public_keys run graph_options).order
    ≡ codes "a" ∷ codes "b" ∷ []
unfolding graph_runs member
in_order = refl

verify_workflow_sound_example :
    IsRun toy trusting.public_keys
      (verify_workflow toy rank trusting.public_keys run graph_options).workflow_id
      (else_try graph_options.tenant_id (
        first_tenant run
          (verify_workflow toy rank trusting.public_keys run graph_options).workflow_id))
      run
verify_workflow_sound_example =
    verify_workflow_sound toy rank trusting.public_keys run graph_options accepted

-- A receipt that names one parent twice: there is no cycle, but the graph is called cyclic.
twice_called_cyclic :
    (reconstruct_workflow rank
      (member (codes "a") [] ∷ member (codes "b") (codes "a" ∷ codes "a" ∷ []) ∷ [])
      graph_options).acyclic
    ≡ false
unfolding graph_runs member
twice_called_cyclic = refl

IsDistinct-ids : IsDistinct (map id_of (run_in run graph_options))
unfolding graph_runs member run_in
IsDistinct-ids = (refl, (refl, tt))

reconstruct_workflow-IsTopological_example :
    IsTopological
      (present_in (run_in run graph_options))
      (reconstruct_workflow rank run graph_options).order
    × All
        (λ x. includes (map id_of (run_in run graph_options)) x ≡ true)
        (reconstruct_workflow rank run graph_options).order
reconstruct_workflow-IsTopological_example =
    reconstruct_workflow-IsTopological rank run graph_options IsDistinct-ids

named_once : All (λ r. IsDistinct (recorded_parents r)) (run_in run graph_options)
unfolding graph_runs member run_in
named_once = ((refl, tt), (tt, tt))

reconstruct_workflow-HasOrder_example :
    ((reconstruct_workflow rank run graph_options).acyclic ≡ true)
    ↔ HasOrder (run_in run graph_options)
reconstruct_workflow-HasOrder_example =
    reconstruct_workflow-HasOrder rank run graph_options IsDistinct-ids named_once
