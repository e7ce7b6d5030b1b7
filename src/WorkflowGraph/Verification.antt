-- ===== src/WorkflowGraph/Verification.antt =====
-- verifyWorkflow of workflow-graph.ts.
use receipts_sdk.Prelude.{
  ℕ, Bool, true, false, not, ◌&&◌, Option, none, some, List, [], ◌∷◌, ◌++◌, map, Text, text_eq,
  length, ltb, ◌==◌, every, keep, if◌then◌else◌,
}
use receipts_sdk.Prelude.Maps.{Map}
use receipts_sdk.Types.{Number, SignedReceipt}
use receipts_sdk.Crypto.{Platform}
use receipts_sdk.Verify.{Checks, verify_receipt, not_false}
use receipts_sdk.Verify.Shapes.{envelope_of}
use receipts_sdk.WorkflowGraph.{
  GraphOptions, workflow_id_of, same_id, else_try, add_new, first_tenant, run_of, id_of,
  reconstruct_workflow,
}

-- A message is modelled by the values that it shows.
pub data WorkflowError : Type 0 where
  foreign_receipts : ℕ → Option Text → List Text → WorkflowError
  content_failed : Text → WorkflowError
  parents_missing : ℕ → WorkflowError
  has_cycle many_workflows : WorkflowError

pub record WorkflowChecks : Type 0 where
  pub all_receipts_verified : Bool
  pub graph_complete : Bool
  pub acyclic : Bool
  pub single_workflow : Bool

pub record WorkflowVerifyResult : Type 0 where
  pub valid : Bool
  pub workflow_id : Option Text
  pub step_count : ℕ
  pub order : List Text
  pub checks : WorkflowChecks
  pub missing_parents : List Text
  pub errors : List WorkflowError

-- `runTenant !== null && tenant_id !== runTenant`
abbrev pub foreign_to : Option Text → SignedReceipt → Bool
foreign_to none r = false
foreign_to (some t) r = not (text_eq r.receipt.tenant_id t)

unfoldable pub foreign_of : List SignedReceipt → Option Text → Option Text → List SignedReceipt
foreign_of rs wf tenant = keep (λ r. same_id (workflow_id_of r) wf && foreign_to tenant r) rs

unfoldable pub tenants_of : List SignedReceipt → List Text → List Text
tenants_of [] seen = seen
tenants_of (r ∷ rs) seen = tenants_of rs (add_new seen r.receipt.tenant_id)

-- The hash, the signature and the stamps; not the place in the chain.
abbrev pub content_holds : Checks → Bool
content_holds c =
    c.canonical_hash_matches && c.signature_valid && not_false c.timestamp_imprint_matches

abbrev error_if : Bool → WorkflowError → List WorkflowError
error_if true e = e ∷ []
error_if false e = []

module _ (p : Platform) (rank : Number → Option ℕ) (keys : Map Text) where
  abbrev pub check_content : SignedReceipt → Checks
  check_content r =
      (verify_receipt p (envelope_of r)
        (record { public_keys = keys; previous_receipt = none })).checks

  unfoldable pub verify_content : List SignedReceipt → Bool × List WorkflowError
  verify_content [] = (true, [])
  verify_content (r ∷ rs) =
      let (all, errors) = verify_content rs in
      if content_holds (check_content r)
      then (all, errors)
      else (false, content_failed (id_of r) ∷ errors)

  unfoldable pub verify_workflow : List SignedReceipt → GraphOptions → WorkflowVerifyResult
  unfolding verify_content
  verify_workflow rs opts =
      let g = reconstruct_workflow rank rs opts in
      let tenant = else_try opts.tenant_id (first_tenant rs g.workflow_id) in
      let foreign = foreign_of rs g.workflow_id tenant in
      let (all_verified, content_errors) = verify_content (run_of rs g.workflow_id tenant) in
      let complete = length g.missing_parents == 0 in
      let single = every (λ r. same_id (workflow_id_of r) g.workflow_id) rs in
      record {
        valid = all_verified && complete && g.acyclic && single && length foreign == 0;
        workflow_id = g.workflow_id;
        step_count = length g.steps;
        order = map (λ s. s.receipt_id) g.steps;
        checks = record {
          all_receipts_verified = all_verified;
          graph_complete = complete;
          acyclic = g.acyclic;
          single_workflow = single;
        };
        missing_parents = g.missing_parents;
        errors =
            error_if (ltb 0 (length foreign))
              (foreign_receipts (length foreign) g.workflow_id (tenants_of foreign []))
            ++ content_errors
            ++ error_if (not complete) (parents_missing (length g.missing_parents))
            ++ error_if (not g.acyclic) has_cycle
            ++ error_if (not single) many_workflows;
      }
