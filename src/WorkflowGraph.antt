-- ===== src/WorkflowGraph.antt =====
-- workflow-graph.ts: the graph of a run, rebuilt from its receipts, and its verification.
pub mod Kahn
pub mod Rounds
pub mod Verification
pub mod Verified
pub mod Orders
pub mod Releases
pub mod Tracks
pub mod Topological
pub mod Acyclic
use receipts_sdk.Prelude.{
  ℕ, zero, suc, ◌+◌, ◌*◌, Bool, true, false, not, ◌&&◌, ◌||◌, Option, none, some, or_else, is_some,
  List, [], ◌∷◌, ◌++◌, map, Text, codes, text_eq, length, ltb, leb, ◌==◌, every, keep, includes,
  if◌then◌else◌,
}
use receipts_sdk.Prelude.Maps.{Map, get, put}
use receipts_sdk.Types.{Number, EventLineage, ProvenanceBlock, SignedReceipt}
use receipts_sdk.Crypto.{Platform}
use receipts_sdk.Verify.{Checks, VerifyOptions, verify_receipt}
use receipts_sdk.Verify.Shapes.{envelope_of}
use Kahn.{kahn, start}

pub record WorkflowStep : Type 0 where
  pub receipt_id : Text
  pub event_type : Text
  pub chain_height : Number
  pub parents : List Text
  pub order : ℕ

pub record WorkflowGraph : Type 0 where
  pub workflow_id : Option Text
  pub steps : List WorkflowStep
  pub order : List Text
  pub roots : List Text
  pub leaves : List Text
  pub missing_parents : List Text
  pub acyclic : Bool

-- The options of both functions; the keys are an argument of the second.
pub record GraphOptions : Type 0 where
  pub workflow_id : Option Text
  pub tenant_id : Option Text

abbrev pub lineage_workflow : Option EventLineage → Option Text
lineage_workflow none = none
lineage_workflow (some l) = l.workflow_id

-- `a ?? b`
abbrev pub else_try : Option Text → Option Text → Option Text
else_try none b = b
else_try (some a) b = some a

abbrev pub provenance_workflow : Option ProvenanceBlock → Option Text
provenance_workflow none = none
provenance_workflow (some b) = b.workflow_id

unfoldable pub workflow_id_of : SignedReceipt → Option Text
workflow_id_of r =
    else_try (provenance_workflow r.receipt.provenance) (lineage_workflow r.receipt.event.lineage)

-- `===` on texts and null
abbrev pub same_id : Option Text → Option Text → Bool
same_id none none = true
same_id (some a) (some b) = text_eq a b
same_id _ _ = false

abbrev first_workflow : List SignedReceipt → Option Text
first_workflow [] = none
first_workflow (r ∷ rs) = workflow_id_of r

unfoldable pub first_tenant : List SignedReceipt → Option Text → Option Text
first_tenant [] wf = none
first_tenant (r ∷ rs) wf =
    let rest = first_tenant rs wf in
    if same_id (workflow_id_of r) wf then some r.receipt.tenant_id else rest

abbrev pub of_tenant : Option Text → SignedReceipt → Bool
of_tenant none r = true
of_tenant (some t) r = text_eq r.receipt.tenant_id t

abbrev pub target_workflow : List SignedReceipt → GraphOptions → Option Text
target_workflow rs opts = else_try opts.workflow_id (first_workflow rs)

-- The receipts of the run: of the workflow, and of its tenant.
unfoldable pub run_of : List SignedReceipt → Option Text → Option Text → List SignedReceipt
run_of rs wf tenant = keep (λ r. same_id (workflow_id_of r) wf && of_tenant tenant r) rs

abbrev pub parents_in : Option ProvenanceBlock → List Text
parents_in none = []
parents_in (some b) = or_else b.parent_receipt_ids []

abbrev pub recorded_parents : SignedReceipt → List Text
recorded_parents r = parents_in r.receipt.provenance

abbrev pub id_of : SignedReceipt → Text
id_of r = r.receipt.receipt_id

-- `byId`: a later receipt with the same id replaces the entry.
unfoldable pub by_id : List SignedReceipt → Map SignedReceipt → Map SignedReceipt
by_id [] m = m
by_id (r ∷ rs) m = by_id rs (put m (id_of r) r)

unfoldable pub present_parents : Map SignedReceipt → SignedReceipt → List Text
present_parents ids r = keep (λ q. is_some (get ids q)) (recorded_parents r)

-- `Set.add`
abbrev pub add_new : List Text → Text → List Text
add_new seen t = if includes seen t then seen else seen ++ t ∷ []

unfoldable pub add_missing : Map SignedReceipt → List Text → List Text → List Text
add_missing ids [] seen = seen
add_missing ids (q ∷ qs) seen =
    add_missing ids qs (if is_some (get ids q) then seen else add_new seen q)

unfoldable pub missing_from : Map SignedReceipt → List SignedReceipt → List Text → List Text
missing_from ids [] seen = seen
missing_from ids (r ∷ rs) seen = missing_from ids rs (add_missing ids (recorded_parents r) seen)

-- `presentParents`
unfoldable pub parents_map :
    Map SignedReceipt → List SignedReceipt → Map (List Text) → Map (List Text)
parents_map ids [] m = m
parents_map ids (r ∷ rs) m = parents_map ids rs (put m (id_of r) (present_parents ids r))

-- Whether some receipt of the run has the id among its present parents: `childCount` is not 0.
unfoldable pub has_child : Map SignedReceipt → List SignedReceipt → Text → Bool
has_child ids [] id = false
has_child ids (r ∷ rs) id = includes (present_parents ids r) id || has_child ids rs id

abbrev pub parents_of : Map (List Text) → Text → List Text
parents_of m id = or_else (get m id) []

unfoldable pub steps_from : Map SignedReceipt → Map (List Text) → ℕ → List Text → List WorkflowStep
steps_from ids parents i [] = []
steps_from ids parents i (id ∷ rest) =
    let more = steps_from ids parents (i + 1) rest in
    elim (get ids id) [
      | none ↦ more
      | some r ↦
          record {
            receipt_id = id;
            event_type = r.receipt.event.event_type;
            chain_height = r.receipt.integrity.chain_height;
            parents = parents_of parents id;
            order = i;
          }
          ∷ more
    ]

-- The rank is that of finite numbers in their order, `none` for any other.
module _ (rank : Number → Option ℕ) where
  unfoldable pub graph_of : Option Text → List SignedReceipt → WorkflowGraph
  graph_of wf run =
      let ids = by_id run [] in
      let parents = parents_map ids run [] in
      let order =
        (kahn rank ids parents (map id_of run) (length run + length run)
          (start rank ids parents (map id_of run))).order in
      let steps = steps_from ids parents 0 order in
      record {
        workflow_id = wf;
        steps = steps;
        order = map (λ s. s.receipt_id) steps;
        roots = keep (λ id. length (parents_of parents id) == 0) (map id_of run);
        leaves = keep (λ id. not (has_child ids run id)) (map id_of run);
        missing_parents = missing_from ids run [];
        acyclic = length order == length run;
      }

  unfoldable pub reconstruct_workflow : List SignedReceipt → GraphOptions → WorkflowGraph
  unfolding graph_of
  reconstruct_workflow rs opts =
      let wf = target_workflow rs opts in
      graph_of wf (run_of rs wf (else_try opts.tenant_id (first_tenant rs wf)))
