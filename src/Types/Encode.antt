-- ===== src/Types/Encode.antt =====
-- A receipt as the JavaScript object that it is, for the functions that take any value. An absent
-- field is left out.
pub mod Occurring
use receipts_sdk.Prelude.{Text, Option, none, some, List, [], ◌∷◌, String, codes}
use receipts_sdk.Types.{
  Json, null, bool, num, str, arr, obj, Items, nil, cons, Fields, end, field, DecisionVerdict,
  allow, block, flag, require_approval, EventContext, EventSubject, EventPayload, EventLineage,
  RawEvent, DecisionBlock, ProvenanceBlock, IntegrityBlock, EvidenceRef, PolicyRule, PolicyContext,
  ProofArtifact, VerificationType, formal, rule_based, hybrid, VerificationStatus, verified, failed,
  pending, not_applicable, VerificationBlock, DecisionSummary, Receipt,
}

module _ {A : Type 0} where
  unfoldable pub items : (A → Json) → List A → Items
  items f [] = nil
  items f (x ∷ xs) = cons (f x) (items f xs)

  unfoldable pub list_of : (A → Json) → List A → Json
  unfolding items
  list_of f xs = arr (items f xs)

  -- A required field.
  unfoldable pub req : String → (A → Json) → A → Fields → Fields
  req k f v rest = field (codes k) (f v) rest

  -- An optional field.
  unfoldable pub opt : String → (A → Json) → Option A → Fields → Fields
  opt k f none rest = rest
  opt k f (some v) rest = field (codes k) (f v) rest

same : Json → Json
same j = j

texts : List Text → Json
texts = list_of str

verdict : DecisionVerdict → Json
verdict allow = str (codes "allow")
verdict block = str (codes "block")
verdict flag = str (codes "flag")
verdict require_approval = str (codes "require-approval")

context : EventContext → Json
context c = obj (
    opt "user_id" str c.user_id (
      opt "session_id" str c.session_id (
        opt "service_id" str c.service_id (
          opt "environment" str c.environment
            (opt "region" str c.region (opt "correlation_id" str c.correlation_id end))))))

subject : EventSubject → Json
subject s = obj (
    opt "ai_vendor" str s.ai_vendor (
      opt "ai_model" str s.ai_model (
        opt "ai_model_version" str s.ai_model_version (
          opt "base_model" str s.base_model (
            opt "ai_provider" str s.ai_provider (
              opt "ai_capability" str s.ai_capability (
                opt "model_card_hash" str s.model_card_hash (
                  opt "fine_tune_id" str s.fine_tune_id
                    (opt "system_prompt_hash" str s.system_prompt_hash end)))))))))

payload : EventPayload → Json
payload p = obj (
    opt "input_hash" str p.input_hash (
      opt "input_classification" str p.input_classification (
        opt "input_size_bytes" num p.input_size_bytes (
          opt "input_token_count" num p.input_token_count (
            opt "output_hash" str p.output_hash (
              opt "output_classification" str p.output_classification (
                opt "output_size_bytes" num p.output_size_bytes (
                  opt "output_token_count" num p.output_token_count (
                    opt "tool_calls" (list_of same) p.tool_calls (
                      opt "retrieval_refs" (list_of same) p.retrieval_refs
                        (opt "metadata" obj p.metadata end)))))))))))

lineage : EventLineage → Json
lineage l = obj (
    opt "parent_event_ids" texts l.parent_event_ids
      (opt "workflow_id" str l.workflow_id (opt "trace_id" str l.trace_id end)))

unfoldable pub event_json : RawEvent → Json
unfolding items list_of req opt same texts context subject payload lineage
event_json e = obj (
    req "schema_version" str e.schema_version (
      req "tenant_id" str e.tenant_id (
        req "event_type" str e.event_type (
          req "source_system" str e.source_system (
            req "event_id" str e.event_id (
              req "captured_at" str e.captured_at (
                opt "context" context e.context (
                  opt "subject" subject e.subject
                    (opt "payload" payload e.payload (opt "lineage" lineage e.lineage end))))))))))

decision : DecisionBlock → Json
decision d = obj (
    req "policy_bundle_hash" str d.policy_bundle_hash (
      req "applied_policies" texts d.applied_policies
        (req "decision" verdict d.decision (opt "reason_codes" texts d.reason_codes end))))

null_or : Option Text → Json
null_or none = null
null_or (some t) = str t

summary : DecisionSummary → Json
summary d = obj (
    opt "outcome" verdict d.outcome (
      opt "risk_score" num d.risk_score (
        opt "reason_codes" texts d.reason_codes (
          opt "human_override" bool d.human_override
            (opt "override_reason" null_or d.override_reason end)))))

rule : PolicyRule → Json
rule r = obj (
    req "rule_id" str r.rule_id (
      opt "expression" str r.expression (
        opt "mathematical_form" str r.mathematical_form
          (opt "source" str r.source (opt "weight" num r.weight end)))))

policy : PolicyContext → Json
policy p = obj (
    opt "policy_bundle_id" str p.policy_bundle_id (
      opt "policy_bundle_hash" str p.policy_bundle_hash (
        opt "version" str p.version (
          opt "domain" str p.domain (
            opt "applied_rules" (list_of rule) p.applied_rules (
              opt "mathematical_constraints" str p.mathematical_constraints
                (opt "rule_encoding_format" str p.rule_encoding_format end)))))))

artifact : ProofArtifact → Json
artifact a = obj (
    req "kind" str a.kind (
      req "hash" str a.hash
        (opt "alg" str a.alg (opt "uri" str a.uri (opt "size_bytes" num a.size_bytes end)))))

kind_of : VerificationType → Json
kind_of formal = str (codes "formal")
kind_of rule_based = str (codes "rule_based")
kind_of hybrid = str (codes "hybrid")

status_of : VerificationStatus → Json
status_of verified = str (codes "verified")
status_of failed = str (codes "failed")
status_of pending = str (codes "pending")
status_of not_applicable = str (codes "not_applicable")

verification : VerificationBlock → Json
verification v = obj (
    opt "enabled" bool v.enabled (
      opt "verification_type" kind_of v.verification_type (
        opt "status" status_of v.status (
          opt "proof_artifact" artifact v.proof_artifact (
            opt "failed_rules" texts v.failed_rules (
              opt "confidence_score" num v.confidence_score
                (opt "verifier_version" str v.verifier_version end)))))))

provenance : ProvenanceBlock → Json
provenance p = obj (
    opt "parent_receipt_ids" texts p.parent_receipt_ids
      (opt "workflow_id" str p.workflow_id (opt "lineage_root" str p.lineage_root end)))

evidence : EvidenceRef → Json
evidence e = obj (
    req "kind" str e.kind (
      req "hash" str e.hash (
        opt "alg" str e.alg (
          opt "uri" str e.uri (
            opt "status" str e.status (
              opt "mathematical_value" str e.mathematical_value
                (opt "proof_type" str e.proof_type end)))))))

integrity : IntegrityBlock → Json
integrity i = obj (
    req "previous_receipt_hash" str i.previous_receipt_hash (
      req "receipt_hash" str i.receipt_hash
        (req "chain_height" num i.chain_height (opt "merkle_period" str i.merkle_period end))))

unfoldable pub receipt_json : Receipt → Json
unfolding items list_of req opt same texts verdict null_or summary rule policy artifact kind_of
    status_of verification provenance evidence integrity decision event_json
receipt_json r = obj (
    req "schema_version" str r.schema_version (
      req "receipt_id" str r.receipt_id (
        req "tenant_id" str r.tenant_id (
          req "issued_at" str r.issued_at (
            req "event" event_json r.event (
              opt "decision" decision r.decision (
                opt "decision_summary" summary r.decision_summary (
                  opt "policy_context" policy r.policy_context (
                    opt "verification" verification r.verification (
                      opt "provenance" provenance r.provenance (
                        opt "evidence_refs" (list_of evidence) r.evidence_refs (
                          opt "extensions" obj r.extensions
                            (req "integrity" integrity r.integrity end)))))))))))))
