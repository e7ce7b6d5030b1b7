-- ===== src/Types.antt =====
-- types.ts: receipts, events, keys and chain state. An optional field is an `Option`; a field
-- that the source types `unknown` holds any JavaScript value that JSON can write.
pub mod Encode
use receipts_sdk.Prelude.{ℕ, Text, Bool, Option, List, codes}

-- A JavaScript number, as far as the code looks at it: a natural number, the integer -(n + 1), or
-- a number that `Number.isInteger` refuses, with its decimal text.
pub data Number : Type 0 where
  nat : ℕ → Number
  neg : ℕ → Number
  other : Text → Number

-- A JavaScript value.
mutual
  pub data Json : Type 0 where
    undefined null : Json
    bool : Bool → Json
    num : Number → Json
    str : Text → Json
    arr : Items → Json
    obj : Fields → Json

  pub data Items : Type 0 where
    nil : Items
    cons : Json → Items → Items

  pub data Fields : Type 0 where
    end : Fields
    field : Text → Json → Fields → Fields

pub data DecisionVerdict : Type 0 where
  allow block flag require_approval : DecisionVerdict

pub record EventContext : Type 0 where
  pub user_id : Option Text
  pub session_id : Option Text
  pub service_id : Option Text
  pub environment : Option Text
  pub region : Option Text
  pub correlation_id : Option Text

pub record EventSubject : Type 0 where
  pub ai_vendor : Option Text
  pub ai_model : Option Text
  pub ai_model_version : Option Text
  pub base_model : Option Text
  pub ai_provider : Option Text
  pub ai_capability : Option Text
  pub model_card_hash : Option Text
  pub fine_tune_id : Option Text
  pub system_prompt_hash : Option Text

pub record EventPayload : Type 0 where
  pub input_hash : Option Text
  pub input_classification : Option Text
  pub input_size_bytes : Option Number
  pub input_token_count : Option Number
  pub output_hash : Option Text
  pub output_classification : Option Text
  pub output_size_bytes : Option Number
  pub output_token_count : Option Number
  pub tool_calls : Option (List Json)
  pub retrieval_refs : Option (List Json)
  pub metadata : Option Fields

pub record EventLineage : Type 0 where
  pub parent_event_ids : Option (List Text)
  pub workflow_id : Option Text
  pub trace_id : Option Text

pub record RawEvent : Type 0 where
  pub schema_version : Text
  pub tenant_id : Text
  pub event_type : Text
  pub source_system : Text
  pub event_id : Text
  pub captured_at : Text
  pub context : Option EventContext
  pub subject : Option EventSubject
  pub payload : Option EventPayload
  pub lineage : Option EventLineage

pub record DecisionBlock : Type 0 where
  pub policy_bundle_hash : Text
  pub applied_policies : List Text
  pub decision : DecisionVerdict
  pub reason_codes : Option (List Text)

pub record ProvenanceBlock : Type 0 where
  pub parent_receipt_ids : Option (List Text)
  pub workflow_id : Option Text
  pub lineage_root : Option Text

pub record IntegrityBlock : Type 0 where
  pub previous_receipt_hash : Text
  pub receipt_hash : Text
  pub chain_height : Number
  pub merkle_period : Option Text

pub record EvidenceRef : Type 0 where
  pub kind : Text
  pub hash : Text
  pub alg : Option Text
  pub uri : Option Text
  pub status : Option Text
  pub mathematical_value : Option Text
  pub proof_type : Option Text

pub record PolicyRule : Type 0 where
  pub rule_id : Text
  pub expression : Option Text
  pub mathematical_form : Option Text
  pub source : Option Text
  pub weight : Option Number

pub record PolicyContext : Type 0 where
  pub policy_bundle_id : Option Text
  pub policy_bundle_hash : Option Text
  pub version : Option Text
  pub domain : Option Text
  pub applied_rules : Option (List PolicyRule)
  pub mathematical_constraints : Option Text
  pub rule_encoding_format : Option Text

pub record ProofArtifact : Type 0 where
  pub kind : Text
  pub hash : Text
  pub alg : Option Text
  pub uri : Option Text
  pub size_bytes : Option Number

pub data VerificationType : Type 0 where
  formal rule_based hybrid : VerificationType

pub data VerificationStatus : Type 0 where
  verified failed pending not_applicable : VerificationStatus

pub record VerificationBlock : Type 0 where
  pub enabled : Option Bool
  pub verification_type : Option VerificationType
  pub status : Option VerificationStatus
  pub proof_artifact : Option ProofArtifact
  pub failed_rules : Option (List Text)
  pub confidence_score : Option Number
  pub verifier_version : Option Text

pub record DecisionSummary : Type 0 where
  pub outcome : Option DecisionVerdict
  pub risk_score : Option Number
  pub reason_codes : Option (List Text)
  pub human_override : Option Bool
  -- `none` where the field is absent, `some none` where it is null
  pub override_reason : Option (Option Text)

pub record Receipt : Type 0 where
  pub schema_version : Text
  pub receipt_id : Text
  pub tenant_id : Text
  pub issued_at : Text
  pub event : RawEvent
  pub decision : Option DecisionBlock
  pub decision_summary : Option DecisionSummary
  pub policy_context : Option PolicyContext
  pub verification : Option VerificationBlock
  pub provenance : Option ProvenanceBlock
  pub evidence_refs : Option (List EvidenceRef)
  pub extensions : Option Fields
  pub integrity : IntegrityBlock

pub record Signature : Type 0 where
  pub alg : Text
  pub kid : Text
  pub sig : Text

pub record TimestampToken : Type 0 where
  pub tsa : Text
  pub timestamp_token : Text

pub record SignedReceipt : Type 0 where
  pub receipt : Receipt
  pub signatures : List Signature
  pub timestamps : Option (List TimestampToken)

pub record KeyPair : Type 0 where
  pub kid : Text
  pub public_key : Text
  pub private_key : Text
  pub created_at : Text

pub record ChainState : Type 0 where
  pub tenant_id : Text
  pub chain_height : ℕ
  pub previous_receipt_hash : Text
  pub last_receipt_id : Option Text
  pub updated_at : Text

unfoldable pub genesis_hash : Text
genesis_hash = codes "0000000000000000000000000000000000000000000000000000000000000000"

-- The algorithm name of every signature that the SDK makes.
unfoldable pub eddsa : Text
eddsa = codes "EdDSA"
