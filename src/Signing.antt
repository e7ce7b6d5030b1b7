-- ===== src/Signing.antt =====
-- receipt.ts: building and signing a receipt at the next height of a chain.
pub mod Builds
pub mod Bounds
pub mod Ledger
use receipts_sdk.Prelude.{
  ℕ, suc, ◌+◌, ◌-◌, ◌^◌, Bool, true, false, Option, none, some, List, [], ◌∷◌, Text, codes, leb, ok,
  err, guard, ◌>>=◌, ◌>>◌,
}
use receipts_sdk.Errors.{Throws, unsafe_integer}
use receipts_sdk.Types.{
  Number, nat, neg, other, Json, undefined, null, bool, num, str, arr, obj, Items, nil, cons,
  Fields, end, field, RawEvent, DecisionBlock, DecisionSummary, PolicyContext, VerificationBlock,
  ProvenanceBlock, EvidenceRef, Receipt, SignedReceipt, KeyPair, eddsa,
}
use receipts_sdk.Types.Encode.{receipt_json}
use receipts_sdk.Crypto.{Platform, canonicalize_bytes, sha256, sign}
use receipts_sdk.Validate.{validate_event}
use receipts_sdk.Validate.Keys.{validate_key_pair}

pub record SignReceiptOptions : Type 0 where
  pub event : RawEvent
  pub keypair : KeyPair
  pub decision : Option DecisionBlock
  pub decision_summary : Option DecisionSummary
  pub policy_context : Option PolicyContext
  pub verification : Option VerificationBlock
  pub provenance : Option ProvenanceBlock
  pub evidence_refs : Option (List EvidenceRef)
  pub extensions : Option Fields
  pub issued_at : Option Text

-- `Number.MAX_SAFE_INTEGER`
abbrev pub max_safe_integer : ℕ
max_safe_integer = 2 ^ 53 - 1

abbrev pub safe_number : Number → Bool
safe_number (nat n) = leb n max_safe_integer
safe_number (neg n) = leb (n + 1) max_safe_integer
safe_number (other t) = true

unfoldable mutual
  pub assert_safe_numbers : Json → Throws (Unit {0})
  assert_safe_numbers undefined = ok tt
  assert_safe_numbers null = ok tt
  assert_safe_numbers (bool b) = ok tt
  assert_safe_numbers (num n) = guard (safe_number n) unsafe_integer
  assert_safe_numbers (str t) = ok tt
  assert_safe_numbers (arr vs) = assert_safe_items vs
  assert_safe_numbers (obj fs) = assert_safe_fields fs

  pub assert_safe_items : Items → Throws (Unit {0})
  assert_safe_items nil = ok tt
  assert_safe_items (cons v vs) = assert_safe_numbers v >> assert_safe_items vs

  pub assert_safe_fields : Fields → Throws (Unit {0})
  assert_safe_fields end = ok tt
  assert_safe_fields (field k v fs) = assert_safe_numbers v >> assert_safe_fields fs

-- The head of the chain that a receipt extends.
pub record Head : Type 0 where
  pub previous_receipt_hash : Text
  pub chain_height : ℕ

pub record Built : Type 0 where
  pub signed : SignedReceipt
  pub receipt_hash : Text
  pub receipt_id : Text

or_now : Option Text → Text → Text
or_now none now = now
or_now (some t) now = t

-- The body before its hash is known.
unfoldable pub body_of : SignReceiptOptions → Head → Text → Text → Receipt
unfolding or_now
body_of opts prev id now = record {
  schema_version = codes "1.0";
  receipt_id = id;
  tenant_id = opts.event.tenant_id;
  issued_at = or_now opts.issued_at now;
  event = opts.event;
  decision = opts.decision;
  decision_summary = opts.decision_summary;
  policy_context = opts.policy_context;
  verification = opts.verification;
  provenance = opts.provenance;
  evidence_refs = opts.evidence_refs;
  extensions = opts.extensions;
  integrity = record {
    previous_receipt_hash = prev.previous_receipt_hash;
    receipt_hash = [];
    chain_height = nat (prev.chain_height + 1);
    merkle_period = none;
  };
}

abbrev pub with_hash : Receipt → Text → Receipt
with_hash r hash = record r { integrity = record r.integrity { receipt_hash = hash } }

module _ (p : Platform) where
  -- The new id and the time are arguments.
  unfoldable pub build_signed_receipt : SignReceiptOptions → Head → Text → Text → Throws Built
  build_signed_receipt opts prev id now = do
    validate_event opts.event
    validate_key_pair p opts.keypair
    let body = body_of opts prev id now
    assert_safe_numbers (receipt_json body)
    hashed ← canonicalize_bytes p (receipt_json body)
    let hash = sha256 p hashed
    payload ← canonicalize_bytes p (receipt_json (with_hash body hash))
    sig ← sign p payload opts.keypair
    ok (record {
      signed = record {
        receipt = with_hash body hash;
        signatures = record { alg = eddsa; kid = opts.keypair.kid; sig = sig } ∷ [];
        timestamps = none;
      };
      receipt_hash = hash;
      receipt_id = id;
    })
