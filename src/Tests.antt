-- ===== src/Tests.antt =====
-- The theorems at concrete receipts, on the small platform.
mod Ledgers
mod Packs
mod Caches
mod Stores
mod Reviews
mod Logs
mod Flows
mod Graphs
mod Registry
mod Stamps
mod Workflows
use receipts_sdk.Prelude.{
  ℕ, zero, suc, ◌+◌, ◌≡◌, ◌≢◌, refl, ap, ◌++◌, ◌⊎◌, ◌↔◌, true, false, some, none, List, [], ◌∷◌,
  Text, codes, ok, text_eq, text_ne, text_eq_iff, arith, get_elem?, Option, includes, every, Bytes,
  length, length-append, text_eq_self,
}
use receipts_sdk.Prelude.Hex.{to_hex, hex_digit}
use receipts_sdk.Prelude.Maps.{Map, get, put}
use receipts_sdk.Types.{Number, nat, ChainState, IntegrityBlock, SignedReceipt, genesis_hash, eddsa}
use receipts_sdk.Types.Encode.{receipt_json}
use receipts_sdk.Crypto.{canonicalize, canonicalize_bytes, sha256, sha256_string, sign, verify}
use receipts_sdk.Crypto.Collisions.{IsCollision}
use receipts_sdk.Payload.{canonical_signing_payload, canonical_hashing_payload}
use receipts_sdk.Validate.{validate_event, matches_id, is_id_unit, event_type_from, matches_rfc3339}
use receipts_sdk.Validate.Keys.{validate_key_pair}
use receipts_sdk.Signing.{
  SignReceiptOptions, Head, Built, build_signed_receipt, body_of, assert_safe_numbers,
  assert_safe_items, assert_safe_fields,
}
use receipts_sdk.Verify.{
  VerifyOptions, hash_check, check_signature, check_signatures, signature_check, key_for,
  link_check, link_to, link_alone, plus_one, follows, verified, verify_opened, verify_receipt,
  timestamp_check, stamps_of,
}
use receipts_sdk.Verify.Shapes.{
  Dynamic, Envelope, envelope_of, opened, all_objects, opened-envelope_of,
}
use receipts_sdk.Verify.Evidence.{IsEvidence, verify_receipt_sound, verify_receipt_binds}
use receipts_sdk.Verify.Signed.{SigningLaws, IsMatched, build_signed_receipt_verifies}
use receipts_sdk.Toy.{toy, toy_digest, toy_laws, keys, event, render, render_items, render_fields}

-- What a run computes with.
runs : Unit {0}
unfolding genesis_hash eddsa every text_eq get put to_hex hex_digit toy render render_items
    render_fields receipt_json canonicalize canonicalize_bytes sha256 sha256_string sign verify
    canonical_signing_payload canonical_hashing_payload includes validate_event matches_id
    is_id_unit event_type_from matches_rfc3339 validate_key_pair build_signed_receipt body_of
    assert_safe_numbers assert_safe_items assert_safe_fields hash_check check_signature
    check_signatures signature_check key_for link_check link_to link_alone plus_one follows verified
    verify_opened verify_receipt timestamp_check stamps_of envelope_of opened all_objects
runs = tt

abbrev options : SignReceiptOptions
options = record {
  event = event;
  keypair = keys;
  decision = none;
  decision_summary = none;
  policy_context = none;
  verification = none;
  provenance = none;
  evidence_refs = none;
  extensions = none;
  issued_at = none;
}

abbrev start : Head
start = record { previous_receipt_hash = genesis_hash; chain_height = 0 }

-- The receipt that a run gave.
abbrev build : Head → Text → Built
unfolding runs
build head id = elim (build_signed_receipt toy options head id (codes "2026-01-01T00:00:01Z")) [
  | ok b ↦ b
  | _ ↦ record {
    signed = record { receipt = body_of options head id []; signatures = []; timestamps = none };
    receipt_hash = [];
    receipt_id = [];
  }
]

abbrev first : Built
unfolding runs
first = build start (codes "r1")

built_first :
    build_signed_receipt toy options start (codes "r1") (codes "2026-01-01T00:00:01Z") ≡ ok first
unfolding runs
built_first = refl

abbrev trusting : VerifyOptions
trusting = record { public_keys = (codes "k1", keys.public_key) ∷ []; previous_receipt = none }

toy_signing : SigningLaws toy
unfolding toy
toy_signing = record {
  public_size = λ key size. size;
  signature_size = λ payload key size. omega (arith, length-append (toy_digest payload) key, size);
  accepts = λ payload key size. ap (λ b. some b) (text_eq_self (toy_digest payload ++ key));
  signature_text = λ payload key size. refl;
}

matched : IsMatched toy keys
unfolding toy
matched = refl

known : key_for trusting.public_keys (codes "k1") ≡ some keys.public_key
unfolding runs
known = refl

build_signed_receipt_verifies_example :
    (verify_receipt toy (envelope_of first.signed) trusting).valid ≡ true
build_signed_receipt_verifies_example =
    build_signed_receipt_verifies toy toy_signing options start (codes "r1")
      (codes "2026-01-01T00:00:01Z") trusting first built_first matched known (λ _. refl, λ _. refl)

accepted : (verify_receipt toy (envelope_of first.signed) trusting).valid ≡ true
accepted =
    build_signed_receipt_verifies toy toy_signing options start (codes "r1")
      (codes "2026-01-01T00:00:01Z") trusting first built_first matched known (λ _. refl, λ _. refl)

verify_receipt_sound_example :
    (signed : SignedReceipt) × (opened (envelope_of first.signed) ≡ ok signed)
    × IsEvidence toy trusting signed
verify_receipt_sound_example = verify_receipt_sound toy (envelope_of first.signed) trusting accepted

verify_receipt_binds_example :
    (b b' : Bytes) × (canonical_hashing_payload toy first.signed.receipt ≡ ok b)
    × (canonical_hashing_payload toy first.signed.receipt ≡ ok b')
    × ((b ≡ b') ⊎ IsCollision toy b b')
verify_receipt_binds_example =
    verify_receipt_binds toy toy_laws (envelope_of first.signed) (envelope_of first.signed) trusting
      trusting first.signed first.signed (opened-envelope_of first.signed)
      (opened-envelope_of first.signed) accepted accepted refl
