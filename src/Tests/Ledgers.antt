-- ===== src/Tests/Ledgers.antt =====
-- The audit of a chain of two receipts.
use mathlib.Core.List.{Perm}
use receipts_sdk.Prelude.{
  ℕ, ◌≡◌, refl, inl, arith, true, Option, some, none, List, [], ◌∷◌, Text, codes, ok, get_elem?,
}
use receipts_sdk.Types.{Number, nat, SignedReceipt}
use receipts_sdk.Signing.{Built, build_signed_receipt}
use receipts_sdk.Verify.{VerifyOptions, verify_receipt, key_for}
use receipts_sdk.Verify.Shapes.{Dynamic, Envelope, envelope_of, opened}
use receipts_sdk.Verify.Signed.{build_signed_receipt_verifies}
use receipts_sdk.Verify.Ledger.{
  verify_chain, in_height_order, insert, height_of, audit, audit_one, tenant_of, integrity_of,
  predecessor_of, first_tenant,
}
use receipts_sdk.Verify.Ledger.Audited.{IsAudited, verify_chain_sound, verify_chain_complete}
use receipts_sdk.Toy.{toy, keys}
use receipts_sdk.Tests.{runs, options, build, first, accepted, trusting, toy_signing, matched}

abbrev second : Built
unfolding runs
second =
    build (record { previous_receipt_hash = first.receipt_hash; chain_height = 1 }) (codes "r2")

built_second :
    build_signed_receipt toy options
      (record { previous_receipt_hash = first.receipt_hash; chain_height = 1 })
      (codes "r2")
      (codes "2026-01-01T00:00:01Z")
    ≡ ok second
unfolding runs
built_second = refl

abbrev above_first : VerifyOptions
above_first = record {
  public_keys = trusting.public_keys;
  previous_receipt = some (some first.signed.receipt.integrity);
}

known_above : key_for above_first.public_keys (codes "k1") ≡ some keys.public_key
unfolding runs
known_above = refl

accepted_above : (verify_receipt toy (envelope_of second.signed) above_first).valid ≡ true
unfolding runs
accepted_above =
    build_signed_receipt_verifies toy toy_signing options
      (record { previous_receipt_hash = first.receipt_hash; chain_height = 1 }) (codes "r2")
      (codes "2026-01-01T00:00:01Z") above_first second built_second matched known_above
      (refl, inl (1, refl, inl (omega arith, refl)))

abbrev rank : Number → Option ℕ
rank (nat n) = some n
rank _ = none

-- The members come out of order.
abbrev ledger : List (Dynamic Envelope)
ledger = envelope_of second.signed ∷ envelope_of first.signed ∷ []

ordered :
    in_height_order toy rank ledger ≡ envelope_of first.signed ∷ envelope_of second.signed ∷ []
unfolding in_height_order insert height_of integrity_of runs
ordered = refl

whole : (verify_chain toy rank ledger trusting.public_keys).valid ≡ true
unfolding verify_chain audit audit_one tenant_of predecessor_of integrity_of first_tenant runs
whole = rw (ordered, accepted, accepted_above) refl

from_genesis : (verify_chain toy rank ledger trusting.public_keys).complete_from_genesis ≡ true
unfolding verify_chain integrity_of runs
from_genesis = rw ordered refl

verify_chain_sound_example :
    (tenant : Text) × ((verify_chain toy rank ledger trusting.public_keys).tenant_id ≡ some tenant)
    × Perm ledger (in_height_order toy rank ledger)
    × IsAudited toy trusting.public_keys tenant none (in_height_order toy rank ledger)
verify_chain_sound_example = verify_chain_sound toy rank trusting.public_keys ledger whole

at_one : get_elem? (in_height_order toy rank ledger) 1 ≡ some (envelope_of second.signed)
at_one = rw ordered refl

verify_chain_complete_example :
    (s : SignedReceipt) × (opened (envelope_of second.signed) ≡ ok s)
    × ((verify_chain toy rank ledger trusting.public_keys).tenant_id ≡ some s.receipt.tenant_id)
    × (s.receipt.integrity.chain_height ≡ nat 2)
verify_chain_complete_example =
    verify_chain_complete toy rank trusting.public_keys ledger 1 (envelope_of second.signed)
      (omega arith) whole from_genesis at_one
