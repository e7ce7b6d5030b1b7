-- ===== src/Tests/Stamps.antt =====
-- A time-stamp token on an accepted receipt.
use receipts_sdk.Prelude.{
  ◌≡◌, ◌&&◌, &&-eq-true, refl, true, some, none, [], ◌∷◌, Text, codes, ok, some_of,
}
use receipts_sdk.Prelude.Hex.{lower, lower_unit}
use receipts_sdk.Types.{SignedReceipt, TimestampToken}
use receipts_sdk.Timestamp.{receipt_timestamp_imprint, verify_receipt_timestamps, verdict_of}
use receipts_sdk.Payload.{canonical_signing_payload, canonical_hashing_payload}
use receipts_sdk.Verify.{
  verify_receipt, judged, is_false, hash_check, signature_check, link_check, not_false,
  timestamp_check, verify_opened,
}
use receipts_sdk.Verify.Shapes.{envelope_of, opened-envelope_of}
use receipts_sdk.Verify.Imprints.{verify_receipt_imprints}
use receipts_sdk.Toy.{toy}
use receipts_sdk.Tests.{runs, first, trusting, accepted}

stamp_runs : Unit {0}
unfolding receipt_timestamp_imprint verify_receipt_timestamps verdict_of judged is_false some_of
    lower lower_unit runs
stamp_runs = tt

abbrev imprint : Text
unfolding stamp_runs
imprint = elim (receipt_timestamp_imprint toy first.signed) [ ok t ↦ t | _ ↦ [] ]

abbrev token : TimestampToken
token = record { tsa = codes "local"; timestamp_token = imprint }

abbrev stamped : SignedReceipt
stamped = record first.signed { timestamps = some (token ∷ []) }

-- Everything but the tokens is checked as before.
checked_before :
    (hash_check toy
        (canonical_hashing_payload toy first.signed.receipt)
        first.signed.receipt.integrity.receipt_hash).0
      && (signature_check toy trusting.public_keys
          (canonical_signing_payload toy first.signed.receipt)
          first.signed.signatures).0
      && not_false
          (link_check toy first.signed.receipt.integrity.chain_height
            first.signed.receipt.integrity.previous_receipt_hash none).valid
    ≡ true
unfolding verify_receipt verify_opened
checked_before =
    (&&-eq-true _ (not_false (timestamp_check toy first.signed).matches)
      (rw (opened-envelope_of first.signed) at accepted)).0

right_imprint : not_false (timestamp_check toy stamped).matches ≡ true
unfolding stamp_runs
right_imprint = refl

stamp_accepted : (verify_receipt toy (envelope_of stamped) trusting).valid ≡ true
unfolding verify_receipt verify_opened
stamp_accepted = rw (opened-envelope_of stamped, checked_before, right_imprint) refl

read_imprint : toy.local_imprint token.timestamp_token ≡ some imprint
unfolding stamp_runs
read_imprint = refl

verify_receipt_imprints_example : receipt_timestamp_imprint toy stamped ≡ ok (lower imprint)
verify_receipt_imprints_example =
    verify_receipt_imprints toy (envelope_of stamped) trusting stamped (token ∷ []) 0 token imprint
      stamp_accepted (opened-envelope_of stamped) refl refl read_imprint
