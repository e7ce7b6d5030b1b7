-- ===== src/Signing/Bounds.antt =====
-- receipt.ts: assertSafeNumbers and the height of a receipt.
use receipts_sdk.Prelude.{ℕ, ◌+◌, ◌≡◌, refl, arith, Text, ok, guard, >>=-eq-ok, ◌≤◌}
use receipts_sdk.Errors.{unsafe_integer}
use receipts_sdk.Types.{nat, Json}
use receipts_sdk.Types.Encode.{receipt_json}
use receipts_sdk.Types.Encode.Occurring.{Occurs, itself, here, later, Occurs-receipt_json}
use receipts_sdk.Crypto.{Platform}
use receipts_sdk.Validate.{validate_event}
use receipts_sdk.Validate.Keys.{validate_key_pair}
use receipts_sdk.Signing.{
  SignReceiptOptions, Head, Built, build_signed_receipt, body_of, safe_number, max_safe_integer,
  assert_safe_numbers, assert_safe_fields,
}
use receipts_sdk.Signing.Builds.{build_signed_receipt-place}

safe_number-guard :
    (n : ℕ) → guard (safe_number (nat n)) unsafe_integer ≡ ok tt → n ≤ max_safe_integer
safe_number-guard n e = ground (arith, e)

-- What the check lets through holds no natural number above the bound.
assert_safe_numbers-Occurs :
    {n : ℕ} {v : Json} → Occurs n v → assert_safe_numbers v ≡ ok tt → n ≤ max_safe_integer
unfolding assert_safe_numbers
assert_safe_numbers-Occurs {n} itself e = safe_number-guard n e
assert_safe_numbers-Occurs (here {v} {fs} o) e =
    let (_, first, _) = >>=-eq-ok (assert_safe_numbers v) (λ _. assert_safe_fields fs) e in
    assert_safe_numbers-Occurs o first
assert_safe_numbers-Occurs (later {v} {fs} o) e =
    let (_, _, rest) = >>=-eq-ok (assert_safe_numbers v) (λ _. assert_safe_fields fs) e in
    assert_safe_numbers-Occurs o rest

module _ (p : Platform) where
  build_signed_receipt-assert_safe_numbers :
      (opts : SignReceiptOptions) (prev : Head) (id now : Text) {b : Built}
      → build_signed_receipt p opts prev id now ≡ ok b
      → assert_safe_numbers (receipt_json (body_of opts prev id now)) ≡ ok tt
  unfolding build_signed_receipt
  build_signed_receipt-assert_safe_numbers opts prev id now e =
      let (u, _, e1) = >>=-eq-ok (validate_event opts.event) _ e in
      let (v, _, e2) = >>=-eq-ok (validate_key_pair p opts.keypair) _ e1 in
      let (w, safe, e3) =
        >>=-eq-ok (assert_safe_numbers (receipt_json (body_of opts prev id now))) _ e2 in
      safe

  body_of-height :
      (opts : SignReceiptOptions) (prev : Head) (id now : Text)
      → (body_of opts prev id now).integrity.chain_height ≡ nat (prev.chain_height + 1)
  unfolding body_of
  body_of-height opts prev id now = refl

  pub build_signed_receipt-height :
      (opts : SignReceiptOptions) (prev : Head) (id now : Text) {b : Built}
      → build_signed_receipt p opts prev id now ≡ ok b
      → (b.signed.receipt.integrity.chain_height ≡ nat (prev.chain_height + 1))
        × (prev.chain_height + 1 ≤ max_safe_integer)
  build_signed_receipt-height opts prev id now e =
      let (_, height, _, _) = build_signed_receipt-place p opts prev id now e in
      (
        height,
        assert_safe_numbers-Occurs
            (Occurs-receipt_json (body_of opts prev id now) (body_of-height opts prev id now))
            (build_signed_receipt-assert_safe_numbers opts prev id now e),
      )
