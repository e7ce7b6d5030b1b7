-- ===== src/Signing/Builds.antt =====
-- What a receipt that receipt.ts builds is made of.
use receipts_sdk.Prelude.{◌+◌, ◌≡◌, sym, ap, ◌∙◌, [], ◌∷◌, none, Bytes, Text, arith, ok, >>=-eq-ok}
use receipts_sdk.Types.{nat, eddsa}
use receipts_sdk.Types.Encode.{receipt_json}
use receipts_sdk.Crypto.{Platform, canonicalize_bytes, sha256, sign}
use receipts_sdk.Validate.{validate_event}
use receipts_sdk.Validate.Keys.{validate_key_pair}
use receipts_sdk.Signing.{
  SignReceiptOptions, Head, Built, build_signed_receipt, body_of, with_hash, assert_safe_numbers,
}

module _ (p : Platform) where
  -- What a successful build is made of.
  pub build_signed_receipt-inversion :
      (opts : SignReceiptOptions) (prev : Head) (id now : Text) {b : Built}
      → build_signed_receipt p opts prev id now ≡ ok b
      → (bytes payload : Bytes) × (sig : Text) × (canonicalize_bytes p
            (receipt_json (body_of opts prev id now))
          ≡ ok bytes)
        × (canonicalize_bytes p
              (receipt_json (with_hash (body_of opts prev id now) (sha256 p bytes)))
            ≡ ok payload)
        × (sign p payload opts.keypair ≡ ok sig)
        × (record {
          signed = record {
            receipt = with_hash (body_of opts prev id now) (sha256 p bytes);
            signatures = record { alg = eddsa; kid = opts.keypair.kid; sig = sig } ∷ [];
            timestamps = none;
          };
          receipt_hash = sha256 p bytes;
          receipt_id = id;
        }
            ≡ b)
  unfolding build_signed_receipt
  build_signed_receipt-inversion opts prev id now e =
      let (u, _, e1) = >>=-eq-ok (validate_event opts.event) _ e in
      let (v, _, e2) = >>=-eq-ok (validate_key_pair p opts.keypair) _ e1 in
      let (w, _, e3) =
        >>=-eq-ok (assert_safe_numbers (receipt_json (body_of opts prev id now))) _ e2 in
      let (bytes, hashed, e4) =
        >>=-eq-ok (canonicalize_bytes p (receipt_json (body_of opts prev id now))) _ e3 in
      let (payload, read, e5) =
        >>=-eq-ok
          (canonicalize_bytes p
            (receipt_json (with_hash (body_of opts prev id now) (sha256 p bytes))))
          _ e4 in
      let (sig, signs, e6) = >>=-eq-ok (sign p payload opts.keypair) _ e5 in
      (bytes, payload, sig, hashed, read, signs, ground (arith, e6))

  -- Its place: it links to the head, one above it, and carries its own hash.
  pub build_signed_receipt-place :
      (opts : SignReceiptOptions) (prev : Head) (id now : Text) {b : Built}
      → build_signed_receipt p opts prev id now ≡ ok b
      → (b.signed.receipt.integrity.previous_receipt_hash ≡ prev.previous_receipt_hash)
        × (b.signed.receipt.integrity.chain_height ≡ nat (prev.chain_height + 1))
        × (b.signed.receipt.integrity.receipt_hash ≡ b.receipt_hash)
        × (b.signed.receipt.tenant_id ≡ opts.event.tenant_id)
  unfolding body_of
  build_signed_receipt-place opts prev id now e =
      let (bytes, payload, sig, hashed, read, signs, made) =
        build_signed_receipt-inversion opts prev id now e in
      (
        ap (λ (b : Built). b.signed.receipt.integrity.previous_receipt_hash) (sym made),
        ap (λ (b : Built). b.signed.receipt.integrity.chain_height) (sym made),
        ap (λ (b : Built). b.signed.receipt.integrity.receipt_hash) (sym made)
            ∙ ap (λ (b : Built). b.receipt_hash) made,
        ap (λ (b : Built). b.signed.receipt.tenant_id) (sym made),
      )
