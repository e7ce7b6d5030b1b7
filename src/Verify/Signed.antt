-- ===== src/Verify/Signed.antt =====
-- What receipt.ts signs, verify.ts accepts.
use mathlib.Core.Path.{subst}
use receipts_sdk.Prelude.{
  ℕ, ◌+◌, ◌-◌, ◌^◌, ◌<◌, ltb, ◌≡◌, refl, inl, inr, true, false, Bool-cases, Option, none, some, [],
  ◌∷◌, length, Bytes, Text, text_eq, text_eq_iff, text_eq_self, ◌==◌, arith, ok,
}
use receipts_sdk.Prelude.Maps.{Map}
use receipts_sdk.Types.{Number, nat, IntegrityBlock, Signature, KeyPair, genesis_hash, eddsa}
use receipts_sdk.Crypto.{Platform, sha256, sign, verify}
use receipts_sdk.Payload.{canonical_signing_payload, canonical_hashing_payload}
use receipts_sdk.Signing.{SignReceiptOptions, Head, Built, build_signed_receipt, body_of}
use receipts_sdk.Signing.Builds.{build_signed_receipt-inversion}
use receipts_sdk.Signing.Bounds.{build_signed_receipt-height}
use receipts_sdk.Verify.{
  VerifyOptions, hash_check, check_signature, check_signatures, signature_check, key_for,
  link_check, link_to, link_alone, follows, plus_one, not_false, verified, verify_opened,
  verify_receipt, timestamp_check, stamps_of,
}
use receipts_sdk.Verify.Shapes.{envelope_of, opened-envelope_of}
use receipts_sdk.Verify.Evidence.{IsLinkedTo, IsAbove}

-- What @noble/ed25519 documents: a signature has 64 bytes and is valid under the public key of its
-- private key, which has 32; and base64 gives back the bytes that it was given.
pub record SigningLaws (p : Platform) : Type 0 where
  pub public_size : (key : Bytes) → length key ≡ 32 → length (p.ed_public key) ≡ 32
  pub signature_size : (payload key : Bytes) → length key ≡ 32 → length (p.ed_sign payload key) ≡ 64
  pub accepts :
      (payload key : Bytes)
      → length key ≡ 32
      → p.ed_verify (p.ed_sign payload key) payload (p.ed_public key) ≡ some true
  pub signature_text :
      (payload key : Bytes)
      → length key ≡ 32
      → p.from_base64 (p.to_base64 (p.ed_sign payload key)) ≡ p.ed_sign payload key

-- The public key belongs to the private one.
abbrev pub IsMatched : Platform → KeyPair → Type 0
IsMatched p k = p.from_base64 k.public_key ≡ p.ed_public (p.from_base64 k.private_key)

follows_above :
    (p : Platform) (n : ℕ) (above : Number)
    → n < 2 ^ 53 - 1
    → IsAbove p (n + 1) above
    → follows p (n + 1) above ≡ true
unfolding follows plus_one
follows_above p n above small (inl (k, at, inl (le, next))) =
    let sum : (ltb k (2 ^ 53)) ≡ true = ground (arith, le) in
    let k_eq : k ≡ n = omega (arith, next) in rw (at, sum, k_eq) (ground arith)
follows_above p n above small (inl (k, at, inr (le, inl next))) =
    absurd (omega (arith, small, le, next))
follows_above p n above small (inl (k, at, inr (le, inr next))) =
    absurd (omega (arith, small, le, next))
follows_above p n above small (inr (t, at, rounded)) = rw (at, rounded) (ground arith)

link_check_next :
    (p : Platform) (n : ℕ) (claim : Text) (prev : Option (Option IntegrityBlock))
    → n < 2 ^ 53 - 1
    → IsLinkedTo p (n + 1) claim prev
    → not_false (link_check p (nat (n + 1)) claim prev).valid ≡ true
unfolding link_check link_to link_alone
link_check_next p n claim (some none) small linked = absurd linked
link_check_next p n claim (some (some i)) small (same, above) =
    let positive : (n + 1 == 0) ≡ false = ground arith in
    rw (positive, same, text_eq_self claim, follows_above p n i.chain_height small above) refl
link_check_next p n claim none small linked =
    let positive : (n + 1 == 0) ≡ false = ground arith in
    elim (Bool-cases (n + 1 == 1)) [
      | inl first ↦
          let genesis : text_eq claim genesis_hash ≡ true =
            (text_eq_iff _ _).1 (linked.0 (ground arith)) in
          rw (positive, first, genesis) refl
      | inr later ↦ elim (Bool-cases (text_eq claim genesis_hash)) [
        | inl same ↦ absurd (ground (arith, linked.1 ((text_eq_iff _ _).0 same)))
        | inr apart ↦ rw (positive, later, apart) refl
      ]
    ]

module _ (p : Platform) (laws : SigningLaws p) where
  pub sign-verify :
      (payload : Bytes) (k : KeyPair) (sig : Text)
      → IsMatched p k
      → sign p payload k ≡ ok sig
      → verify p payload sig k.public_key ≡ true
  unfolding sign verify
  sign-verify payload k sig matched e =
      elim (Bool-cases (length (p.from_base64 k.private_key) == 32)) [
        | inl sized ↦
            let size : length (p.from_base64 k.private_key) ≡ 32 = ground arith in
            let made : sig ≡ p.to_base64 (p.ed_sign payload (p.from_base64 k.private_key)) =
              ground (arith, sized, e) in
            let public : (length (p.ed_public (p.from_base64 k.private_key)) == 32) ≡ true =
              ground (arith, laws.public_size _ size) in
            let signature : (length (p.ed_sign payload (p.from_base64 k.private_key)) == 64)
                ≡ true =
              ground (arith, laws.signature_size payload _ size) in
            rw
              (
                made,
                laws.signature_text payload _ size,
                matched,
                public,
                signature,
                laws.accepts payload _ size,
              )
              refl
        | inr wrong ↦ absurd (ground (arith, wrong, e))
      ]

  hash_check_same : (bytes : Bytes) → (hash_check p (ok bytes) (sha256 p bytes)).0 ≡ true
  unfolding hash_check
  hash_check_same bytes = text_eq_self (sha256 p bytes)

  check_signatures_one :
      (keys : Map Text) (payload : Bytes) (s : Signature) (key : Text)
      → s.alg ≡ eddsa
      → key_for keys s.kid ≡ some key
      → verify p payload s.sig key ≡ true
      → (signature_check p keys (ok payload) (s ∷ [])).0 ≡ true
  unfolding signature_check check_signatures check_signature verified
  check_signatures_one keys payload s key alg found valid =
      rw (alg, text_eq_self eddsa, found, valid) refl

  built_verifies :
      (opts : SignReceiptOptions) (prev : Head) (id now : Text) (vopts : VerifyOptions) (b : Built)
      → build_signed_receipt p opts prev id now ≡ ok b
      → IsMatched p opts.keypair
      → key_for vopts.public_keys opts.keypair.kid ≡ some opts.keypair.public_key
      → IsLinkedTo p (prev.chain_height + 1) prev.previous_receipt_hash vopts.previous_receipt
      → (verify_opened p b.signed vopts).valid ≡ true
  unfolding verify_opened canonical_hashing_payload canonical_signing_payload timestamp_check
      stamps_of body_of
  built_verifies opts prev id now vopts b e matched found linked =
      let (bytes, payload, sig, hashed, read, signs, made) =
        build_signed_receipt-inversion p opts prev id now e in
      let (_, bound) = build_signed_receipt-height p opts prev id now e in
      let small : prev.chain_height < 2 ^ 53 - 1 = omega (arith, bound) in
      let signed_by =
        check_signatures_one vopts.public_keys payload
          (record { alg = eddsa; kid = opts.keypair.kid; sig = sig }) opts.keypair.public_key refl
          found (sign-verify payload opts.keypair sig matched signs) in
      subst (λ (b : Built). (verify_opened p b.signed vopts).valid ≡ true) made
        (rw (hashed, read, hash_check_same bytes, signed_by, link_check_next p _ _ _ small linked)
          refl)

-- A receipt that is built on a head verifies, if the signer's public key belongs to its private key
-- and is the one that the verifier holds under the key id, and if the head is that of the
-- predecessor the verifier gave; without one, it must be genesis exactly if it has height 0.
pub build_signed_receipt_verifies :
    (p : Platform)
    → SigningLaws p
    → (opts : SignReceiptOptions) (prev : Head) (id now : Text) (vopts : VerifyOptions) (b : Built)
    → build_signed_receipt p opts prev id now ≡ ok b
    → IsMatched p opts.keypair
    → key_for vopts.public_keys opts.keypair.kid ≡ some opts.keypair.public_key
    → IsLinkedTo p (prev.chain_height + 1) prev.previous_receipt_hash vopts.previous_receipt
    → (verify_receipt p (envelope_of b.signed) vopts).valid ≡ true
unfolding verify_receipt
build_signed_receipt_verifies p laws opts prev id now vopts b e matched found linked =
    rw (opened-envelope_of b.signed)
      (built_verifies p laws opts prev id now vopts b e matched found linked)
