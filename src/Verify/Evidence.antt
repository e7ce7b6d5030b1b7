-- ===== src/Verify/Evidence.antt =====
-- What a receipt that verify.ts accepts shows.
use mathlib.Core.Path.{subst}
use receipts_sdk.Prelude.{
  ℕ, zero, suc, ◌+◌, ◌/◌, ◌%◌, ◌^◌, ◌<◌, ◌≤◌, ltb, ◌≡◌, refl, sym, ap, ◌∙◌, ◌⊎◌, ◌↔◌, inl, inr,
  true, false, Bool-cases, ◌&&◌, &&-eq-true, Option, none, some, List, [], ◌∷◌, get_elem?, Bytes,
  Text, text_eq, text_eq_iff, ok-injective, ◌==◌, arith, Result, ok, err,
}
use receipts_sdk.Prelude.Maps.{Map}
use receipts_sdk.Errors.{Throws}
use receipts_sdk.Types.{
  Number, nat, neg, other, IntegrityBlock, Receipt, Signature, SignedReceipt, genesis_hash, eddsa,
}
use receipts_sdk.Crypto.{Platform, DigestLaws, sha256, verify}
use receipts_sdk.Crypto.Collisions.{IsCollision, sha256_eq}
use receipts_sdk.Payload.{canonical_signing_payload, canonical_hashing_payload}
use receipts_sdk.Verify.{
  VerifyOptions, hash_check, check_signature, check_signatures, signature_check, key_for,
  link_check, link_to, link_alone, follows, plus_one, is_some_of, not_false, verified,
  verify_opened, verify_receipt, verify_shape,
}
use receipts_sdk.Verify.Shapes.{
  Dynamic, Envelope, ShapeError, opened, envelope_of, opened-envelope_of,
}

module _ (p : Platform) where
  -- The receipt carries the SHA-256 of its canonical body without the hash.
  abbrev pub HasHash : Receipt → Type 0
  HasHash r =
      (b : Bytes) × (canonical_hashing_payload p r ≡ ok b) × (sha256 p b ≡ r.integrity.receipt_hash)

  -- The signature is Ed25519, and valid for the payload under the key that `keys` holds for its id.
  abbrev pub IsSignedBy : Map Text → Bytes → Signature → Type 0
  IsSignedBy keys payload s =
      (key : Text) × (s.alg ≡ eddsa)
      × (key_for keys s.kid ≡ some key)
      × (verify p payload s.sig key ≡ true)

  -- One of the signatures is.
  abbrev pub HasSignature : Map Text → SignedReceipt → Type 0
  HasSignature keys signed =
      (payload : Bytes) × (i : ℕ) × (s : Signature) × (canonical_signing_payload p signed.receipt
        ≡ ok payload)
      × (get_elem? signed.signatures i ≡ some s)
      × IsSignedBy keys payload s

  hash_check-HasHash :
      (t : Throws Bytes) (claimed : Text)
      → (hash_check p t claimed).0 ≡ true
      → (b : Bytes) × (t ≡ ok b) × (sha256 p b ≡ claimed)
  unfolding hash_check
  hash_check-HasHash (err e) claimed h = absurd (cc)
  hash_check-HasHash (ok b) claimed h = (b, refl, (text_eq_iff _ _).0 h)

  verified-IsSignedBy :
      (payload : Bytes) (s : Signature) (k : Option Text)
      → (verified p payload s k).0 ≡ true
      → (key : Text) × (k ≡ some key) × (verify p payload s.sig key ≡ true)
  unfolding verified
  verified-IsSignedBy payload s none h = absurd (cc)
  verified-IsSignedBy payload s (some key) h = (key, refl, h)

  check_signature-IsSignedBy :
      (keys : Map Text) (payload : Bytes) (s : Signature)
      → (check_signature p keys payload s).0 ≡ true
      → IsSignedBy keys payload s
  unfolding check_signature
  check_signature-IsSignedBy keys payload s h = elim (Bool-cases (text_eq s.alg eddsa)) [
    | inl same ↦
        let (key, found, valid) =
          verified-IsSignedBy payload s (key_for keys s.kid) (rw same at h) in
        (key, (text_eq_iff _ _).0 same, found, valid)
    | inr apart ↦ absurd (ground (arith, apart, h))
  ]

  check_signatures-IsSignedBy :
      (keys : Map Text) (payload : Bytes) (sigs : List Signature)
      → (check_signatures p keys payload sigs).0 ≡ true
      → (i : ℕ) × (s : Signature) × (get_elem? sigs i ≡ some s) × IsSignedBy keys payload s
  unfolding check_signatures
  check_signatures-IsSignedBy keys payload [] h = absurd (cc)
  check_signatures-IsSignedBy keys payload (s ∷ sigs) h =
      elim (Bool-cases (check_signature p keys payload s).0) [
        | inl one ↦ (0, s, refl, check_signature-IsSignedBy keys payload s one)
        | inr more ↦
            let (i, found, at, signed) =
              check_signatures-IsSignedBy keys payload sigs (rw more at h) in
            (suc i, found, at, signed)
      ]

  signature_check-IsSignedBy :
      (keys : Map Text) (t : Throws Bytes) (sigs : List Signature)
      → (signature_check p keys t sigs).0 ≡ true
      → (payload : Bytes) × (i : ℕ) × (s : Signature) × (t ≡ ok payload)
        × (get_elem? sigs i ≡ some s)
        × IsSignedBy keys payload s
  unfolding signature_check
  signature_check-IsSignedBy keys (err e) sigs h = absurd (cc)
  signature_check-IsSignedBy keys (ok payload) sigs h =
      let (i, s, at, signed) = check_signatures-IsSignedBy keys payload sigs h in
      (payload, i, s, refl, at, signed)

-- The height is one above `n`, for an `n` below 2 ^ 53; from there on, where the sum is rounded, it
-- may also be `n` itself or two above it.
abbrev pub IsNext : ℕ → ℕ → Type 0
IsNext n height =
    ((n < 2 ^ 53) × (height ≡ n + 1)) ⊎ ((2 ^ 53 ≤ n) × ((height ≡ n) ⊎ (height ≡ n + 2)))

-- The height is next to the number, or what its sum with one is rounded to if it is no integer.
abbrev pub IsAbove : Platform → ℕ → Number → Type 0
IsAbove p height number =
    ((n : ℕ) × (number ≡ nat n) × IsNext n height)
    ⊎ ((t : Text) × (number ≡ other t) × (p.sum_with_one t ≡ some height))

-- The receipt stands above its predecessor; without one, it is the first exactly if it links to
-- genesis.
abbrev pub IsLinkedTo : Platform → ℕ → Text → Option (Option IntegrityBlock) → Type 0
IsLinkedTo p height claim (some none) = ⊥
IsLinkedTo p height claim (some (some prev)) =
    (prev.receipt_hash ≡ claim) × IsAbove p height prev.chain_height
IsLinkedTo p height claim none = (height ≡ 1) ↔ (claim ≡ genesis_hash)

plus_one-IsNext : (n : ℕ) → IsNext n (plus_one n)
unfolding plus_one
plus_one-IsNext n = elim (Bool-cases (ltb n (2 ^ 53))) [
  | inl small ↦ inl (ground (arith, small), rw small refl)
  | inr large ↦
      let le : 2 ^ 53 ≤ n = ground (arith, large) in
      elim (Bool-cases (ltb n (2 ^ 54) && n / 2 % 2 == 1)) [
        | inl up ↦ inr (le, inr (rw (large, up) refl))
        | inr down ↦ inr (le, inl (rw (large, down) refl))
      ]
]

is_some_of_eq : (height : ℕ) (o : Option ℕ) → is_some_of height o ≡ true → o ≡ some height
is_some_of_eq height none h = absurd (cc)
is_some_of_eq height (some n) h = ap (λ x. some x) (ground arith)

follows-IsAbove :
    (p : Platform) (height : ℕ) (n : Number) → follows p height n ≡ true → IsAbove p height n
unfolding follows
follows-IsAbove p height (nat n) h =
    let same : plus_one n ≡ height = ground arith in
    inl (n, refl, subst (IsNext n) same (plus_one-IsNext n))
follows-IsAbove p height (neg n) h = absurd (cc)
follows-IsAbove p height (other t) h = inr (t, refl, is_some_of_eq height (p.sum_with_one t) h)

link_to-IsLinkedTo :
    (p : Platform) (height : ℕ) (claim : Text) (prev : Option IntegrityBlock)
    → not_false (link_to p height claim prev).valid ≡ true
    → IsLinkedTo p height claim (some prev)
unfolding link_to
link_to-IsLinkedTo p height claim none h = absurd (cc)
link_to-IsLinkedTo p height claim (some prev) h =
    elim (Bool-cases (text_eq prev.receipt_hash claim && follows p height prev.chain_height)) [
      | inl both ↦
          let (same, above) = &&-eq-true _ _ both in
          ((text_eq_iff _ _).0 same, follows-IsAbove p height prev.chain_height above)
      | inr apart ↦ absurd (ground (arith, apart, h))
    ]

link_alone-IsLinkedTo :
    (p : Platform) (height : ℕ) (claim : Text)
    → not_false (link_alone height claim).valid ≡ true
    → IsLinkedTo p height claim none
unfolding link_alone
link_alone-IsLinkedTo p height claim h = elim (Bool-cases (height == 1)) [
  | inl first ↦ elim (Bool-cases (text_eq claim genesis_hash)) [
    | inl genesis ↦ (λ _. (text_eq_iff _ _).0 genesis, λ _. ground arith)
    | inr elsewhere ↦ absurd (ground (arith, first, elsewhere, h))
  ]
  | inr later ↦ elim (Bool-cases (text_eq claim genesis_hash)) [
    | inl genesis ↦ absurd (ground (arith, later, genesis, h))
    | inr elsewhere ↦
        (λ e. absurd (ground arith), λ e. absurd (ground (arith, text_eq_iff claim genesis_hash)))
  ]
]

-- A receipt's chain height is a positive integer, and its link holds.
link_check-IsLinkedTo :
    (p : Platform) (n : Number) (claim : Text) (prev : Option (Option IntegrityBlock))
    → not_false (link_check p n claim prev).valid ≡ true
    → (height : ℕ) × (n ≡ nat (suc height)) × IsLinkedTo p (suc height) claim prev
unfolding link_check
link_check-IsLinkedTo p (nat zero) claim prev h = absurd (cc)
link_check-IsLinkedTo p (nat (suc n)) claim (some prev) h =
    let here : (suc n == 0) ≡ false = ground arith in
    (n, refl, link_to-IsLinkedTo p (suc n) claim prev (rw here at h))
link_check-IsLinkedTo p (nat (suc n)) claim none h =
    let here : (suc n == 0) ≡ false = ground arith in
    (n, refl, link_alone-IsLinkedTo p (suc n) claim (rw here at h))
link_check-IsLinkedTo p (neg n) claim prev h = absurd (cc)
link_check-IsLinkedTo p (other t) claim prev h = absurd (cc)

abbrev pub IsEvidence : Platform → VerifyOptions → SignedReceipt → Type 0
IsEvidence p opts signed =
    HasHash p signed.receipt
    × HasSignature p opts.public_keys signed
    × ((height : ℕ) × (signed.receipt.integrity.chain_height ≡ nat (suc height))
        × IsLinkedTo p (suc height) signed.receipt.integrity.previous_receipt_hash
            opts.previous_receipt)

verify_opened-IsEvidence :
    (p : Platform) (signed : SignedReceipt) (opts : VerifyOptions)
    → (verify_opened p signed opts).valid ≡ true
    → IsEvidence p opts signed
unfolding verify_opened
verify_opened-IsEvidence p signed opts h =
    let (three, stamped) = &&-eq-true _ _ h in
    let (two, linked) = &&-eq-true _ _ three in
    let (hashed, signs) = &&-eq-true _ _ two in
    let (payload, i, s, read, at, by) = signature_check-IsSignedBy p opts.public_keys _ _ signs in
    (
      hash_check-HasHash p _ _ hashed,
      (payload, i, s, read, at, by),
      link_check-IsLinkedTo p _ _ _ linked,
    )

-- What the first two checks show, whatever the others answer.
pub verify_receipt_content :
    (p : Platform) (signed : SignedReceipt) (opts : VerifyOptions)
    → (verify_receipt p (envelope_of signed) opts).checks.canonical_hash_matches ≡ true
    → (verify_receipt p (envelope_of signed) opts).checks.signature_valid ≡ true
    → HasHash p signed.receipt × HasSignature p opts.public_keys signed
unfolding verify_receipt verify_opened
verify_receipt_content p signed opts hashed signs =
    let whole = opened-envelope_of signed in
    let (payload, i, s, read, at, by) =
      signature_check-IsSignedBy p opts.public_keys _ _ (rw whole at signs) in
    (hash_check-HasHash p _ _ (rw whole at hashed), (payload, i, s, read, at, by))

-- An envelope that is accepted is well formed, and its receipt carries the SHA-256 of its canonical
-- body, has an Ed25519 signature over its payload by a key that the caller trusts for the
-- signature's key id, and stands at a positive height. If the caller gave a predecessor, it carries
-- that one's hash and is directly above it, where the predecessor's height is a natural number below
-- 2 ^ 53; from 2 ^ 53 on, where the sum is rounded, its height is that of the predecessor or two
-- above it, and above a height that is no integer it is what the sum is rounded to. Without a
-- predecessor, height 1 and the genesis hash come together.
pub verify_receipt_sound :
    (p : Platform) (e : Dynamic Envelope) (opts : VerifyOptions)
    → (verify_receipt p e opts).valid ≡ true
    → (signed : SignedReceipt) × (opened e ≡ ok signed) × IsEvidence p opts signed
unfolding verify_receipt
verify_receipt_sound p e opts h = found (opened e) refl h
  where
    found :
        (r : Result ShapeError SignedReceipt)
        → opened e ≡ r
        → (verify_shape p r opts).valid ≡ true
        → (signed : SignedReceipt) × (opened e ≡ ok signed) × IsEvidence p opts signed
    found (err x) at h = absurd (cc)
    found (ok signed) at h = (signed, at, verify_opened-IsEvidence p signed opts h)

-- Two accepted envelopes whose receipts claim one hash have one canonical body, or their two
-- canonical bodies are a collision of SHA-256.
pub verify_receipt_binds :
    (p : Platform)
    → DigestLaws p
    → (e e' : Dynamic Envelope) (opts opts' : VerifyOptions) (s s' : SignedReceipt)
    → opened e ≡ ok s
    → opened e' ≡ ok s'
    → (verify_receipt p e opts).valid ≡ true
    → (verify_receipt p e' opts').valid ≡ true
    → s.receipt.integrity.receipt_hash ≡ s'.receipt.integrity.receipt_hash
    → (b b' : Bytes) × (canonical_hashing_payload p s.receipt ≡ ok b)
      × (canonical_hashing_payload p s'.receipt ≡ ok b')
      × ((b ≡ b') ⊎ IsCollision p b b')
verify_receipt_binds p laws e e' opts opts' s s' at at' valid valid' same =
    let (b, read, hash) = hash_of e opts s at valid in
    let (b', read', hash') = hash_of e' opts' s' at' valid' in
    (b, b', read, read', sha256_eq p laws b b' (hash ∙ same ∙ sym hash'))
  where
    hash_of :
        (e : Dynamic Envelope) (opts : VerifyOptions) (s : SignedReceipt)
        → opened e ≡ ok s
        → (verify_receipt p e opts).valid ≡ true
        → HasHash p s.receipt
    hash_of e opts s at valid =
        let (s', at', evidence) = verify_receipt_sound p e opts valid in
        let same : s' ≡ s = ok-injective (opened e) at' at in
        subst (λ (s : SignedReceipt). HasHash p s.receipt) same evidence.0
