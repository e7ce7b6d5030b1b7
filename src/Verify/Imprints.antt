-- ===== src/Verify/Imprints.antt =====
-- The time-stamp tokens of a receipt that verify.ts accepts.
use mathlib.Core.Path.{subst}
use receipts_sdk.Prelude.{
  ℕ, zero, suc, ◌≡◌, sym, ap, true, false, &&-eq-true, Bool-cases, inl, inr, some, List, [], ◌∷◌,
  map, some_of, get_elem?, Bytes, Text, text_eq, text_eq_iff, arith, ok, ok-injective,
}
use receipts_sdk.Prelude.Hex.{lower}
use receipts_sdk.Types.{SignedReceipt, TimestampToken}
use receipts_sdk.Crypto.{Platform, sha256}
use receipts_sdk.Payload.{canonical_signing_payload}
use receipts_sdk.Timestamp.{
  TimestampVerdict, receipt_timestamp_imprint, verify_receipt_timestamps, verdict_for, verdict_of,
}
use receipts_sdk.Verify.{
  VerifyOptions, judged, is_false, not_false, timestamp_check, stamps_of, verify_opened,
  verify_receipt,
}
use receipts_sdk.Verify.Shapes.{Dynamic, Envelope, opened}
use receipts_sdk.Verify.Evidence.{verify_receipt_sound}

mapped_at :
    {A B : Type 0} (f : A → B) (xs : List A) (i : ℕ) {x : A}
    → get_elem? xs i ≡ some x
    → get_elem? (map f xs) i ≡ some (f x)
mapped_at f [] i e = absurd (cc)
mapped_at f (x ∷ xs) zero e = ap (λ o. some (f o)) (ground (arith, e))
mapped_at f (x ∷ xs) (suc i) e = mapped_at f xs i e

none_of :
    (verdicts : List TimestampVerdict) (i : ℕ) (v : TimestampVerdict)
    → some_of (λ (v : TimestampVerdict). is_false v.imprint_matches) verdicts ≡ false
    → get_elem? verdicts i ≡ some v
    → is_false v.imprint_matches ≡ false
unfolding some_of
none_of [] i v fine at = absurd (cc)
none_of (x ∷ xs) zero v fine at = ground (arith, fine, at)
none_of (x ∷ xs) (suc i) v fine at = none_of xs i v (ground (arith, fine)) at

judged-none_of :
    (verdicts : List TimestampVerdict)
    → not_false (judged (ok verdicts)).matches ≡ true
    → some_of (λ (v : TimestampVerdict). is_false v.imprint_matches) verdicts ≡ false
unfolding judged
judged-none_of verdicts fine =
    elim (Bool-cases (some_of (λ (v : TimestampVerdict). is_false v.imprint_matches) verdicts)) [
      | inl wrong ↦ absurd (ground (arith, wrong, fine))
      | inr right ↦ right
    ]

module _ (p : Platform) where
  -- A local token that is not wrong has the receipt's imprint.
  verdict_matches :
      (expected : Text) (t : TimestampToken) (imprint : Text)
      → p.local_imprint t.timestamp_token ≡ some imprint
      → is_false (verdict_for p expected t).imprint_matches ≡ false
      → lower imprint ≡ expected
  unfolding verdict_of is_false
  verdict_matches expected t imprint local fine =
      elim (Bool-cases (text_eq (lower imprint) expected)) [
        | inl same ↦ (text_eq_iff _ _).0 same
        | inr apart ↦ absurd (ground (arith, apart, rw local at fine))
      ]

  stamps_match :
      (s : SignedReceipt) (payload : Bytes) (ts : List TimestampToken) (i : ℕ) (t : TimestampToken)
      (imprint : Text)
      → canonical_signing_payload p s.receipt ≡ ok payload
      → s.timestamps ≡ some ts
      → not_false (stamps_of p s (some ts)).matches ≡ true
      → get_elem? ts i ≡ some t
      → p.local_imprint t.timestamp_token ≡ some imprint
      → lower imprint ≡ sha256 p payload
  unfolding stamps_of verify_receipt_timestamps receipt_timestamp_imprint
  stamps_match s payload [] i t imprint read stamped fine at local = absurd (cc)
  stamps_match s payload (x ∷ ts) i t imprint read stamped fine at local =
      let verdicts = map (verdict_for p (sha256 p payload)) (x ∷ ts) in
      let right = judged-none_of verdicts (rw (read, stamped) at fine) in
      let here = mapped_at (verdict_for p (sha256 p payload)) (x ∷ ts) i at in
      verdict_matches (sha256 p payload) t imprint local
        (none_of verdicts i (verdict_for p (sha256 p payload) t) right here)

-- An accepted receipt carries no local time-stamp token for other bytes: the imprint that can be
-- read from any of its tokens is the receipt's own.
pub verify_receipt_imprints :
    (p : Platform) (e : Dynamic Envelope) (opts : VerifyOptions) (s : SignedReceipt)
    (ts : List TimestampToken) (i : ℕ) (t : TimestampToken) (imprint : Text)
    → (verify_receipt p e opts).valid ≡ true
    → opened e ≡ ok s
    → s.timestamps ≡ some ts
    → get_elem? ts i ≡ some t
    → p.local_imprint t.timestamp_token ≡ some imprint
    → receipt_timestamp_imprint p s ≡ ok (lower imprint)
unfolding verify_receipt verify_opened timestamp_check receipt_timestamp_imprint
verify_receipt_imprints p e opts s ts i t imprint valid at stamped here local =
    let (s', at', (hash, (payload, j, sig, read, listed, rest), link)) =
      verify_receipt_sound p e opts valid in
    let same : s' ≡ s = ok-injective (opened e) at' at in
    let read_s =
      subst (λ (s : SignedReceipt). canonical_signing_payload p s.receipt ≡ ok payload) same read in
    let opened_valid : (verify_opened p s opts).valid ≡ true = rw at at valid in
    let (three, fine) =
      &&-eq-true _ (not_false (stamps_of p s s.timestamps).matches) opened_valid in
    rw read_s (
      ap (λ x. ok x)
        (sym (
          stamps_match p s payload ts i t imprint read_s stamped
            (subst (λ o. not_false (stamps_of p s o).matches ≡ true) stamped fine) here local)))
