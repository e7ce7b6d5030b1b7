-- ===== src/Assurance/Levels.antt =====
-- What each assurance level shows of a receipt.
use receipts_sdk.Prelude.{
  ℕ, zero, suc, ◌≡◌, refl, ap, inl, inr, Bool, true, false, Bool-cases, &&-eq-true, Option, none,
  some, List, [], ◌∷◌, Text, includes, some_of, get_elem?, if◌then◌else◌, ok-injective, arith,
}
use receipts_sdk.Prelude.Maps.{Map}
use receipts_sdk.Types.{Signature, TimestampToken, SignedReceipt}
use receipts_sdk.Crypto.{Platform}
use receipts_sdk.Verify.Evidence.{IsEvidence, verify_receipt_sound}
use receipts_sdk.Verify.Shapes.{envelope_of, opened-envelope_of}
use receipts_sdk.Assurance.{
  AssuranceLevel, l0, l1, l2, l3, AssuranceOptions, listed, checkable, has_anchor, is_confirmed,
  ladder, check_signed, assurance_level,
}

module _ (p : Platform) (signed : SignedReceipt) (opts : AssuranceOptions) where
  -- Keys were given, and the receipt is evidence under them.
  abbrev pub IsSigned : Type 0
  IsSigned =
      (keys : Map Text) × (opts.public_keys ≡ some keys)
      × IsEvidence p (record { public_keys = keys; previous_receipt = none }) signed

  -- Some signature in the receipt's list has a key id that the caller declares attested.
  abbrev pub IsAttested : Type 0
  IsAttested =
      (i : ℕ) × (s : Signature) × (get_elem? signed.signatures i ≡ some s)
      × (includes (listed opts.attested_kids) s.kid ≡ true)

  -- A token is attached, and the caller says that it was verified.
  abbrev pub IsAnchored : Type 0
  IsAnchored =
      ((t : TimestampToken) × (ts : List TimestampToken) × (signed.timestamps ≡ some (t ∷ ts)))
      × (opts.verified_anchor ≡ some true)

  -- The ladder is cumulative.
  abbrev pub Shows : AssuranceLevel → Type 0
  Shows l0 = Unit
  Shows l1 = IsSigned
  Shows l2 = IsSigned × IsAttested
  Shows l3 = IsSigned × IsAttested × IsAnchored

some_of-get_elem? :
    (test : Signature → Bool) (xs : List Signature)
    → some_of test xs ≡ true
    → (i : ℕ) × (s : Signature) × (get_elem? xs i ≡ some s) × (test s ≡ true)
unfolding some_of
some_of-get_elem? test [] e = absurd (cc)
some_of-get_elem? test (x ∷ xs) e = elim (Bool-cases (test x)) [
  | inl here ↦ (zero, x, refl, here)
  | inr later ↦
      let (i, s, found, holds) = some_of-get_elem? test xs (ground (arith, later, e)) in
      (suc i, s, found, holds)
]

has_anchor-inversion :
    (tokens : Option (List TimestampToken))
    → has_anchor tokens ≡ true
    → (t : TimestampToken) × (ts : List TimestampToken) × (tokens ≡ some (t ∷ ts))
has_anchor-inversion none e = absurd (cc)
has_anchor-inversion (some []) e = absurd (cc)
has_anchor-inversion (some (t ∷ ts)) e = (t, ts, refl)

is_confirmed-inversion : (o : Option Bool) → is_confirmed o ≡ true → o ≡ some true
is_confirmed-inversion none e = absurd (cc)
is_confirmed-inversion (some b) e = ap (λ b. some b) e

check_signed-IsEvidence :
    (p : Platform) (signed : SignedReceipt) (keys : Option (Map Text))
    → (check_signed p signed keys).0 ≡ true
    → (k : Map Text) × (keys ≡ some k)
      × IsEvidence p (record { public_keys = k; previous_receipt = none }) signed
unfolding check_signed
check_signed-IsEvidence p signed none e = absurd (cc)
check_signed-IsEvidence p signed (some k) e =
    let (s, at, evidence) = verify_receipt_sound p (envelope_of signed) _ e in
    let same : s ≡ signed = ok-injective _ at (opened-envelope_of signed) in
    (k, refl, rw same at evidence)

check_if-IsEvidence :
    (p : Platform) (signed : SignedReceipt) (opts : AssuranceOptions)
    → (if checkable signed then check_signed p signed opts.public_keys else (false, [])).0 ≡ true
    → IsSigned p signed opts
check_if-IsEvidence p signed opts e = elim (Bool-cases (checkable signed)) [
  | inl can ↦ check_signed-IsEvidence p signed opts.public_keys (rw can at e)
  | inr cannot ↦ absurd (ground (arith, rw cannot at e))
]

ladder-Shows :
    (p : Platform) (signed : SignedReceipt) (opts : AssuranceOptions)
    (is_signed attested anchored : Bool)
    → (is_signed ≡ true → IsSigned p signed opts)
    → (attested ≡ true → IsAttested p signed opts)
    → (anchored ≡ true → IsAnchored p signed opts)
    → Shows p signed opts (ladder is_signed attested anchored).0
unfolding ladder
ladder-Shows p signed opts false attested anchored s a t = tt
ladder-Shows p signed opts true false anchored s a t = s refl
ladder-Shows p signed opts true true false s a t = (s refl, a refl)
ladder-Shows p signed opts true true true s a t = (s refl, a refl, t refl)

-- A level of at least L1 shows that the caller gave keys under which the receipt is evidence: its
-- hash, a signature by a trusted key and its place in a chain hold. At least L2 shows besides that a
-- signature in its list has a key id that the caller declared attested, and L3 that a time-stamp
-- token is attached and the caller confirmed an anchor.
pub assurance_level_sound :
    (p : Platform) (signed : SignedReceipt) (opts : AssuranceOptions)
    → Shows p signed opts (assurance_level p signed opts).level
unfolding assurance_level
assurance_level_sound p signed opts =
    ladder-Shows p signed opts _ _ _ (check_if-IsEvidence p signed opts)
      (λ e.
        some_of-get_elem? (λ s. includes (listed opts.attested_kids) s.kid) signed.signatures
          (&&-eq-true _ _ e).1)
      (λ e. (
        has_anchor-inversion signed.timestamps (&&-eq-true _ _ e).0,
        is_confirmed-inversion opts.verified_anchor (&&-eq-true _ _ e).1,
      ))
