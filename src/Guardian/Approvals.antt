-- ===== src/Guardian/Approvals.antt =====
-- What a reviewer signs for an action, the gate accepts for that action.
use mathlib.Core.Path.{subst}
use receipts_sdk.Prelude.{
  ℕ, ◌≡◌, refl, Bool, true, false, not, Option, some, or_else, [], Bytes, Text, text_eq_self, arith,
  ok, guard, >>=-eq-ok, ok-injective,
}
use receipts_sdk.Errors.{reviewer_is_actor}
use receipts_sdk.Types.{KeyPair, eddsa}
use receipts_sdk.Crypto.{Platform, canonicalize_bytes, sha256, sign}
use receipts_sdk.Verify.{key_for}
use receipts_sdk.Verify.Signed.{SigningLaws, IsMatched, sign-verify}
use receipts_sdk.Prelude.Maps.{Map}
use receipts_sdk.Guardian.{
  approve, ProposedAction, ReviewDecision, PreVerdict, SignedPreVerdict, GateOptions,
  pre_verdict_json, is_actor, reviewer_independent, action_hash, sign_pre_verdict, unexpired,
  signed_by_key, verify_pre_verdict, assert_action_cleared,
}
use receipts_sdk.Guardian.Gate.{guard-eq-ok}

module _ (p : Platform) (parse_date : Text → Option ℕ) (laws : SigningLaws p) (a : ProposedAction)
    (review : ReviewDecision) (k : KeyPair) (reviewed_at : Text) (expires_at : Option Text) where
  -- The body that is signed.
  abbrev verdict_with : Text → PreVerdict
  verdict_with bound = record {
    tenant_id = a.tenant_id;
    action_type = a.action_type;
    action_hash = bound;
    verdict = review.verdict;
    reviewer = review.reviewer;
    independent_of = a.actor;
    reasons = or_else review.reasons [];
    reviewed_at = reviewed_at;
    expires_at = expires_at;
  }

  sign_pre_verdict-inversion :
      (s : SignedPreVerdict)
      → sign_pre_verdict p parse_date a review k reviewed_at expires_at ≡ ok s
      → (bound : Text) × (bytes : Bytes) × (sig : Text) × (is_actor a.actor review.reviewer ≡ false)
        × (action_hash p parse_date a ≡ ok bound)
        × (canonicalize_bytes p (pre_verdict_json (verdict_with bound)) ≡ ok bytes)
        × (sign p bytes k ≡ ok sig)
        × (record {
          pre_verdict = verdict_with bound;
          hash = sha256 p bytes;
          signature = record { alg = eddsa; kid = k.kid; sig = sig };
        }
            ≡ s)
  unfolding sign_pre_verdict
  sign_pre_verdict-inversion s h =
      let (_, apart, h1) =
        >>=-eq-ok
          (guard (not (is_actor a.actor review.reviewer)) (reviewer_is_actor review.reviewer)) _
          h in
      let (bound, hashed, h2) = >>=-eq-ok (action_hash p parse_date a) _ h1 in
      let (bytes, read, h3) =
        >>=-eq-ok (canonicalize_bytes p (pre_verdict_json (verdict_with bound))) _ h2 in
      let (sig, signs, h4) = >>=-eq-ok (sign p bytes k) _ h3 in
      let free = guard-eq-ok p parse_date _ _ apart in
      (bound, bytes, sig, ground (arith, free), hashed, read, signs, ok-injective (ok _) refl h4)

  signed_by_key-signed :
      (keys : Map Text) (bytes : Bytes) (sig : Text)
      → IsMatched p k
      → key_for keys k.kid ≡ some k.public_key
      → sign p bytes k ≡ ok sig
      → signed_by_key p parse_date keys bytes (record { alg = eddsa; kid = k.kid; sig = sig })
        ≡ true
  unfolding signed_by_key
  signed_by_key-signed keys bytes sig matched found signs =
      rw (text_eq_self eddsa, found) (sign-verify p laws bytes k sig matched signs)

-- An approval that is signed for an action clears that action until it expires, if the signer's
-- public key belongs to its private key and is the one that the gate holds under the key id.
pub sign_pre_verdict_cleared :
    (p : Platform) (parse_date : Text → Option ℕ)
    → SigningLaws p
    → (a : ProposedAction) (review : ReviewDecision) (k : KeyPair) (reviewed_at : Text)
      (expires_at : Option Text) (opts : GateOptions) (allow_concerns : Bool) (s : SignedPreVerdict)
    → sign_pre_verdict p parse_date a review k reviewed_at expires_at ≡ ok s
    → review.verdict ≡ approve
    → IsMatched p k
    → key_for opts.public_keys k.kid ≡ some k.public_key
    → unexpired p parse_date expires_at opts.now ≡ true
    → assert_action_cleared p parse_date s a opts allow_concerns ≡ ok tt
unfolding assert_action_cleared verify_pre_verdict reviewer_independent
sign_pre_verdict_cleared p parse_date laws a review k reviewed_at expires_at opts allow s h approves
      matched found fresh =
    let (bound, bytes, sig, apart, hashed, read, signs, made) =
      sign_pre_verdict-inversion p parse_date laws a review k reviewed_at expires_at s h in
    let by =
      signed_by_key-signed p parse_date laws a review k reviewed_at expires_at opts.public_keys
        bytes sig matched found signs in
    subst (λ s. assert_action_cleared p parse_date s a opts allow ≡ ok tt) made
      (rw
        (
          read,
          hashed,
          text_eq_self (sha256 p bytes),
          text_eq_self bound,
          by,
          fresh,
          apart,
          approves,
        )
        refl)
