-- ===== src/Verify.antt =====
-- verify.ts: the verification of one receipt.
pub mod Shapes
pub mod Evidence
pub mod Signed
pub mod Ledger
pub mod Imprints
use receipts_sdk.Prelude.{
  ℕ, ◌+◌, ◌^◌, ◌/◌, ◌%◌, ltb, ◌≡◌, Bool, true, false, not, ◌&&◌, ◌||◌, Option, none, some, List, [],
  ◌∷◌, ◌++◌, Bytes, Text, text_eq, or_else, some_of, ◌==◌, if◌then◌else◌, Result, ok, err,
}
use receipts_sdk.Prelude.Maps.{Map, get}
use receipts_sdk.Errors.{Throws, Error}
use receipts_sdk.Types.{
  Number, nat, neg, other, IntegrityBlock, Receipt, Signature, SignedReceipt, TimestampToken,
  genesis_hash, eddsa,
}
use receipts_sdk.Crypto.{Platform, sha256, verify}
use receipts_sdk.Payload.{canonical_signing_payload, canonical_hashing_payload}
use receipts_sdk.Timestamp.{TimestampVerdict, verify_receipt_timestamps}
use Shapes.{Dynamic, Envelope, ShapeError, opened}

pub data VerifyError : Type 0 where
  malformed : ShapeError → VerifyError
  hash_mismatch hash_check_failed cannot_canonicalize : VerifyError
  unsupported_alg : Text → Text → VerifyError
  no_public_key signature_invalid : Text → VerifyError
  invalid_chain_height : Number → VerifyError
  link_broken height_not_contiguous genesis_inconsistent : VerifyError
  timestamp_check_failed imprint_mismatch : VerifyError

pub record Checks : Type 0 where
  pub canonical_hash_matches : Bool
  pub signature_valid : Bool
  pub chain_link_valid : Option Bool
  pub chain_position_attested : Bool
  pub timestamp_imprint_matches : Option Bool
  pub timestamp_time_attested : Option Bool

pub record VerifyResult : Type 0 where
  pub valid : Bool
  pub checks : Checks
  pub errors : List VerifyError

-- `previousReceipt`: its integrity block, and `some none` for one whose block has no fields.
pub record VerifyOptions : Type 0 where
  pub public_keys : Map Text
  pub previous_receipt : Option (Option IntegrityBlock)

-- `opts.publicKeys[kid]`, if it is not empty.
abbrev pub not_empty : Option Text → Option Text
not_empty none = none
not_empty (some []) = none
not_empty (some (c ∷ s)) = some (c ∷ s)

unfoldable pub key_for : Map Text → Text → Option Text
key_for keys kid = not_empty (get keys kid)

-- A check's answer and the errors that it adds.
abbrev pub error_if : Bool → VerifyError → List VerifyError
error_if true e = e ∷ []
error_if false e = []

abbrev pub is_some_of : ℕ → Option ℕ → Bool
is_some_of height none = false
is_some_of height (some n) = height == n

pub record Link : Type 0 where
  pub valid : Option Bool
  pub attested : Bool
  pub errors : List VerifyError

-- `n + 1` on doubles: exact below 2 ^ 53; from there to 2 ^ 54 every second integer is a double,
-- and the sum goes to the neighbour with the even half; above, it is rounded back to n.
unfoldable pub plus_one : ℕ → ℕ
plus_one n = if ltb n (2 ^ 53) then n + 1 else if ltb n (2 ^ 54) && n / 2 % 2 == 1 then n + 2 else n

-- Without a predecessor, height 1 and the genesis hash must come together.
unfoldable pub link_alone : ℕ → Text → Link
link_alone height claim =
    let first = height == 1 in
    let genesis = text_eq claim genesis_hash in
    if first || genesis
    then record {
      valid = some (first && genesis);
      attested = true;
      errors = error_if (not (first && genesis)) genesis_inconsistent;
    }
    else record { valid = none; attested = false; errors = [] }

pub record Stamps : Type 0 where
  pub matches : Option Bool
  pub attested : Option Bool
  pub errors : List VerifyError

unfoldable pub is_false : Option Bool → Bool
is_false (some false) = true
is_false _ = false

unfoldable pub judged : Throws (List TimestampVerdict) → Stamps
unfolding is_false
judged (err e) = record {
  matches = none;
  attested = some false;
  errors = timestamp_check_failed ∷ [];
}
judged (ok verdicts) =
    let wrong = some_of (λ (v : TimestampVerdict). is_false v.imprint_matches) verdicts in
    record {
      matches = if wrong then some false else none;
      attested = some (some_of (λ (v : TimestampVerdict). v.authenticated) verdicts);
      errors = error_if wrong imprint_mismatch;
    }

abbrev pub not_false : Option Bool → Bool
not_false (some false) = false
not_false _ = true

abbrev pub refused : ShapeError → VerifyResult
refused e = record {
  valid = false;
  checks = record {
    canonical_hash_matches = false;
    signature_valid = false;
    chain_link_valid = none;
    chain_position_attested = false;
    timestamp_imprint_matches = none;
    timestamp_time_attested = none;
  };
  errors = malformed e ∷ [];
}

module _ (p : Platform) where
  unfoldable pub follows : ℕ → Number → Bool
  unfolding plus_one
  follows height (nat n) = height == plus_one n
  follows height (neg n) = false
  follows height (other t) = is_some_of height (p.sum_with_one t)

  unfoldable pub link_to : ℕ → Text → Option IntegrityBlock → Link
  unfolding follows
  link_to height claim none = record {
    valid = some false;
    attested = true;
    errors = link_broken ∷ height_not_contiguous ∷ [];
  }
  link_to height claim (some prev) =
      let link_ok = text_eq prev.receipt_hash claim in
      let height_ok = follows height prev.chain_height in
      record {
        valid = some (link_ok && height_ok);
        attested = true;
        errors =
            error_if (not link_ok) link_broken ++ error_if (not height_ok) height_not_contiguous;
      }

  abbrev pub link_from : ℕ → Text → Option (Option IntegrityBlock) → Link
  link_from height claim (some prev) = link_to height claim prev
  link_from height claim none = link_alone height claim

  unfoldable pub link_check : Number → Text → Option (Option IntegrityBlock) → Link
  unfolding link_to link_alone
  link_check (nat height) claim prev =
      if height == 0
      then record {
        valid = some false;
        attested = false;
        errors = invalid_chain_height (nat 0) ∷ [];
      }
      else link_from height claim prev
  link_check n claim prev = record {
    valid = some false;
    attested = false;
    errors = invalid_chain_height n ∷ [];
  }

  unfoldable pub hash_check : Throws Bytes → Text → Bool × List VerifyError
  hash_check (err e) claimed = (false, hash_check_failed ∷ [])
  hash_check (ok payload) claimed =
      let same = text_eq (sha256 p payload) claimed in (same, error_if (not same) hash_mismatch)

  -- One signature over the payload.
  unfoldable pub verified : Bytes → Signature → Option Text → Bool × List VerifyError
  verified payload s none = (false, no_public_key s.kid ∷ [])
  verified payload s (some key) =
      let valid = verify p payload s.sig key in
      (valid, error_if (not valid) (signature_invalid s.kid))

  unfoldable pub check_signature : Map Text → Bytes → Signature → Bool × List VerifyError
  unfolding verified
  check_signature keys payload s =
      if text_eq s.alg eddsa
      then verified payload s (key_for keys s.kid)
      else (false, unsupported_alg s.alg s.kid ∷ [])

  -- The loop: one valid signature is enough, and every other adds its error.
  unfoldable pub check_signatures : Map Text → Bytes → List Signature → Bool × List VerifyError
  check_signatures keys payload [] = (false, [])
  check_signatures keys payload (s ∷ sigs) =
      let (one, errors) = check_signature keys payload s in
      let (more, rest) = check_signatures keys payload sigs in (one || more, errors ++ rest)

  unfoldable pub signature_check :
      Map Text → Throws Bytes → List Signature → Bool × List VerifyError
  signature_check keys (err e) sigs = (false, cannot_canonicalize ∷ [])
  signature_check keys (ok payload) sigs = check_signatures keys payload sigs

  -- Only where there are tokens.
  unfoldable pub stamps_of : SignedReceipt → Option (List TimestampToken) → Stamps
  unfolding judged
  stamps_of r (some (t ∷ ts)) = judged (verify_receipt_timestamps p r)
  stamps_of r _ = record { matches = none; attested = none; errors = [] }

  unfoldable pub timestamp_check : SignedReceipt → Stamps
  unfolding stamps_of
  timestamp_check r = stamps_of r r.timestamps

  unfoldable pub verify_opened : SignedReceipt → VerifyOptions → VerifyResult
  verify_opened signed opts =
      let i = signed.receipt.integrity in
      let (hash_ok, hash_errors) =
        hash_check (canonical_hashing_payload p signed.receipt) i.receipt_hash in
      let (sig_ok, sig_errors) =
        signature_check opts.public_keys (canonical_signing_payload p signed.receipt)
          signed.signatures in
      let link = link_check i.chain_height i.previous_receipt_hash opts.previous_receipt in
      let stamps = timestamp_check signed in
      record {
        valid = hash_ok && sig_ok && not_false link.valid && not_false stamps.matches;
        checks = record {
          canonical_hash_matches = hash_ok;
          signature_valid = sig_ok;
          chain_link_valid = link.valid;
          chain_position_attested = link.attested;
          timestamp_imprint_matches = stamps.matches;
          timestamp_time_attested = stamps.attested;
        };
        errors = hash_errors ++ sig_errors ++ link.errors ++ stamps.errors;
      }

  abbrev pub verify_shape : Result ShapeError SignedReceipt → VerifyOptions → VerifyResult
  verify_shape (err e) opts = refused e
  verify_shape (ok signed) opts = verify_opened signed opts

  unfoldable pub verify_receipt : Dynamic Envelope → VerifyOptions → VerifyResult
  unfolding verify_opened
  verify_receipt e opts = verify_shape (opened e) opts
