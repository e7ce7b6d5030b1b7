-- ===== src/Assurance.antt =====
-- assurance.ts: how much a receipt shows, as a level.
pub mod Levels
use receipts_sdk.Prelude.{
  Bool, true, false, not, ◌&&◌, Option, none, some, List, [], ◌∷◌, ◌++◌, Text, codes, text_eq,
  includes, some_of, if◌then◌else◌,
}
use receipts_sdk.Prelude.Maps.{Map}
use receipts_sdk.Types.{Signature, TimestampToken, SignedReceipt}
use receipts_sdk.Crypto.{Platform}
use receipts_sdk.Verify.{VerifyOptions, verify_receipt}
use receipts_sdk.Verify.Shapes.{envelope_of}

pub data AssuranceLevel : Type 0 where
  l0 l1 l2 l3 : AssuranceLevel

-- `LEVEL_NAME`
unfoldable pub level_name : AssuranceLevel → Text
level_name l0 = codes "Declared"
level_name l1 = codes "Signed"
level_name l2 = codes "Attested"
level_name l3 = codes "Anchored"

pub record AssuranceCriteria : Type 0 where
  pub signed : Bool
  pub attested : Bool
  pub anchored : Bool

pub record AssuranceAssessment : Type 0 where
  pub level : AssuranceLevel
  pub name : Text
  pub reasons : List Text
  pub criteria : AssuranceCriteria

pub record AssuranceOptions : Type 0 where
  pub attested_kids : Option (List Text)
  pub public_keys : Option (Map Text)
  pub verified_anchor : Option Bool

abbrev pub listed : Option (List Text) → List Text
listed none = []
listed (some kids) = kids

-- There is a signature, and the receipt says a hash; a chain height is always a number.
abbrev pub checkable : SignedReceipt → Bool
checkable signed = elim signed.signatures [
  | [] ↦ false
  | s ∷ more ↦ not (text_eq signed.receipt.integrity.receipt_hash [])
]

abbrev pub has_anchor : Option (List TimestampToken) → Bool
has_anchor none = false
has_anchor (some []) = false
has_anchor (some (t ∷ ts)) = true

abbrev pub is_confirmed : Option Bool → Bool
is_confirmed none = false
is_confirmed (some b) = b

-- Whether the signature counts, and why not.
abbrev verdict_reasons : Bool → List Text
verdict_reasons true = []
verdict_reasons false = codes "signature did not verify against the supplied keys" ∷ []

-- The climb from L0.
unfoldable pub ladder : Bool → Bool → Bool → AssuranceLevel × List Text
ladder false attested anchored =
    (l0, codes "L0 Declared: no verified signature over a chained record" ∷ [])
ladder true false anchored = (
  l1,
  codes "L1 Signed: a known signer signed the chained record"
      ∷ codes "signer not declared attested (needed for L2); pass attestedKids for HSM/KMS keys"
      ∷ [],
)
ladder true true false = (
  l2,
  codes "L1 Signed: a known signer signed the chained record"
      ∷ codes "L2 Attested: signer bound to an attested (HSM/KMS) key"
      ∷ codes "no external anchor / timestamp (needed for L3)"
      ∷ [],
)
ladder true true true = (
  l3,
  codes "L1 Signed: a known signer signed the chained record"
      ∷ codes "L2 Attested: signer bound to an attested (HSM/KMS) key"
      ∷ codes "L3 Anchored: externally timestamped or logged"
      ∷ [],
)

module _ (p : Platform) where
  unfoldable pub check_signed : SignedReceipt → Option (Map Text) → Bool × List Text
  check_signed signed none =
      (false, codes "signatures were NOT checked: pass publicKeys to establish L1 or above" ∷ [])
  check_signed signed (some keys) =
      let valid =
        (verify_receipt p (envelope_of signed)
          (record { public_keys = keys; previous_receipt = none })).valid in
      (valid, verdict_reasons valid)

  unfoldable pub assurance_level : SignedReceipt → AssuranceOptions → AssuranceAssessment
  unfolding check_signed ladder level_name
  assurance_level signed opts =
      let (is_signed, why) =
        if checkable signed then check_signed signed opts.public_keys else (false, []) in
      let attested =
        is_signed && some_of (λ s. includes (listed opts.attested_kids) s.kid) signed.signatures in
      let anchored = has_anchor signed.timestamps && is_confirmed opts.verified_anchor in
      let unconfirmed =
        if has_anchor signed.timestamps && not anchored
        then codes
            "a timestamp is attached but was not independently verified; verify the TSA signature (or transparency-log inclusion) and pass verifiedAnchor"
          ∷ []
        else [] in
      let (level, steps) = ladder is_signed attested anchored in
      record {
        level = level;
        name = level_name level;
        reasons = why ++ unconfirmed ++ steps;
        criteria = record { signed = is_signed; attested = attested; anchored = anchored };
      }
