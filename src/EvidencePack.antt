-- ===== src/EvidencePack.antt =====
-- evidence/evidence-pack.ts: packs of receipts for an inspector, and their verification.
pub mod Shapes
pub mod Encode
pub mod Climbs
pub mod Verified
pub mod Built
use receipts_sdk.Prelude.{
  ℕ, zero, suc, ◌+◌, ◌-◌, ◌/◌, ◌%◌, Bool, true, false, ◌&&◌, not, Option, none, some, List, [], ◌∷◌,
  map, Bytes, Text, codes, text_eq, length, leb, ◌==◌, if◌then◌else◌, ok, err, ◌>>=◌, ◌>>◌, ◌++◌,
  guard,
}
use receipts_sdk.Prelude.Maps.{Map, get}
use receipts_sdk.Errors.{Throws, empty_pack}
use receipts_sdk.Types.{Number, nat, neg, other, SignedReceipt}
use receipts_sdk.Crypto.{Platform, canonicalize_bytes, sha256}
use receipts_sdk.Payload.{canonical_signing_payload}
use receipts_sdk.Merkle.{InclusionProof, MerkleBatch, build_batch, next_sibling, is_root}
use receipts_sdk.Merkle.Nodes.{hash_leaf, hash_node}
use receipts_sdk.Keys.{KeyRecord}
use receipts_sdk.Verify.{VerifyOptions, verify_receipt}
use receipts_sdk.Verify.Shapes.{envelope_of}
use Shapes.{EvidencePackMeta, Contents, EvidencePack}
use Encode.{contents_json}

pub data PackError : Type 0 where
  no_external_keys pack_hash_differs : PackError
  not_included bad_signatures : ℕ → PackError

pub record PackChecks : Type 0 where
  pub pack_hash_matches : Bool
  pub all_receipts_included : Bool
  pub all_signatures_valid : Bool

pub record PackVerification : Type 0 where
  pub valid : Bool
  pub checks : PackChecks
  pub failed_inclusion : List Text
  pub failed_signature : List Text
  pub errors : List PackError

-- The arithmetic of numbers that are no integers, by their decimal texts: `Math.floor(x / 2)`,
-- `Math.ceil(x / 2)` and `x > 1`.
pub record Fractions : Type 0 where
  pub floor_half : Text → Number
  pub ceil_half : Text → Number
  pub above_one : Text → Bool

-- `idx % 2 === 0` and `idx === levelSize - 1`
even_index : Number → Bool
even_index (nat n) = n % 2 == 0
even_index (neg n) = n % 2 == 1
even_index (other t) = false

last_index : Number → ℕ → Bool
last_index (nat n) size = n == size - 1
last_index _ size = false

-- `Math.floor(idx / 2)`
half_index : Fractions → Number → Number
half_index q (nat n) = nat (n / 2)
half_index q (neg n) = neg (n / 2)
half_index q (other t) = q.floor_half t

abbrev pub ids : List SignedReceipt → List Text
ids rs = map (λ (r : SignedReceipt). r.receipt.receipt_id) rs

-- An error, unless nothing failed.
error_of : List Text → (ℕ → PackError) → List PackError
error_of [] e = []
error_of (id ∷ more) e = e (length (id ∷ more)) ∷ []

is_empty : {A : Type 0} → List A → Bool
is_empty [] = true
is_empty (x ∷ xs) = false

unfoldable pub pack_verdict : Bool → List Text → List Text → PackVerification
unfolding error_of is_empty
pack_verdict hash_ok failed_inclusion failed_signature =
    let included = is_empty failed_inclusion in
    let signed = is_empty failed_signature in
    record {
      valid = hash_ok && included && signed;
      checks = record {
        pack_hash_matches = hash_ok;
        all_receipts_included = included;
        all_signatures_valid = signed;
      };
      failed_inclusion = failed_inclusion;
      failed_signature = failed_signature;
      errors =
          (if hash_ok then [] else pack_hash_differs ∷ [])
          ++ error_of failed_inclusion not_included
          ++ error_of failed_signature bad_signatures;
    }

-- `corePack`. The text of the recipe is an argument.
abbrev pub core_pack :
    EvidencePackMeta → List SignedReceipt → List KeyRecord → Text → MerkleBatch → Contents
core_pack meta rs keys recipe merkle = record {
  context = codes "https://github.com/askledger/receipts-sdk/schema/evidence-pack-v1.jsonld";
  kind = codes "EvidencePack";
  meta = meta;
  trusted_keys = keys;
  merkle = merkle;
  receipts = rs;
  verification_instructions = recipe;
}

module _ (p : Platform) where
  unfoldable pub pack_hash_of : Contents → Throws Text
  pack_hash_of c = do b ← canonicalize_bytes p (contents_json c); ok (sha256 p b)

  unfoldable pub build_evidence_pack :
      EvidencePackMeta → List SignedReceipt → List KeyRecord → Text → Throws EvidencePack
  build_evidence_pack meta [] keys recipe = err empty_pack
  build_evidence_pack meta (r ∷ rs) keys recipe = do
    merkle ← build_batch p (r ∷ rs)
    let contents = core_pack meta (r ∷ rs) keys recipe merkle
    hash ← pack_hash_of contents
    ok (record { contents = contents; receipts_count = length (r ∷ rs); pack_hash = hash })

  unfoldable pub verify_pack_integrity : EvidencePack → Throws Bool
  verify_pack_integrity pack = do
    hash ← pack_hash_of pack.contents
    ok (text_eq hash pack.pack_hash)

  unfoldable pub join_at : Number → Bytes → Bytes → Bytes
  unfolding even_index
  join_at idx h sib = if even_index idx then hash_node p h sib else hash_node p sib h

  -- The receipts that do not verify under the caller's keys.
  unfoldable pub unverified : Map Text → List SignedReceipt → List SignedReceipt
  unverified keys [] = []
  unverified keys (r ∷ rs) =
      let more = unverified keys rs in
      if (verify_receipt p (envelope_of r)
        (record { public_keys = keys; previous_receipt = none })).valid
      then more
      else r ∷ more

module _ (p : Platform) (q : Fractions) where
  -- The loop, with the size as fuel; `none` where the path is malformed. The index need not lie in
  -- the tree.
  unfoldable pub climb_pack : ℕ → Bytes → Number → ℕ → List Text → Option (Bytes × List Text)
  unfolding last_index half_index
  climb_pack zero h idx size path = none
  climb_pack (suc f) h idx size path = elim (leb size 1) [
    | true ↦ some (h, path)
    | false ↦ elim (last_index idx size && (size % 2 == 1)) [
      | true ↦ climb_pack f h (half_index q idx) ((size + 1) / 2) path
      | false ↦ elim (next_sibling path) [
        | none ↦ none
        | some (sib, rest) ↦
            climb_pack f (join_at p idx h sib) (half_index q idx) ((size + 1) / 2) rest
      ]
    ]
  ]

  -- The loop from a size that is any number. A size that is not an integer is not odd, and its
  -- ceiling is an integer, or it is infinite and the path runs out.
  from_ceil : Bytes → Number → Number → List Text → Option (Bytes × List Text)
  from_ceil h idx (nat n) path = climb_pack (suc n) h idx n path
  from_ceil h idx (neg n) path = some (h, path)
  from_ceil h idx (other t) path = none

  from_fraction : Bytes → Number → Number → Option (Bytes × List Text) → Option (Bytes × List Text)
  unfolding from_ceil half_index
  from_fraction h idx size none = none
  from_fraction h idx size (some (sib, rest)) =
      from_ceil (join_at p idx h sib) (half_index q idx) size rest

  unfoldable pub climb_all : Bytes → Number → Number → List Text → Option (Bytes × List Text)
  unfolding from_fraction
  climb_all h idx (nat n) path = climb_pack (suc n) h idx n path
  climb_all h idx (neg n) path = some (h, path)
  climb_all h idx (other t) path =
      if q.above_one t
      then from_fraction h idx (q.ceil_half t) (next_sibling path)
      else some (h, path)

  -- The body of the loop over the receipts: whether one is included.
  unfoldable pub is_included : MerkleBatch → Bytes → Option InclusionProof → Bool
  is_included merkle payload none = false
  is_included merkle payload (some i) =
      is_root merkle.root (climb_all (hash_leaf p payload) i.leaf_index i.tree_size i.audit_path)

  -- A receipt without a proof fails before its payload is read.
  inclusion_of : MerkleBatch → SignedReceipt → Option InclusionProof → Throws Bool
  unfolding is_included
  inclusion_of merkle r none = ok false
  inclusion_of merkle r (some i) = do
    b ← canonical_signing_payload p r.receipt
    ok (is_included merkle b (some i))

  unfoldable pub inclusion : MerkleBatch → SignedReceipt → Throws Bool
  unfolding inclusion_of
  inclusion merkle r = inclusion_of merkle r (get merkle.proofs r.receipt.receipt_id)

  unfoldable pub not_included_of : MerkleBatch → List SignedReceipt → Throws (List SignedReceipt)
  not_included_of merkle [] = ok []
  not_included_of merkle (r ∷ rs) = do
    included ← inclusion merkle r
    more ← not_included_of merkle rs
    ok (if included then more else r ∷ more)

  abbrev pub verify_all_receipts_in_pack : EvidencePack → Throws (List SignedReceipt)
  verify_all_receipts_in_pack pack = not_included_of pack.contents.merkle pack.contents.receipts

  unfoldable pub verify_with_keys : Map Text → EvidencePack → Throws PackVerification
  verify_with_keys keys pack = do
    hash_ok ← verify_pack_integrity p pack
    failed ← verify_all_receipts_in_pack pack
    ok (pack_verdict hash_ok (ids failed) (ids (unverified p keys pack.contents.receipts)))

  -- Without keys from outside the pack, nothing is verified.
  unfoldable pub verify_evidence_pack : Map Text → EvidencePack → Throws PackVerification
  unfolding verify_with_keys
  verify_evidence_pack [] pack = ok (record {
    valid = false;
    checks = record {
      pack_hash_matches = false;
      all_receipts_included = false;
      all_signatures_valid = false;
    };
    failed_inclusion = [];
    failed_signature = [];
    errors = no_external_keys ∷ [];
  })
  verify_evidence_pack (k ∷ keys) pack = verify_with_keys (k ∷ keys) pack
