-- ===== src/Merkle.antt =====
-- merkle.ts: batches of receipts under one root, and their inclusion proofs.
pub mod Nodes
pub mod Batches
pub mod Digests
pub mod Levels
pub mod Paths
pub mod Completeness
pub mod Soundness
mod Tests
use receipts_sdk.Prelude.{
  ℕ, zero, suc, ◌+◌, ◌-◌, ◌/◌, ◌%◌, Bool, true, false, ◌&&◌, Option, none, some, List, [], ◌∷◌, map,
  Bytes, Text, text_eq, length, get_elem?, ltb, leb, ◌==◌, if◌then◌else◌, ok, err, ◌>>=◌,
}
use receipts_sdk.Prelude.Hex.{to_hex, from_hex, lower}
use receipts_sdk.Prelude.Maps.{Map, put}
use receipts_sdk.Errors.{Throws, empty_batch}
use receipts_sdk.Types.{Number, nat, neg, other, SignedReceipt}
use receipts_sdk.Crypto.{Platform}
use receipts_sdk.Payload.{canonical_signing_payload}
use Nodes.{hash_leaf, hash_node}

pub record InclusionProof : Type 0 where
  pub leaf_index : Number
  pub tree_size : Number
  pub audit_path : List Text

pub record MerkleBatch : Type 0 where
  pub root : Text
  pub tree_size : ℕ
  pub proofs : Map InclusionProof

-- `levels[levels.length - 1][0]`; there is always such an entry.
abbrev pub first : List Bytes → Bytes
first [] = []
first (h ∷ _) = h

unfoldable pub top : List (List Bytes) → Bytes
top [] = []
top (level ∷ []) = first level
top (_ ∷ level ∷ more) = top (level ∷ more)

abbrev pub sibling_of : ℕ → ℕ
sibling_of idx = if idx % 2 == 0 then idx + 1 else idx - 1

abbrev pub push_sibling : Option Bytes → List Text → List Text
push_sibling none path = path
push_sibling (some h) path = to_hex h ∷ path

-- The loop over the levels below the root, from the leaf's index.
unfoldable pub audit_path : ℕ → List (List Bytes) → List Text
audit_path idx [] = []
audit_path idx (level ∷ []) = []
audit_path idx (level ∷ next ∷ more) =
    push_sibling (get_elem? level (sibling_of idx)) (audit_path (idx / 2) (next ∷ more))

-- The loop over the receipts; a later receipt with the same id replaces the proof.
unfoldable pub proofs_from :
    ℕ → ℕ → List (List Bytes) → List SignedReceipt → Map InclusionProof → Map InclusionProof
proofs_from i size levels [] proofs = proofs
proofs_from i size levels (r ∷ rs) proofs = proofs_from (i + 1) size levels rs (
    put proofs r.receipt.receipt_id
      (record { leaf_index = nat i; tree_size = nat size; audit_path = audit_path i levels }))

-- The next entry of the path: 32 bytes, and the rest of the path.
abbrev pub sized : Bytes → List Text → Option (Bytes × List Text)
sized b rest = if length b == 32 then some (b, rest) else none

unfoldable pub next_sibling : List Text → Option (Bytes × List Text)
next_sibling [] = none
next_sibling (s ∷ rest) = sized (from_hex s) rest

-- The path is used up, and the hash reached is the trusted root.
abbrev pub is_root : Text → Option (Bytes × List Text) → Bool
is_root trusted none = false
is_root trusted (some (h, [])) = text_eq (to_hex h) (lower trusted)
is_root trusted (some (h, _ ∷ _)) = false

module _ (p : Platform) where
  -- An odd last node is promoted.
  unfoldable pub next_level : List Bytes → List Bytes
  next_level [] = []
  next_level (x ∷ []) = x ∷ []
  next_level (x ∷ y ∷ r) = hash_node p x y ∷ next_level r

  -- The levels from the leaves to the root; the number of leaves is fuel enough.
  unfoldable pub levels_from : ℕ → List Bytes → List (List Bytes)
  levels_from zero cur = cur ∷ []
  levels_from (suc f) cur =
      let rest = levels_from f (next_level cur) in
      if ltb 1 (length cur) then cur ∷ rest else cur ∷ []

  unfoldable pub payloads : List SignedReceipt → Throws (List Bytes)
  payloads [] = ok []
  payloads (r ∷ rs) = do b ← canonical_signing_payload p r.receipt; bs ← payloads rs; ok (b ∷ bs)

  unfoldable pub batch_of : List SignedReceipt → List Bytes → MerkleBatch
  batch_of rs leaves =
      let levels = levels_from (length leaves) leaves in
      record {
        root = to_hex (top levels);
        tree_size = length leaves;
        proofs = proofs_from 0 (length leaves) levels rs [];
      }

  unfoldable pub build_batch : List SignedReceipt → Throws MerkleBatch
  unfolding batch_of
  build_batch [] = err empty_batch
  build_batch (r ∷ rs) = do bs ← payloads (r ∷ rs); ok (batch_of (r ∷ rs) (map (hash_leaf p) bs))

  unfoldable pub join : ℕ → Bytes → Bytes → Bytes
  join idx h sib = if idx % 2 == 0 then hash_node p h sib else hash_node p sib h

  -- The loop of `verifyInclusion`: the root that it reaches and the entries of the path left.
  unfoldable pub climb : ℕ → Bytes → ℕ → ℕ → List Text → Option (Bytes × List Text)
  climb zero h idx size path = none
  climb (suc f) h idx size path = elim (leb size 1) [
    | true ↦ some (h, path)
    | false ↦ elim ((idx == size - 1) && (size % 2 == 1)) [
      | true ↦ climb f h (idx / 2) ((size + 1) / 2) path
      | false ↦ elim (next_sibling path) [
        | none ↦ none
        | some (sib, rest) ↦ climb f (join idx h sib) (idx / 2) ((size + 1) / 2) rest
      ]
    ]
  ]

  -- Both numbers are integers with 0 ≤ index < size, or the answer is false.
  unfoldable pub check_proof : Bytes → Number → Number → List Text → Text → Bool
  check_proof leaf (nat i) (nat n) path trusted =
      if ltb i n then is_root trusted (climb (suc n) leaf i n path) else false
  check_proof leaf _ _ path trusted = false

  unfoldable pub verify_inclusion : SignedReceipt → InclusionProof → Text → Throws Bool
  unfolding check_proof
  verify_inclusion r proof trusted = do
    b ← canonical_signing_payload p r.receipt
    ok (check_proof (hash_leaf p b) proof.leaf_index proof.tree_size proof.audit_path trusted)
