-- ===== src/TransparencyLog/Consistency.antt =====
-- `verifyConsistency` of log.ts: what an accepted proof shows of two lists of leaves.
pub mod Pairs
pub mod Walks
pub mod Rounds
pub mod Ascents
use receipts_sdk.Prelude.{
  ℕ, zero, suc, ◌+◌, ◌-◌, ◌≤◌, ◌<◌, ◌≡◌, refl, sym, ap, ◌∙◌, ◌⊎◌, inl, inr, true, false, Bool-cases,
  not, ◌&&◌, Option, some, none, List, [], ◌∷◌, map, Bytes, Text, text_eq, text_eq_iff, All, every,
  length, take, take_length, ltb, ◌==◌, if◌then◌else◌, arith,
}
use receipts_sdk.Prelude.Hex.{IsDigest, to_hex, lower, to_hex-injective, lower-to_hex}
use receipts_sdk.Crypto.{Platform, DigestLaws}
use receipts_sdk.Crypto.Collisions.{Collision, Collision-map}
use receipts_sdk.Merkle.Paths.{InTree}
use receipts_sdk.TransparencyLog.{root_from_leaves}
use receipts_sdk.TransparencyLog.Auditor.{
  Hashes, ascend, seeded, audited, are_roots, verify_consistency,
}
use receipts_sdk.TransparencyLog.Decoding.{hex_to_bytes, hex_to_bytes-to_hex, hex_to_bytes-AreBytes}
use receipts_sdk.TransparencyLog.Trees.{InRoot, root-IsDigest, root_injective}
use receipts_sdk.TransparencyLog.Trees.Levels.{level_root, root_from_leaves-eq-root}
use Walks.{Covers}
use Ascents.{InSeeded, ascend_sound}

nodes_digests :
    (proof : List Text)
    → every (λ h. length h == 32) (map hex_to_bytes proof) ≡ true
    → All IsDigest (map hex_to_bytes proof)
unfolding every
nodes_digests [] e = tt
nodes_digests (s ∷ proof) e = (
  record { size = ground (arith, e); bytes = hex_to_bytes-AreBytes s },
  nodes_digests proof (ground (arith, e)),
)

are_roots-inversion :
    (first_root second_root : Text) (o : Option Hashes)
    → are_roots first_root second_root o ≡ true
    → (out : Hashes) × (o ≡ some out)
      × (to_hex out.old_hash ≡ lower first_root)
      × (to_hex out.new_hash ≡ lower second_root)
are_roots-inversion first_root second_root none e = absurd (cc)
are_roots-inversion first_root second_root (some h) e =
    (h, refl, (text_eq_iff _ _).0 (ground (arith, e)), (text_eq_iff _ _).0 (ground (arith, e)))

-- What is hashed when the roots of two lists of leaves are computed, by the split of log.ts or level
-- by level, and by the loops of verifyConsistency on a proof for them.
pub data IsAuditInput (p : Platform) (old_leaves new_leaves : List Bytes) (proof : List Text)
    : Bytes → Type 0 where
  for_old_root : {x : Bytes} → InRoot p old_leaves x → IsAuditInput p old_leaves new_leaves proof x
  for_new_root : {x : Bytes} → InRoot p new_leaves x → IsAuditInput p old_leaves new_leaves proof x
  for_old_levels :
      {x : Bytes} → InTree p old_leaves x → IsAuditInput p old_leaves new_leaves proof x
  for_new_levels :
      {x : Bytes} → InTree p new_leaves x → IsAuditInput p old_leaves new_leaves proof x
  for_proof :
      {x : Bytes}
      → InSeeded p
          (root_from_leaves p old_leaves)
          (map hex_to_bytes proof)
          (ascend (length old_leaves) (length old_leaves - 1) (length new_leaves - 1))
          x
      → IsAuditInput p old_leaves new_leaves proof x

module _ (p : Platform) (laws : DigestLaws p) where
  audited_sound :
      (U : Bytes → Type 0) (xs ys : List Bytes) (first_root : Bytes) (nodes : List Bytes)
      (out : Hashes)
      → All IsDigest xs
      → All IsDigest ys
      → Covers p U xs
      → Covers p U ys
      → ((x : Bytes)
          → InSeeded p first_root nodes (ascend (length xs) (length xs - 1) (length ys - 1)) x
          → U x)
      → 1 ≤ length xs
      → length xs ≤ length ys
      → IsDigest first_root
      → All IsDigest nodes
      → audited p (length xs) (length ys) first_root nodes ≡ some out
      → to_hex out.old_hash ≡ to_hex (root_from_leaves p xs)
      → to_hex out.new_hash ≡ to_hex (root_from_leaves p ys)
      → (xs ≡ take (length xs) ys) ⊎ Collision p U U
  unfolding audited
  audited_sound U xs ys first_root nodes out dx dy ux uy walked some_xs le root_digest digests e
        top_x top_y =
      let m : suc (length xs - 1) ≡ length xs = omega (arith, some_xs) in
      elim (ascend_sound p U laws first_root nodes out root_digest digests (length xs)
        (length xs - 1) (length ys - 1) xs ys dx dy ux uy walked (omega (arith, some_xs))
        (omega (arith, some_xs, le)) (omega (arith, le))
        (top_x ∙ ap to_hex (root_from_leaves-eq-root p xs some_xs))
        (top_y ∙ ap to_hex (root_from_leaves-eq-root p ys (omega (arith, some_xs, le)))) e) [
          | inl same ↦ inl (sym (take_length xs) ∙ rw m at same)
          | inr hit ↦ inr hit
        ]

  accepted_sound :
      (xs ys : List Bytes) (proof : List Text)
      → All IsDigest xs
      → All IsDigest ys
      → 1 ≤ length xs
      → verify_consistency p
          (length xs)
          (to_hex (root_from_leaves p xs))
          (length ys)
          (to_hex (root_from_leaves p ys))
          proof
        ≡ true
      → (xs ≡ take (length xs) ys)
        ⊎ Collision p (IsAuditInput p xs ys proof) (IsAuditInput p xs ys proof)
  unfolding verify_consistency
  accepted_sound xs ys proof dx dy some_xs e =
      let rx = root-IsDigest p laws xs dx in
      let ry = root-IsDigest p laws ys dy in
      let back_x = hex_to_bytes-to_hex (root_from_leaves p xs) rx.bytes in
      let back_y = hex_to_bytes-to_hex (root_from_leaves p ys) ry.bytes in
      let size_x : (length (root_from_leaves p xs) == 32) ≡ true = ground (arith, rx.size) in
      let size_y : (length (root_from_leaves p ys) == 32) ≡ true = ground (arith, ry.size) in
      let positive : (length xs == 0) ≡ false = ground arith in
      elim (Bool-cases (ltb (length ys) (length xs))) [
        | inl larger ↦ absurd (ground (arith, rw larger at e))
        | inr fits ↦ elim (Bool-cases (length xs == length ys)) [
          | inl equal ↦
              let answer = rw (fits, back_x, back_y, size_x, size_y, equal) at e in
              let texts : to_hex (root_from_leaves p xs) ≡ to_hex (root_from_leaves p ys) =
                (text_eq_iff _ _).0 (ground (arith, answer)) in
              let size : length xs ≡ length ys = ground (arith, equal) in
              elim (root_injective p laws xs ys dx dy size
                (to_hex-injective _ _ rx.bytes ry.bytes texts)) [
                  | inl same ↦ inl (same ∙ sym (rw size (take_length ys)))
                  | inr hit ↦
                      inr (Collision-map p (λ b t. for_old_root t) (λ b t. for_new_root t) hit)
                ]
          | inr apart ↦ elim (Bool-cases (every (λ h. length h == 32) (map hex_to_bytes proof))) [
            | inl whole ↦
                let (out, walk, old_root, new_root) =
                  are_roots-inversion _ _ _
                    (rw (fits, back_x, back_y, size_x, size_y, apart, positive, whole) at e) in
                audited_sound (IsAuditInput p xs ys proof) xs ys (root_from_leaves p xs)
                  (map hex_to_bytes proof) out dx dy (λ b t. for_old_levels t)
                  (λ b t. for_new_levels t) (λ b t. for_proof t) some_xs (ground (arith, fits)) rx
                  (nodes_digests proof whole) walk (old_root ∙ lower-to_hex _ rx.bytes)
                  (new_root ∙ lower-to_hex _ ry.bytes)
            | inr short ↦ absurd (
                ground
                  (arith, rw (fits, back_x, back_y, size_x, size_y, apart, positive, short) at e))
          ]
        ]
      ]

-- A consistency proof that is accepted for the numbers and the roots of two lists of leaves shows
-- that the first list is where the second begins; or else two byte strings have one SHA-256 digest
-- that are both among those hashed for the trees of the two lists, by the split of the log or level by
-- level, or by the verifier on this proof.
pub log_consistency_sound :
    (p : Platform)
    → DigestLaws p
    → (old_leaves new_leaves : List Bytes) (proof : List Text) → All IsDigest old_leaves
    → All IsDigest new_leaves
    → verify_consistency p
        (length old_leaves)
        (to_hex (root_from_leaves p old_leaves))
        (length new_leaves)
        (to_hex (root_from_leaves p new_leaves))
        proof
      ≡ true
    → (old_leaves ≡ take (length old_leaves) new_leaves)
      ⊎ Collision p
          (IsAuditInput p old_leaves new_leaves proof)
          (IsAuditInput p old_leaves new_leaves proof)
log_consistency_sound p laws [] ys proof dx dy e = inl refl
log_consistency_sound p laws (x ∷ xs) ys proof dx dy e =
    accepted_sound p laws (x ∷ xs) ys proof dx dy (omega arith) e
