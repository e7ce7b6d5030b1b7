-- ===== src/TransparencyLog/Consistency/Ascents.antt =====
-- `verifyConsistency`, below the seed: complete subtrees of the two trees agree.
use receipts_sdk.Prelude.{
  ℕ, zero, suc, ◌+◌, ◌/◌, ◌%◌, ◌≤◌, ◌≡◌, refl, sym, ap, ◌∙◌, ◌⊎◌, inl, inr, Bool-cases, Option,
  some, List, [], ◌∷◌, Bytes, All, length, take, take-suc-eq, ◌==◌, arith,
}
use receipts_sdk.Prelude.Hex.{IsDigest, to_hex}
use receipts_sdk.Crypto.{Platform, DigestLaws}
use receipts_sdk.Crypto.Collisions.{Collision}
use receipts_sdk.Merkle.{next_level}
use receipts_sdk.Merkle.Paths.{higher}
use receipts_sdk.Merkle.Levels.{length-next_level, next_level-IsDigest}
use receipts_sdk.TransparencyLog.Auditor.{Hashes, ascend, seeded, from_seed, then_new_up, both_up}
use receipts_sdk.TransparencyLog.Trees.Levels.{level_root, level_root-next_level}
use receipts_sdk.TransparencyLog.Consistency.Pairs.{pairs_below}
use receipts_sdk.TransparencyLog.Consistency.Walks.{
  Covers, Covers-HasPairs, AreDigests, hashes, InBothUp,
}
use receipts_sdk.TransparencyLog.Consistency.Rounds.{both_up-IsSound}

ascend_cases :
    (f node last : ℕ)
    → ((node % 2 ≡ 1) × (ascend (suc f) node last ≡ ascend f (node / 2) (last / 2)))
      ⊎ (ascend (suc f) node last ≡ (node, last))
unfolding ascend
ascend_cases f node last = elim (Bool-cases (node % 2 == 1)) [
  | inl odd ↦ inl (ground (arith, odd), rw (ascend, odd) refl)
  | inr even ↦ inr (rw (ascend, even) refl)
]

ascend-zero : (node last : ℕ) → ascend zero node last ≡ (node, last)
unfolding ascend
ascend-zero node last = refl

-- Two lists agree up to an index.
abbrev pub SamePrefix : ℕ → List Bytes → List Bytes → Type 0
SamePrefix node xs ys = take (suc node) xs ≡ take (suc node) ys

-- What the loops hash from the seed for a node.
abbrev pub InSeeded : Platform → Bytes → List Bytes → ℕ × ℕ → Bytes → Type 0
InSeeded p first_root nodes (node, last) x =
    (h : Hashes) × (seeded node first_root nodes ≡ some h)
    × InBothUp p node last h.old_hash h.new_hash h.nodes x

module _ (p : Platform) (U : Bytes → Type 0) (laws : DigestLaws p) (first_root : Bytes)
    (nodes : List Bytes) (out : Hashes) (root_digest : IsDigest first_root)
    (digests : All IsDigest nodes) where
  -- The rest of the check, from where the ascent ends.
  abbrev pub from : ℕ × ℕ → Option Hashes
  from (node, last) = from_seed p node last (seeded node first_root nodes)

  seeded_hash :
      (node last : ℕ)
      → from (node, last) ≡ some out
      → (seed : Bytes) × (rest : List Bytes) × AreDigests (hashes seed seed rest)
        × (seeded node first_root nodes ≡ some (hashes seed seed rest))
        × (then_new_up p (both_up p (suc node) node last (hashes seed seed rest)) ≡ some out)
  unfolding seeded
  seeded_hash zero last e = (
    first_root,
    nodes,
    record { old_digest = root_digest; new_digest = root_digest; node_digests = digests },
    refl,
    e,
  )
  seeded_hash (suc node) last e = from_nodes nodes digests e
    where
      from_nodes :
          (nodes : List Bytes)
          → All IsDigest nodes
          → from_seed p (suc node) last (seeded (suc node) first_root nodes) ≡ some out
          → (seed : Bytes) × (rest : List Bytes) × AreDigests (hashes seed seed rest)
            × (seeded (suc node) first_root nodes ≡ some (hashes seed seed rest))
            × (then_new_up p (both_up p (suc (suc node)) (suc node) last (hashes seed seed rest))
                ≡ some out)
      from_nodes [] all e = absurd (cc)
      from_nodes (seed ∷ rest) (one, all) e =
          (seed, rest, record { old_digest = one; new_digest = one; node_digests = all }, refl, e)

  module _ (node last : ℕ) (xs ys : List Bytes) (dx : All IsDigest xs) (dy : All IsDigest ys)
      (ux : Covers p U xs) (uy : Covers p U ys) (sx : length xs ≡ node + 1)
      (sy : length ys ≡ last + 1) (le : node ≤ last)
      (top_x : to_hex out.old_hash ≡ to_hex (level_root p xs))
      (top_y : to_hex out.new_hash ≡ to_hex (level_root p ys)) where
    seeded_agree :
        ((x : Bytes) → InSeeded p first_root nodes (node, last) x → U x)
        → from (node, last) ≡ some out
        → SamePrefix node xs ys ⊎ Collision p U U
    seeded_agree walked e =
        let (seed, rest, sized, is_seed, walk) = seeded_hash node last e in
        elim (both_up-IsSound p U laws (suc node) node last xs ys seed seed rest out dx dy ux uy
          (λ x t. walked x (hashes seed seed rest, is_seed, t)) sx sy le sized walk top_x top_y) [
            | inl agree ↦ inl (take-suc-eq node xs ys agree.below agree.old_at agree.new_at)
            | inr hit ↦ inr hit
          ]

    -- A right child and its sibling make the node above them.
    down :
        node % 2 ≡ 1
        → SamePrefix (node / 2) (next_level p xs) (next_level p ys)
        → SamePrefix node xs ys ⊎ Collision p U U
    down odd same =
        let j = suc (node / 2) in
        let two : j + j ≡ suc node = omega (arith, odd) in
        elim (pairs_below p U j xs ys dx dy (Covers-HasPairs p U xs ux) (Covers-HasPairs p U ys uy)
          (omega (arith, sx, two)) (omega (arith, sy, le, two)) same) [
            | inl below ↦ inl (rw two at below)
            | inr hit ↦ inr hit
          ]

  pub ascend_sound :
      (f node last : ℕ) (xs ys : List Bytes)
      → All IsDigest xs
      → All IsDigest ys
      → Covers p U xs
      → Covers p U ys
      → ((x : Bytes) → InSeeded p first_root nodes (ascend f node last) x → U x)
      → length xs ≡ node + 1
      → length ys ≡ last + 1
      → node ≤ last
      → to_hex out.old_hash ≡ to_hex (level_root p xs)
      → to_hex out.new_hash ≡ to_hex (level_root p ys)
      → from (ascend f node last) ≡ some out
      → SamePrefix node xs ys ⊎ Collision p U U
  ascend_sound zero node last xs ys dx dy ux uy walked sx sy le top_x top_y e =
      seeded_agree node last xs ys dx dy ux uy sx sy le top_x top_y
        (rw (ascend-zero node last) at walked) (ap from (sym (ascend-zero node last)) ∙ e)
  ascend_sound (suc f) node last xs ys dx dy ux uy walked sx sy le top_x top_y e =
      elim (ascend_cases f node last) [
        | inl (odd, up) ↦
            elim (ascend_sound f (node / 2) (last / 2) (next_level p xs) (next_level p ys)
              (next_level-IsDigest p laws xs dx) (next_level-IsDigest p laws ys dy)
              (λ x t. ux x (higher t)) (λ x t. uy x (higher t)) (rw up at walked)
              (omega (arith, length-next_level p xs, sx))
              (omega (arith, length-next_level p ys, sy)) (omega (arith, le))
              (top_x ∙ ap to_hex (sym (level_root-next_level p xs)))
              (top_y ∙ ap to_hex (sym (level_root-next_level p ys))) (ap from (sym up) ∙ e)) [
                | inl same ↦ down node last xs ys dx dy ux uy sx sy le top_x top_y odd same
                | inr hit ↦ inr hit
              ]
        | inr there ↦
            seeded_agree node last xs ys dx dy ux uy sx sy le top_x top_y (rw there at walked)
              (ap from (sym there) ∙ e)
      ]
