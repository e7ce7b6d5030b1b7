-- ===== src/TransparencyLog/Consistency/Rounds.antt =====
-- `verifyConsistency`, from the seed up: the nodes that it goes through are those of the two trees.
use receipts_sdk.Prelude.{
  ℕ, zero, suc, ◌+◌, ◌/◌, ◌%◌, ◌≤◌, ◌<◌, ◌≡◌, refl, sym, ap, ◌∙◌, ◌⊎◌, inl, inr, Option, some, List,
  ◌∷◌, Bytes, All, length, take, take-suc-eq, get_elem?, arith,
}
use receipts_sdk.Prelude.Hex.{IsDigest, to_hex}
use receipts_sdk.Crypto.{Platform, DigestLaws}
use receipts_sdk.Crypto.Collisions.{Collision}
use receipts_sdk.Merkle.{next_level}
use receipts_sdk.Merkle.Paths.{higher}
use receipts_sdk.Merkle.Nodes.{hash_node, node_input}
use receipts_sdk.Merkle.Levels.{length-next_level, next_level-IsDigest, hash_node-IsDigest}
use receipts_sdk.TransparencyLog.Auditor.{Hashes, both_up, new_up, then_new_up}
use receipts_sdk.TransparencyLog.Trees.Levels.{level_root, level_root-next_level}
use receipts_sdk.TransparencyLog.Consistency.Pairs.{pair_below, single_below, pairs_below}
use receipts_sdk.TransparencyLog.Consistency.Walks.{
  Covers, Covers-HasPairs, Climbed, at_end, right_old, right_new, right_beyond, left_new,
  left_beyond, lone_beyond, AreDigests, hashes, IsRound, ended, stuck, right, left, lone,
  both_up-IsRound, both_up-zero, level_root_first, prints_root, new_up-first,
}

-- Two levels hold these nodes at an index, and agree below it.
pub record Agree (node : ℕ) (xs ys : List Bytes) (old new : Bytes) : Type 0 where
  pub old_at : get_elem? xs node ≡ some old
  pub new_at : get_elem? ys node ≡ some new
  pub below : take node xs ≡ take node ys

module _ (p : Platform) (U : Bytes → Type 0) (laws : DigestLaws p) where
  -- What the loops show, with fuel `f` for the first.
  abbrev IsSound : ℕ → Type 0
  IsSound f =
      (node last : ℕ) (xs ys : List Bytes) (old new : Bytes) (nodes : List Bytes) (out : Hashes)
      → All IsDigest xs
      → All IsDigest ys
      → Covers p U xs
      → Covers p U ys
      → Climbed p U node last old new nodes
      → length xs ≡ node + 1
      → length ys ≡ last + 1
      → node ≤ last
      → AreDigests (hashes old new nodes)
      → then_new_up p (both_up p f node last (hashes old new nodes)) ≡ some out
      → to_hex out.old_hash ≡ to_hex (level_root p xs)
      → to_hex out.new_hash ≡ to_hex (level_root p ys)
      → Agree node xs ys old new ⊎ Collision p U U

  module _ (f : ℕ) (ih : IsSound f) (node last : ℕ) (xs ys : List Bytes) (old new : Bytes)
      (nodes : List Bytes) (out : Hashes) (dx : All IsDigest xs) (dy : All IsDigest ys)
      (ux : Covers p U xs) (uy : Covers p U ys) (walked : Climbed p U node last old new nodes)
      (sx : length xs ≡ node + 1) (sy : length ys ≡ last + 1) (le : node ≤ last)
      (sized : AreDigests (hashes old new nodes))
      (top_x : to_hex out.old_hash ≡ to_hex (level_root p xs))
      (top_y : to_hex out.new_hash ≡ to_hex (level_root p ys)) where
    -- The claim one level up.
    above :
        1 ≤ node
        → (old' new' : Bytes) (nodes' : List Bytes) → AreDigests (hashes old' new' nodes')
        → Climbed p U (node / 2) (last / 2) old' new' nodes'
        → then_new_up p (both_up p f (node / 2) (last / 2) (hashes old' new' nodes')) ≡ some out
        → Agree (node / 2) (next_level p xs) (next_level p ys) old' new' ⊎ Collision p U U
    above many old' new' nodes' sized' walked' e =
        ih (node / 2) (last / 2) (next_level p xs) (next_level p ys) old' new' nodes' out
          (next_level-IsDigest p laws xs dx) (next_level-IsDigest p laws ys dy)
          (λ x t. ux x (higher t)) (λ x t. uy x (higher t)) walked'
          (omega (arith, length-next_level p xs, sx)) (omega (arith, length-next_level p ys, sy))
          (omega (arith, le)) sized' e (top_x ∙ ap to_hex (sym (level_root-next_level p xs)))
          (top_y ∙ ap to_hex (sym (level_root-next_level p ys)))

    -- At the first node, the old tree is done.
    at_first :
        node ≡ 0
        → new_up p (suc last) last (hashes old new nodes) ≡ some out
        → Agree node xs ys old new ⊎ Collision p U U
    at_first first e =
        let (kept, there) =
          new_up-first p U laws (suc last) last ys old new nodes out dy uy
            (λ x t. walked x (at_end first t)) sy sized e top_y in
        elim there [
          | inl here ↦ inl (
              rw first (record {
                old_at =
                    level_root_first p xs (omega (arith, sx, first))
                    ∙ ap (λ x. some x)
                        (sym (
                          prints_root p laws xs old dx (omega (arith, sx)) sized.old_digest
                            (ap to_hex kept ∙ top_x)));
                new_at = here;
                below = refl;
              }))
          | inr hit ↦ inr hit
        ]

    at_left :
        (next : Bytes) (rest : List Bytes)
        → node % 2 ≡ 0
        → 1 ≤ node
        → node < last
        → length next ≡ 32
        → U (node_input new next)
        → Agree (node / 2) (next_level p xs) (next_level p ys) old (hash_node p new next)
        → Agree node xs ys old new ⊎ Collision p U U
    at_left next rest even many lt ns joins up =
        let two : node / 2 + node / 2 ≡ node = omega (arith, even) in
        elim (pair_below p U ys node new next dy (Covers-HasPairs p U ys uy) joins even
          (omega (arith, sy, lt)) sized.new_digest.size ns up.new_at) [
            | inl (here, _) ↦
                elim (pairs_below p U (node / 2) xs ys dx dy (Covers-HasPairs p U xs ux)
                  (Covers-HasPairs p U ys uy) (omega (arith, sx)) (omega (arith, sy, lt))
                  up.below) [
                    | inl same ↦ inl (record {
                      old_at = single_below p U xs node old even sx up.old_at;
                      new_at = here;
                      below = rw two at same;
                    })
                    | inr hit ↦ inr hit
                  ]
            | inr hit ↦ inr hit
          ]

    at_lone :
        node % 2 ≡ 0
        → 1 ≤ node
        → last ≤ node
        → Agree (node / 2) (next_level p xs) (next_level p ys) old new
        → Agree node xs ys old new ⊎ Collision p U U
    at_lone even many ge up =
        let two : node / 2 + node / 2 ≡ node = omega (arith, even) in
        elim (pairs_below p U (node / 2) xs ys dx dy (Covers-HasPairs p U xs ux)
          (Covers-HasPairs p U ys uy) (omega (arith, sx)) (omega (arith, sy, le)) up.below) [
            | inl same ↦ inl (record {
              old_at = single_below p U xs node old even sx up.old_at;
              new_at = single_below p U ys node new even (omega (arith, sy, ge, le)) up.new_at;
              below = rw two at same;
            })
            | inr hit ↦ inr hit
          ]

    at_right :
        (next : Bytes)
        → node % 2 ≡ 1
        → length next ≡ 32
        → U (node_input next old)
        → U (node_input next new)
        → Agree
            (node / 2)
            (next_level p xs)
            (next_level p ys)
            (hash_node p next old)
            (hash_node p next new)
        → Agree node xs ys old new ⊎ Collision p U U
    at_right next odd ns joins_old joins_new up =
        let i = node / 2 + node / 2 in
        let half : i / 2 ≡ node / 2 = omega (arith, odd) in
        let next_to : i + 1 ≡ node = omega (arith, odd) in
        let also : suc i ≡ node = omega (arith, odd) in
        elim (pair_below p U xs i next old dx (Covers-HasPairs p U xs ux) joins_old (omega arith)
          (omega (arith, sx, next_to)) ns sized.old_digest.size (rw half up.old_at)) [
            | inl (left_x, here_x) ↦
                elim (pair_below p U ys i next new dy (Covers-HasPairs p U ys uy) joins_new
                  (omega arith) (omega (arith, sy, le, next_to)) ns sized.new_digest.size
                  (rw half up.new_at)) [
                    | inl (left_y, here_y) ↦
                        elim (pairs_below p U (node / 2) xs ys dx dy (Covers-HasPairs p U xs ux)
                          (Covers-HasPairs p U ys uy) (omega (arith, sx)) (omega (arith, sy, le))
                          up.below) [
                            | inl same ↦ inl (record {
                              old_at = rw next_to at here_x;
                              new_at = rw next_to at here_y;
                              below = rw also at (take-suc-eq i xs ys same left_x left_y);
                            })
                            | inr hit ↦ inr hit
                          ]
                    | inr hit ↦ inr hit
                  ]
            | inr hit ↦ inr hit
          ]

    -- One round, with the claim one level up.
    at_round :
        {o : Option (ℕ × Hashes)}
        → IsRound p f node last old new nodes o
        → then_new_up p o ≡ some out
        → Agree node xs ys old new ⊎ Collision p U U
    at_round (ended first done) e = at_first first (ap (then_new_up p) done ∙ e)
    at_round (stuck none_left) e = absurd (ground (arith, ap (then_new_up p) none_left ∙ e))
    at_round (right next rest odd is_next up) e =
        let sizes : All IsDigest (next ∷ rest) = rw is_next at sized.node_digests in
        let steps : Climbed p U node last old new (next ∷ rest) = rw is_next at walked in
        elim (above (omega (arith, odd)) (hash_node p next old) (hash_node p next new) rest
          (record {
            old_digest = hash_node-IsDigest p laws next old;
            new_digest = hash_node-IsDigest p laws next new;
            node_digests = sizes.1;
          })
          (λ x t. steps x (right_beyond odd t)) (ap (then_new_up p) up ∙ e)) [
            | inl agree ↦
                at_right next odd sizes.0.size (steps _ (right_old odd)) (steps _ (right_new odd))
                  agree
            | inr hit ↦ inr hit
          ]
    at_round (left next rest even many lt is_next up) e =
        let sizes : All IsDigest (next ∷ rest) = rw is_next at sized.node_digests in
        let steps : Climbed p U node last old new (next ∷ rest) = rw is_next at walked in
        elim (above many old (hash_node p new next) rest
          (record {
            old_digest = sized.old_digest;
            new_digest = hash_node-IsDigest p laws new next;
            node_digests = sizes.1;
          })
          (λ x t. steps x (left_beyond even many lt t)) (ap (then_new_up p) up ∙ e)) [
            | inl agree ↦
                at_left next rest even many lt sizes.0.size (steps _ (left_new even many lt)) agree
            | inr hit ↦ inr hit
          ]
    at_round (lone even many ge up) e =
        elim (above many old new nodes sized (λ x t. walked x (lone_beyond even many ge t))
          (ap (then_new_up p) up ∙ e)) [
            | inl agree ↦ at_lone even many ge agree
            | inr hit ↦ inr hit
          ]

  pub both_up-IsSound : (f : ℕ) → IsSound f
  both_up-IsSound zero node last xs ys old new nodes out dx dy ux uy walked sx sy le sized e top_x
        top_y =
      absurd (
        ground
          (arith, ap (then_new_up p) (sym (both_up-zero p node last (hashes old new nodes))) ∙ e))
  both_up-IsSound (suc f) node last xs ys old new nodes out dx dy ux uy walked sx sy le sized e
        top_x top_y =
      at_round f (both_up-IsSound f) node last xs ys old new nodes out dx dy ux uy walked sx sy le
        sized top_x top_y (both_up-IsRound p f node last old new nodes) e
