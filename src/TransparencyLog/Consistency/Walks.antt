-- ===== src/TransparencyLog/Consistency/Walks.antt =====
-- The two loops of `verifyConsistency`: which nodes of the two trees they go through.
use receipts_sdk.Prelude.{
  ℕ, zero, suc, ◌+◌, ◌/◌, ◌%◌, ◌≤◌, ◌<◌, ◌≡◌, refl, sym, ap, ◌∙◌, ◌⊎◌, inl, inr, Bool-cases, Option,
  some, none, List, [], ◌∷◌, Bytes, All, length, get_elem?, ltb, ◌==◌, arith,
}
use receipts_sdk.Prelude.Hex.{IsDigest, to_hex, to_hex-injective}
use receipts_sdk.Crypto.{Platform, DigestLaws}
use receipts_sdk.Crypto.Collisions.{Collision}
use receipts_sdk.Merkle.{next_level}
use receipts_sdk.Merkle.Nodes.{hash_node, node_input}
use receipts_sdk.Merkle.Levels.{length-next_level, next_level-IsDigest, hash_node-IsDigest}
use receipts_sdk.Merkle.Digests.{root-IsDigest}
use receipts_sdk.Merkle.Paths.{InTree, level, higher, root_single}
use receipts_sdk.TransparencyLog.Auditor.{Hashes, both_up, new_up}
use receipts_sdk.TransparencyLog.Trees.Levels.{level_root, level_root-next_level}
use receipts_sdk.TransparencyLog.Consistency.Pairs.{HasPairs, pair_below}

-- Every hash has the form of a digest.
pub record AreDigests (h : Hashes) : Type 0 where
  pub old_digest : IsDigest h.old_hash
  pub new_digest : IsDigest h.new_hash
  pub node_digests : All IsDigest h.nodes

abbrev pub hashes : Bytes → Bytes → List Bytes → Hashes
hashes old new nodes = record { old_hash = old; new_hash = new; nodes = nodes }

module _ (p : Platform) where
  -- What the loop over the new tree alone hashes.
  pub data InNewUp : ℕ → Bytes → List Bytes → Bytes → Type 0 where
    new_joins :
        {last : ℕ} {new next : Bytes} {rest : List Bytes}
        → 1 ≤ last
        → InNewUp last new (next ∷ rest) (node_input new next)
    new_beyond :
        {last : ℕ} {new next : Bytes} {rest : List Bytes} {x : Bytes}
        → 1 ≤ last
        → InNewUp (last / 2) (hash_node p new next) rest x
        → InNewUp last new (next ∷ rest) x

  -- What the two loops hash.
  pub data InBothUp : ℕ → ℕ → Bytes → Bytes → List Bytes → Bytes → Type 0 where
    at_end :
        {node last : ℕ} {old new : Bytes} {nodes : List Bytes} {x : Bytes}
        → node ≡ 0
        → InNewUp last new nodes x
        → InBothUp node last old new nodes x
    right_old :
        {node last : ℕ} {old new next : Bytes} {rest : List Bytes}
        → node % 2 ≡ 1
        → InBothUp node last old new (next ∷ rest) (node_input next old)
    right_new :
        {node last : ℕ} {old new next : Bytes} {rest : List Bytes}
        → node % 2 ≡ 1
        → InBothUp node last old new (next ∷ rest) (node_input next new)
    right_beyond :
        {node last : ℕ} {old new next : Bytes} {rest : List Bytes} {x : Bytes}
        → node % 2 ≡ 1
        → InBothUp (node / 2) (last / 2) (hash_node p next old) (hash_node p next new) rest x
        → InBothUp node last old new (next ∷ rest) x
    left_new :
        {node last : ℕ} {old new next : Bytes} {rest : List Bytes}
        → node % 2 ≡ 0
        → 1 ≤ node
        → node < last
        → InBothUp node last old new (next ∷ rest) (node_input new next)
    left_beyond :
        {node last : ℕ} {old new next : Bytes} {rest : List Bytes} {x : Bytes}
        → node % 2 ≡ 0
        → 1 ≤ node
        → node < last
        → InBothUp (node / 2) (last / 2) old (hash_node p new next) rest x
        → InBothUp node last old new (next ∷ rest) x
    lone_beyond :
        {node last : ℕ} {old new : Bytes} {nodes : List Bytes} {x : Bytes}
        → node % 2 ≡ 0
        → 1 ≤ node
        → last ≤ node
        → InBothUp (node / 2) (last / 2) old new nodes x
        → InBothUp node last old new nodes x

  -- All of these have a property.
  abbrev pub Climbed : (Bytes → Type 0) → ℕ → ℕ → Bytes → Bytes → List Bytes → Type 0
  Climbed U node last old new nodes = (x : Bytes) → InBothUp node last old new nodes x → U x

  -- All that is hashed to build the tree over a level has a property.
  abbrev pub Covers : (Bytes → Type 0) → List Bytes → Type 0
  Covers U xs = (x : Bytes) → InTree p xs x → U x

  pub Covers-HasPairs : (U : Bytes → Type 0) (xs : List Bytes) → Covers U xs → HasPairs U xs
  Covers-HasPairs U xs built i a b even at_a at_b = built (node_input a b) (level i even at_a at_b)

  -- One round of the loop over the new tree alone.
  new_up_cases :
      (f last : ℕ) (old new : Bytes) (nodes : List Bytes) {out : Hashes}
      → new_up p (suc f) last (hashes old new nodes) ≡ some out
      → ((last ≡ 0) × (hashes old new nodes ≡ out))
        ⊎ ((1 ≤ last)
            × (next : Bytes) × (rest : List Bytes) × (nodes ≡ next ∷ rest)
            × (new_up p f (last / 2) (hashes old (hash_node p new next) rest) ≡ some out))
  unfolding new_up
  new_up_cases f last old new [] e = elim (Bool-cases (last == 0)) [
    | inl done ↦ inl (ground (arith, done), ground (arith, done, e))
    | inr more ↦ absurd (ground (arith, more, e))
  ]
  new_up_cases f last old new (next ∷ rest) e = elim (Bool-cases (last == 0)) [
    | inl done ↦ inl (ground (arith, done), ground (arith, done, e))
    | inr more ↦ inr (ground (arith, more), next, rest, refl, rw (new_up, more) at e)
  ]

  -- What a round of the loop over both trees does, by the parity of the node.
  pub data IsRound (f node last : ℕ) (old new : Bytes) (nodes : List Bytes)
      (out : Option (ℕ × Hashes)) : Type 0 where
    ended :
        node ≡ 0 → some (last, hashes old new nodes) ≡ out → IsRound f node last old new nodes out
    stuck : none ≡ out → IsRound f node last old new nodes out
    right :
        (next : Bytes) (rest : List Bytes)
        → node % 2 ≡ 1
        → nodes ≡ next ∷ rest
        → both_up p f
            (node / 2)
            (last / 2)
            (hashes (hash_node p next old) (hash_node p next new) rest)
          ≡ out
        → IsRound f node last old new nodes out
    left :
        (next : Bytes) (rest : List Bytes)
        → node % 2 ≡ 0
        → 1 ≤ node
        → node < last
        → nodes ≡ next ∷ rest
        → both_up p f (node / 2) (last / 2) (hashes old (hash_node p new next) rest) ≡ out
        → IsRound f node last old new nodes out
    lone :
        node % 2 ≡ 0
        → 1 ≤ node
        → last ≤ node
        → both_up p f (node / 2) (last / 2) (hashes old new nodes) ≡ out
        → IsRound f node last old new nodes out

  pub both_up-IsRound :
      (f node last : ℕ) (old new : Bytes) (nodes : List Bytes)
      → IsRound f node last old new nodes (both_up p (suc f) node last (hashes old new nodes))
  unfolding both_up
  both_up-IsRound f node last old new nodes = elim (Bool-cases (node == 0)) [
    | inl done ↦ ended (ground (arith, done)) (rw (both_up, done) refl)
    | inr more ↦ elim (Bool-cases (node % 2 == 1)) [
      | inl odd ↦
          elim nodes
            as (λ nodes.
              IsRound f node last old new nodes
                (both_up p (suc f) node last (hashes old new nodes))) [
                  | [] ↦ stuck (rw (both_up, more, odd) refl)
                  | next ∷ rest ↦
                      right next rest (ground (arith, odd)) refl (rw (both_up, more, odd) refl)
                ]
      | inr even ↦ elim (Bool-cases (ltb node last)) [
        | inl below ↦
            elim nodes
              as (λ nodes.
                IsRound f node last old new nodes
                  (both_up p (suc f) node last (hashes old new nodes))) [
                    | [] ↦ stuck (rw (both_up, more, even, below) refl)
                    | next ∷ rest ↦
                        left next rest (ground (arith, even)) (ground (arith, more))
                          (ground (arith, below)) refl (rw (both_up, more, even, below) refl)
                  ]
        | inr beyond ↦
            lone (ground (arith, even)) (ground (arith, more)) (ground (arith, beyond))
              (rw (both_up, more, even, beyond) refl)
      ]
    ]
  ]

  new_up-zero : (last : ℕ) (h : Hashes) {out : Hashes} → new_up p zero last h ≡ some out → ⊥
  unfolding new_up
  new_up-zero last h e = absurd (cc)

  pub both_up-zero : (node last : ℕ) (h : Hashes) → both_up p zero node last h ≡ none
  unfolding both_up
  both_up-zero node last h = refl

  -- A level of one node is its root.
  pub level_root_first : (xs : List Bytes) → length xs ≡ 1 → get_elem? xs 0 ≡ some (level_root p xs)
  level_root_first [] one = absurd (omega arith)
  level_root_first (x ∷ []) one = ap (λ x. some x) (sym (root_single p 1 (x ∷ []) (omega arith)))
  level_root_first (x ∷ y ∷ xs) one = absurd (omega arith)

  module _ (laws : DigestLaws p) where
    -- A hash that prints as the root of a level is that root.
    pub prints_root :
        (xs : List Bytes) (h : Bytes)
        → All IsDigest xs
        → 0 < length xs
        → IsDigest h
        → to_hex h ≡ to_hex (level_root p xs)
        → h ≡ level_root p xs
    prints_root xs h digests some_xs digest same =
        to_hex-injective h (level_root p xs) digest.bytes
          (root-IsDigest p laws (length xs) xs digests some_xs (omega arith)).bytes same

  module _ (U : Bytes → Type 0) (laws : DigestLaws p) where
    -- The last loop starts at the first node of its level.
    pub new_up-first :
        (f last : ℕ) (ys : List Bytes) (old new : Bytes) (nodes : List Bytes) (out : Hashes)
        → All IsDigest ys
        → Covers U ys
        → ((x : Bytes) → InNewUp last new nodes x → U x)
        → length ys ≡ last + 1
        → AreDigests (hashes old new nodes)
        → new_up p f last (hashes old new nodes) ≡ some out
        → to_hex out.new_hash ≡ to_hex (level_root p ys)
        → (old ≡ out.old_hash) × ((get_elem? ys 0 ≡ some new) ⊎ Collision p U U)
    new_up-first zero last ys old new nodes out digests built walked size sized e top =
        absurd (new_up-zero last (hashes old new nodes) e)
    new_up-first (suc f) last ys old new nodes out digests built walked size sized e top =
        elim (new_up_cases f last old new nodes e) [
          | inl (done, same) ↦ (
            ap (λ h. h.old_hash) same,
            inl (
                level_root_first ys (omega (arith, size, done))
                ∙ ap (λ x. some x)
                    (sym (
                      prints_root laws ys new digests (omega (arith, size)) sized.new_digest
                        (ap (λ h. to_hex h.new_hash) same ∙ top)))),
          )
          | inr (more, next, rest, is_next, up) ↦
              let sizes : All IsDigest (next ∷ rest) = rw is_next at sized.node_digests in
              let listed : (x : Bytes) → InNewUp last new (next ∷ rest) x → U x =
                rw is_next at walked in
              let (kept, above) =
                new_up-first f (last / 2) (next_level p ys) old (hash_node p new next) rest out
                  (next_level-IsDigest p laws ys digests) (λ x t. built x (higher t))
                  (λ x t. listed x (new_beyond more t))
                  (omega (arith, length-next_level p ys, size))
                  (record {
                    old_digest = sized.old_digest;
                    new_digest = hash_node-IsDigest p laws new next;
                    node_digests = sizes.1;
                  })
                  up (top ∙ ap to_hex (sym (level_root-next_level p ys))) in
              (
                kept,
                elim above [
                  | inl there ↦
                      elim (pair_below p U ys 0 new next digests (Covers-HasPairs U ys built)
                        (listed (node_input new next) (new_joins more)) (omega arith)
                        (omega (arith, size, more)) sized.new_digest.size sizes.0.size there) [
                          | inl (here, _) ↦ inl here
                          | inr hit ↦ inr hit
                        ]
                  | inr hit ↦ inr hit
                ],
              )
        ]
