-- ===== src/TransparencyLog/Auditor.antt =====
-- `verifyConsistency` of transparency-log/log.ts: one tree is a prefix of another.
use receipts_sdk.Prelude.{
  ℕ, zero, suc, ◌-◌, ◌/◌, ◌%◌, Bool, true, false, not, ◌&&◌, Option, none, some, List, [], ◌∷◌, map,
  Bytes, Text, text_eq, length, ltb, ◌==◌, every, if◌then◌else◌,
}
use receipts_sdk.Prelude.Hex.{to_hex, lower}
use receipts_sdk.Crypto.{Platform}
use receipts_sdk.Merkle.Nodes.{hash_node}
use receipts_sdk.TransparencyLog.Decoding.{hex_to_bytes}

-- The two nodes and what is left of the proof.
pub record Hashes : Type 0 where
  pub old_hash : Bytes
  pub new_hash : Bytes
  pub nodes : List Bytes

-- While `node` is a right child, ascend; `node` is fuel enough.
unfoldable pub ascend : ℕ → ℕ → ℕ → ℕ × ℕ
ascend zero node last = (node, last)
ascend (suc f) node last = elim (node % 2 == 1) [
  | true ↦ ascend f (node / 2) (last / 2)
  | false ↦ (node, last)
]

-- The seed: the first root if `node` is 0, else the first entry of the proof.
unfoldable pub seeded : ℕ → Bytes → List Bytes → Option Hashes
seeded zero first_root nodes =
    some (record { old_hash = first_root; new_hash = first_root; nodes = nodes })
seeded (suc n) first_root [] = none
seeded (suc n) first_root (seed ∷ nodes) =
    some (record { old_hash = seed; new_hash = seed; nodes = nodes })

abbrev pub are_roots : Text → Text → Option Hashes → Bool
are_roots first_root second_root none = false
are_roots first_root second_root (some h) =
    (length h.nodes == 0)
    && text_eq (to_hex h.old_hash) (lower first_root)
    && text_eq (to_hex h.new_hash) (lower second_root)

module _ (p : Platform) where
  -- `while (node > 0)`: also the value of `lastNode` when it ends.
  unfoldable pub both_up : ℕ → ℕ → ℕ → Hashes → Option (ℕ × Hashes)
  both_up zero node last h = none
  both_up (suc f) node last h = elim (node == 0) [
    | true ↦ some (last, h)
    | false ↦ elim (node % 2 == 1) [
      | true ↦ elim h.nodes [
        | [] ↦ none
        | next ∷ rest ↦ both_up f (node / 2) (last / 2) (record {
          old_hash = hash_node p next h.old_hash;
          new_hash = hash_node p next h.new_hash;
          nodes = rest;
        })
      ]
      | false ↦ elim (ltb node last) [
        | true ↦ elim h.nodes [
          | [] ↦ none
          | next ∷ rest ↦
              both_up f (node / 2) (last / 2)
                (record h { new_hash = hash_node p h.new_hash next; nodes = rest })
        ]
        | false ↦ both_up f (node / 2) (last / 2) h
      ]
    ]
  ]

  -- `while (lastNode > 0)`
  unfoldable pub new_up : ℕ → ℕ → Hashes → Option Hashes
  new_up zero last h = none
  new_up (suc f) last h = elim (last == 0) [
    | true ↦ some h
    | false ↦ elim h.nodes [
      | [] ↦ none
      | next ∷ rest ↦
          new_up f (last / 2) (record h { new_hash = hash_node p h.new_hash next; nodes = rest })
    ]
  ]

  abbrev pub then_new_up : Option (ℕ × Hashes) → Option Hashes
  then_new_up none = none
  then_new_up (some (last, h)) = new_up (suc last) last h

  abbrev pub from_seed : ℕ → ℕ → Option Hashes → Option Hashes
  from_seed node last none = none
  from_seed node last (some h) = then_new_up (both_up (suc node) node last h)

  -- The roots that a proof leads to, from the first root.
  unfoldable pub audited : ℕ → ℕ → Bytes → List Bytes → Option Hashes
  unfolding seeded
  audited m n first_root nodes =
      let (node, last) = ascend m (m - 1) (n - 1) in
      from_seed node last (seeded node first_root nodes)

  unfoldable pub verify_consistency : ℕ → Text → ℕ → Text → List Text → Bool
  unfolding audited
  verify_consistency m first_root n second_root proof =
      let nodes = map hex_to_bytes proof in
      if ltb n m
      then false
      else if not
          ((length (hex_to_bytes first_root) == 32) && (length (hex_to_bytes second_root) == 32))
      then false
      else if m == n
      then (length proof == 0)
        && text_eq (to_hex (hex_to_bytes first_root)) (to_hex (hex_to_bytes second_root))
      else if m == 0
      then true
      else if every (λ h. length h == 32) nodes
      then are_roots first_root second_root (audited m n (hex_to_bytes first_root) nodes)
      else false
