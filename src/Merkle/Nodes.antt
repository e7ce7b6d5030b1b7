-- ===== src/Merkle/Nodes.antt =====
-- merkle.ts: the hashes of leaves and of inner nodes. transparency-log/log.ts repeats them.
use receipts_sdk.Prelude.{
  ◌≡◌, sym, ◌∙◌, ◌⊎◌, inl, inr, List, [], ◌∷◌, ◌++◌, Bytes, length, append-injective, arith,
}
use mathlib.Core.List.{append-nil}
use receipts_sdk.Crypto.{Platform}
use receipts_sdk.Crypto.Collisions.{IsCollision, digest_eq}

abbrev leaf_prefix : Bytes
leaf_prefix = 0 ∷ []

abbrev node_prefix : Bytes
node_prefix = 1 ∷ []

unfoldable pub concat : List Bytes → Bytes
concat [] = []
concat (a ∷ arrs) = a ++ concat arrs

-- What is hashed for a leaf, and for a node.
abbrev pub leaf_input : Bytes → Bytes
leaf_input payload = 0 ∷ (payload ++ [])

abbrev pub node_input : Bytes → Bytes → Bytes
node_input left right = (1 ∷ left) ++ (right ++ [])

module _ (p : Platform) where
  unfoldable pub hash_leaf : Bytes → Bytes
  unfolding concat
  hash_leaf payload = p.digest (concat (leaf_prefix ∷ payload ∷ []))

  unfoldable pub hash_node : Bytes → Bytes → Bytes
  unfolding concat
  hash_node left right = p.digest (concat (node_prefix ∷ left ∷ right ∷ []))

  -- A node determines its children, unless what is hashed for two nodes is a collision.
  pub hash_node_eq :
      (a b c d : Bytes)
      → length a ≡ 32
      → length c ≡ 32
      → length b ≡ 32
      → length d ≡ 32
      → hash_node a b ≡ hash_node c d
      → ((a ≡ c) × (b ≡ d)) ⊎ IsCollision p (node_input a b) (node_input c d)
  unfolding hash_node
  hash_node_eq a b c d ha hc hb hd e = elim (digest_eq p _ _ e) [
    | inl same ↦ inl (parts same)
    | inr hit ↦ inr hit
  ]
    where
      parts : (1 ∷ a) ++ (b ++ []) ≡ (1 ∷ c) ++ (d ++ []) → (a ≡ c) × (b ≡ d)
      parts same =
          let fronts : (1 ∷ a ≡ 1 ∷ c) × (b ++ [] ≡ d ++ []) =
            append-injective (1 ∷ a) (1 ∷ c) (omega arith) same in
          ((cc), (append-injective b d (omega arith) fronts.1).0)

  -- A leaf determines its payload, unless what is hashed for two leaves is a collision.
  pub hash_leaf_eq :
      (a b : Bytes)
      → hash_leaf a ≡ hash_leaf b
      → (a ≡ b) ⊎ IsCollision p (leaf_input a) (leaf_input b)
  unfolding hash_leaf
  hash_leaf_eq a b e = elim (digest_eq p _ _ e) [
    | inl same ↦ inl (payloads same)
    | inr hit ↦ inr hit
  ]
    where
      payloads : 0 ∷ (a ++ []) ≡ 0 ∷ (b ++ []) → a ≡ b
      payloads same = let bare : a ++ [] ≡ b ++ [] = cc in sym (append-nil a) ∙ bare ∙ append-nil b
