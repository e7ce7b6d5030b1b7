-- ===== src/Merkle/Levels.antt =====
-- One level of the tree from the one below it.
use mathlib.Core.Path.{subst}
use receipts_sdk.Prelude.{
  ℕ, zero, suc, ◌+◌, ◌/◌, ◌%◌, ◌≡◌, some, List, [], ◌∷◌, Bytes, All, length, get_elem?, arith,
}
use receipts_sdk.Prelude.Hex.{IsDigest}
use receipts_sdk.Crypto.{Platform, DigestLaws}
use receipts_sdk.Merkle.{next_level}
use receipts_sdk.Merkle.Nodes.{hash_leaf, hash_node}

twice_suc : (k : ℕ) → suc k + suc k ≡ suc (suc (k + k))
twice_suc k = omega arith

module _ (p : Platform) where
  pub length-next_level : (xs : List Bytes) → length (next_level p xs) ≡ (length xs + 1) / 2
  unfolding next_level
  length-next_level [] = omega arith
  length-next_level (x ∷ []) = omega arith
  length-next_level (x ∷ y ∷ r) = omega (arith, length-next_level r)

  pair_at :
      (xs : List Bytes) (k : ℕ) {l r : Bytes}
      → get_elem? xs (k + k) ≡ some l
      → get_elem? xs (suc (k + k)) ≡ some r
      → get_elem? (next_level p xs) k ≡ some (hash_node p l r)
  unfolding next_level
  pair_at [] k el er = cc
  pair_at (x ∷ []) k el er = cc
  pair_at (x ∷ y ∷ xs) zero el er = ground arith
  pair_at (x ∷ y ∷ xs) (suc k) el er =
      let next = twice_suc k in pair_at xs k (rw next at el) (rw next at er)

  last_at :
      (xs : List Bytes) (k : ℕ) {l : Bytes}
      → length xs ≡ suc (k + k)
      → get_elem? xs (k + k) ≡ some l
      → get_elem? (next_level p xs) k ≡ some l
  unfolding next_level
  last_at [] k n el = cc
  last_at (x ∷ []) zero n el = el
  last_at (x ∷ []) (suc k) n el = absurd (omega arith)
  last_at (x ∷ y ∷ xs) zero n el = absurd (omega arith)
  last_at (x ∷ y ∷ xs) (suc k) n el = last_at xs k (omega arith) (rw twice_suc at el)

  -- Two siblings are joined.
  pub next_level_pair :
      (xs : List Bytes) (i : ℕ) {l r : Bytes}
      → i % 2 ≡ 0
      → get_elem? xs i ≡ some l
      → get_elem? xs (i + 1) ≡ some r
      → get_elem? (next_level p xs) (i / 2) ≡ some (hash_node p l r)
  unfolding next_level
  next_level_pair xs i {l} {r} even el er =
      pair_at xs (i / 2) (subst (λ k. get_elem? xs k ≡ some l) (omega arith) el)
        (subst (λ k. get_elem? xs k ≡ some r) (omega arith) er)

  -- The odd last node is promoted.
  pub next_level_last :
      (xs : List Bytes) (i : ℕ) {l : Bytes}
      → i % 2 ≡ 0
      → length xs ≡ i + 1
      → get_elem? xs i ≡ some l
      → get_elem? (next_level p xs) (i / 2) ≡ some l
  unfolding next_level
  next_level_last xs i {l} even n el =
      last_at xs (i / 2) (omega arith) (subst (λ k. get_elem? xs k ≡ some l) (omega arith) el)

  pub hash_node-IsDigest : DigestLaws p → (l r : Bytes) → IsDigest (hash_node p l r)
  unfolding hash_node
  hash_node-IsDigest laws l r = laws.is_digest _

  pub hash_leaf-IsDigest : DigestLaws p → (b : Bytes) → IsDigest (hash_leaf p b)
  unfolding hash_leaf
  hash_leaf-IsDigest laws b = laws.is_digest _

  pub next_level-IsDigest :
      DigestLaws p → (xs : List Bytes) → All IsDigest xs → All IsDigest (next_level p xs)
  unfolding next_level
  next_level-IsDigest laws [] h = tt
  next_level-IsDigest laws (x ∷ []) h = h
  next_level-IsDigest laws (x ∷ y ∷ r) h =
      (hash_node-IsDigest laws x y, next_level-IsDigest laws r h.1.1)
