-- ===== src/TransparencyLog/Consistency/Pairs.antt =====
-- What one level of a tree shows of the level below it.
use receipts_sdk.Prelude.{
  ℕ, zero, suc, ◌+◌, ◌/◌, ◌%◌, ◌≤◌, ◌<◌, ◌≡◌, refl, ap₂, ◌⊎◌, inl, inr, some, List, [], ◌∷◌, Bytes,
  All, All-get_elem?, length, take, get_elem?, get_elem?-some, arith,
}
use receipts_sdk.Prelude.Hex.{IsDigest}
use receipts_sdk.Crypto.{Platform}
use receipts_sdk.Crypto.Collisions.{Collision}
use receipts_sdk.Merkle.{next_level}
use receipts_sdk.Merkle.Nodes.{hash_node, hash_node_eq, node_input}
use receipts_sdk.Merkle.Levels.{next_level_pair, next_level_last}

-- What is hashed for the pairs of a level has a property.
abbrev pub HasPairs : (Bytes → Type 0) → List Bytes → Type 0
HasPairs U xs =
    (i : ℕ) (a b : Bytes)
    → i % 2 ≡ 0
    → get_elem? xs i ≡ some a
    → get_elem? xs (i + 1) ≡ some b
    → U (node_input a b)

tail-HasPairs :
    (U : Bytes → Type 0) (x x' : Bytes) (xs : List Bytes) → HasPairs U (x ∷ x' ∷ xs) → HasPairs U xs
tail-HasPairs U x x' xs has i a b even at_a at_b =
    let shift : suc (suc i) + 1 ≡ suc (suc (i + 1)) = omega arith in
    has (suc (suc i)) a b (omega (arith, even)) at_a (rw shift at_b)

module _ (p : Platform) (U : Bytes → Type 0) where
  -- Two nodes under the one that joins `a` and `b`.
  pub pair_below :
      (xs : List Bytes) (i : ℕ) (a b : Bytes)
      → All IsDigest xs
      → HasPairs U xs
      → U (node_input a b)
      → i % 2 ≡ 0
      → i + 1 < length xs
      → length a ≡ 32
      → length b ≡ 32
      → get_elem? (next_level p xs) (i / 2) ≡ some (hash_node p a b)
      → ((get_elem? xs i ≡ some a) × (get_elem? xs (i + 1) ≡ some b)) ⊎ Collision p U U
  pair_below xs i a b digests hashed joins even lt ha hb up =
      let (x, at_x) = get_elem?-some xs i (omega arith) in
      let (y, at_y) = get_elem?-some xs (i + 1) lt in
      let joined = next_level_pair p xs i even at_x at_y in
      elim (hash_node_eq p a b x y ha (All-get_elem? IsDigest xs i digests at_x).size hb
        (All-get_elem? IsDigest xs (i + 1) digests at_y).size (ground (arith, joined, up))) [
          | inl (same_a, same_b) ↦ inl (ground (arith, at_x, same_a), ground (arith, at_y, same_b))
          | inr hit ↦ inr (record {
            left = node_input a b;
            right = node_input x y;
            has_left = joins;
            has_right = hashed i x y even at_x at_y;
            collide = hit;
          })
        ]

  -- An odd last node is the one above it.
  pub single_below :
      (xs : List Bytes) (i : ℕ) (h : Bytes)
      → i % 2 ≡ 0
      → length xs ≡ i + 1
      → get_elem? (next_level p xs) (i / 2) ≡ some h
      → get_elem? xs i ≡ some h
  single_below xs i h even last up =
      let (x, here) = get_elem?-some xs i (omega arith) in
      ground (arith, next_level_last p xs i even last here)

  -- Levels that agree on `j` nodes join pairs that agree.
  pub pairs_below :
      (j : ℕ) (xs ys : List Bytes)
      → All IsDigest xs
      → All IsDigest ys
      → HasPairs U xs
      → HasPairs U ys
      → j + j ≤ length xs
      → j + j ≤ length ys
      → take j (next_level p xs) ≡ take j (next_level p ys)
      → (take (j + j) xs ≡ take (j + j) ys) ⊎ Collision p U U
  unfolding next_level
  pairs_below zero xs ys dx dy ux uy hx hy same = inl refl
  pairs_below (suc j) [] ys dx dy ux uy hx hy same = absurd (omega arith)
  pairs_below (suc j) (x ∷ []) ys dx dy ux uy hx hy same = absurd (omega arith)
  pairs_below (suc j) (x ∷ x' ∷ xs) [] dx dy ux uy hx hy same = absurd (omega arith)
  pairs_below (suc j) (x ∷ x' ∷ xs) (y ∷ []) dx dy ux uy hx hy same = absurd (omega arith)
  pairs_below (suc j) (x ∷ x' ∷ xs) (y ∷ y' ∷ ys) dx dy ux uy hx hy same =
      let tops : hash_node p x x' ≡ hash_node p y y' = cc in
      let rests : take j (next_level p xs) ≡ take j (next_level p ys) = cc in
      let two : suc j + suc j ≡ suc (suc (j + j)) = omega arith in
      elim (hash_node_eq p x x' y y' dx.0.size dy.0.size dx.1.0.size dy.1.0.size tops) [
        | inl (first, second) ↦
            elim (pairs_below j xs ys dx.1.1 dy.1.1 (tail-HasPairs U x x' xs ux)
              (tail-HasPairs U y y' ys uy) (omega arith) (omega arith) rests) [
                | inl below ↦
                    inl (rw two (ap₂ (λ a l. a ∷ l) first (ap₂ (λ a l. a ∷ l) second below)))
                | inr hit ↦ inr hit
              ]
        | inr hit ↦ inr (record {
          left = node_input x x';
          right = node_input y y';
          has_left = ux 0 x x' refl refl refl;
          has_right = uy 0 y y' refl refl refl;
          collide = hit;
        })
      ]
