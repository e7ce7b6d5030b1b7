-- ===== src/TransparencyLog/Trees/Levels.antt =====
-- The root of a list of leaves by levels, and by splitting.
use receipts_sdk.Prelude.{
  ℕ, zero, suc, ◌+◌, ◌≤◌, ◌<◌, ◌≡◌, refl, sym, ap, ap₂, ◌∙◌, inl, inr, Bool-cases, List, [], ◌∷◌,
  ◌++◌, Bytes, length, take, drop, take-append-drop, leb, arith,
}
use receipts_sdk.Crypto.{Platform}
use receipts_sdk.Merkle.{next_level, top, levels_from}
use receipts_sdk.Merkle.Nodes.{hash_node}
use receipts_sdk.Merkle.Levels.{length-next_level}
use receipts_sdk.Merkle.Paths.{root, root_single, root_step}
use receipts_sdk.TransparencyLog.{split, root_from_leaves}
use receipts_sdk.TransparencyLog.Trees.{doubled, split-IsSplit, split_sizes, root_split, root_one}

module _ (p : Platform) where
  -- The root by levels, with the number of leaves as fuel: that of a batch of merkle.ts.
  abbrev pub level_root : List Bytes → Bytes
  level_root xs = root p (length xs) xs

  level_fuel :
      (f g : ℕ) (xs : List Bytes)
      → length xs ≤ suc f
      → length xs ≤ suc g
      → root p f xs ≡ root p g xs
  level_fuel zero g xs hf hg = root_single p zero xs hf ∙ sym (root_single p g xs hf)
  level_fuel (suc f) zero xs hf hg = root_single p (suc f) xs hg ∙ sym (root_single p zero xs hg)
  level_fuel (suc f) (suc g) xs hf hg = elim (Bool-cases (leb (length xs) 1)) [
    | inl one ↦
        root_single p (suc f) xs (ground (arith, one))
        ∙ sym (root_single p (suc g) xs (ground (arith, one)))
    | inr many ↦
        let lt : 1 < length xs = ground (arith, many) in
        root_step p f xs lt
        ∙ level_fuel f g (next_level p xs) (omega (arith, length-next_level p xs))
            (omega (arith, length-next_level p xs))
        ∙ sym (root_step p g xs lt)
  ]

  -- One level up, the root stays.
  pub level_root-next_level : (xs : List Bytes) → level_root (next_level p xs) ≡ level_root xs
  unfolding next_level
  level_root-next_level [] = refl
  level_root-next_level (x ∷ []) = refl
  level_root-next_level (x ∷ y ∷ r) =
      level_fuel (length (next_level p (x ∷ y ∷ r))) (suc (length r)) (next_level p (x ∷ y ∷ r))
        (omega arith) (omega (arith, length-next_level p (x ∷ y ∷ r)))
      ∙ sym (root_step p (suc (length r)) (x ∷ y ∷ r) (omega arith))

  next_level-append :
      (j : ℕ) (xs ys : List Bytes)
      → length xs ≡ j + j
      → next_level p (xs ++ ys) ≡ next_level p xs ++ next_level p ys
  unfolding next_level
  next_level-append j [] ys even = refl
  next_level-append j (x ∷ []) ys even = absurd (omega arith)
  next_level-append zero (x ∷ y ∷ xs) ys even = absurd (omega arith)
  next_level-append (suc j) (x ∷ y ∷ xs) ys even =
      ap (λ l. hash_node p x y ∷ l) (next_level-append j xs ys (omega arith))

  level_root_two : (x y : Bytes) → level_root (x ∷ y ∷ []) ≡ hash_node p x y
  unfolding next_level levels_from top
  level_root_two x y = refl

  -- A full tree and one that is not larger, under one node.
  level_root-append :
      (j : ℕ) (xs ys : List Bytes)
      → length xs ≡ doubled j
      → 1 ≤ length ys
      → length ys ≤ doubled j
      → level_root (xs ++ ys) ≡ hash_node p (level_root xs) (level_root ys)
  level_root-append zero [] ys full some_ys fits = absurd (omega arith)
  level_root-append zero (x ∷ x' ∷ xs) ys full some_ys fits = absurd (omega arith)
  level_root-append zero (x ∷ []) [] full some_ys fits = absurd (omega arith)
  level_root-append zero (x ∷ []) (y ∷ y' ∷ ys) full some_ys fits = absurd (omega arith)
  level_root-append zero (x ∷ []) (y ∷ []) full some_ys fits =
      level_root_two x y
      ∙ sym (
          ap₂ (hash_node p) (root_single p 1 (x ∷ []) (omega arith))
            (root_single p 1 (y ∷ []) (omega arith)))
  level_root-append (suc j) xs ys full some_ys fits =
      sym (level_root-next_level (xs ++ ys))
      ∙ ap level_root (next_level-append (doubled j) xs ys full)
      ∙ level_root-append j (next_level p xs) (next_level p ys)
          (omega (arith, length-next_level p xs)) (omega (arith, length-next_level p ys))
          (omega (arith, length-next_level p ys))
      ∙ ap₂ (hash_node p) (level_root-next_level xs) (level_root-next_level ys)

  root_eq_below :
      (f : ℕ) (xs : List Bytes)
      → 1 ≤ length xs
      → length xs ≤ f
      → root_from_leaves p xs ≡ level_root xs
  root_eq_below f [] some_xs fuel = absurd (omega arith)
  root_eq_below f (x ∷ []) some_xs fuel =
      root_one p x ∙ sym (root_single p 1 (x ∷ []) (omega arith))
  root_eq_below zero (x ∷ y ∷ r) some_xs fuel = absurd (omega arith)
  root_eq_below (suc f) (x ∷ y ∷ r) some_xs fuel =
      let xs = x ∷ y ∷ r in
      let s = split-IsSplit (length xs) (omega arith) in
      let (left, right) = split_sizes xs (omega arith) in
      root_split p xs (omega arith)
      ∙ ap₂ (hash_node p)
          (root_eq_below f (take (split (length xs)) xs) (omega (arith, left, s.positive))
            (omega (arith, left, s.below)))
          (root_eq_below f (drop (split (length xs)) xs) (omega (arith, right, s.below))
            (omega (arith, right, s.positive)))
      ∙ sym (
          level_root-append s.exponent (take (split (length xs)) xs) (drop (split (length xs)) xs)
            (left ∙ s.power) (omega (arith, right, s.below))
            (omega (arith, right, s.half, s.power)))
      ∙ ap level_root (take-append-drop (split (length xs)) xs)

-- The log's tree over some leaves, which is split at the largest power of two below their number,
-- and the batch's tree over them, which is built by levels and promotes an odd last node, have the
-- same root.
pub root_from_leaves-eq-root :
    (p : Platform) (leaves : List Bytes)
    → 1 ≤ length leaves
    → root_from_leaves p leaves ≡ top (levels_from p (length leaves) leaves)
root_from_leaves-eq-root p leaves some_leaves =
    root_eq_below p (length leaves) leaves some_leaves (omega arith)
