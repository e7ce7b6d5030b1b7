-- ===== src/TransparencyLog/Trees.antt =====
-- The tree of log.ts, split at the largest power of two below its size, and that of merkle.ts,
-- built level by level, have one root.
pub mod Levels
use mathlib.Core.Path.{subst}
use receipts_sdk.Prelude.{
  ℕ, zero, suc, ◌+◌, ◌-◌, ◌*◌, ◌/◌, ◌≤◌, ◌<◌, ◌≡◌, refl, sym, ap, ap₂, ◌∙◌, ◌⊎◌, inl, inr,
  Bool-cases, List, [], ◌∷◌, ◌++◌, Bytes, All, All-take, All-drop, length, take, drop, length-take,
  length-drop, take-append-drop, ltb, leb, arith,
}
use receipts_sdk.Prelude.Hex.{IsDigest}
use receipts_sdk.Crypto.{Platform, DigestLaws}
use receipts_sdk.Crypto.Collisions.{Collision, IsCollision, Collision-map}
use receipts_sdk.Merkle.Nodes.{hash_node, hash_node_eq, node_input}
use receipts_sdk.Merkle.Levels.{hash_node-IsDigest}
use receipts_sdk.TransparencyLog.{doubling, split, root_from, root_from_leaves}

-- 2 to a power
abbrev pub doubled : ℕ → ℕ
doubled zero = 1
doubled (suc j) = doubled j + doubled j

-- The size of a left subtree: a power of two below `n`, and at least half of it.
pub record IsSplit (n k : ℕ) : Type 0 where
  pub exponent : ℕ
  pub power : k ≡ doubled exponent
  pub positive : 1 ≤ k
  pub below : k < n
  pub half : n ≤ k + k

doubling-IsSplit :
    (f n k j : ℕ) → k ≡ doubled j → 1 ≤ k → k < n → n ≤ f + k → IsSplit n (doubling f n k)
unfolding doubling
doubling-IsSplit zero n k j power positive below fuel = absurd (omega arith)
doubling-IsSplit (suc f) n k j power positive below fuel = elim (Bool-cases (ltb (k * 2) n)) [
  | inl more ↦ rw more (
      doubling-IsSplit f n (k * 2) (suc j) (omega (arith, power)) (omega arith)
        (ground (arith, more)) (omega arith))
  | inr enough ↦ rw enough (record {
    exponent = j;
    power = power;
    positive = positive;
    below = below;
    half = ground (arith, enough);
  })
]

pub split-IsSplit : (n : ℕ) → 1 < n → IsSplit n (split n)
unfolding split
split-IsSplit n many = doubling-IsSplit n n 1 0 refl (omega arith) many (omega arith)

-- The sizes of the two parts.
pub split_sizes :
    (xs : List Bytes)
    → 1 < length xs
    → (length (take (split (length xs)) xs) ≡ split (length xs))
      × (length (drop (split (length xs)) xs) ≡ length xs - split (length xs))
split_sizes xs many =
    let s = split-IsSplit (length xs) many in
    (omega (arith, length-take (split (length xs)) xs, s.below), length-drop (split (length xs)) xs)

module _ (p : Platform) where
  -- Enough fuel is enough.
  pub root_fuel :
      (f g : ℕ) (xs : List Bytes)
      → length xs ≤ suc f
      → length xs ≤ suc g
      → root_from p f xs ≡ root_from p g xs
  unfolding root_from
  root_fuel f g [] hf hg = refl
  root_fuel f g (x ∷ []) hf hg = refl
  root_fuel zero g (x ∷ y ∷ r) hf hg = absurd (omega arith)
  root_fuel (suc f) zero (x ∷ y ∷ r) hf hg = absurd (omega arith)
  root_fuel (suc f) (suc g) (x ∷ y ∷ r) hf hg =
      let xs = x ∷ y ∷ r in
      let s = split-IsSplit (length xs) (omega arith) in
      let (left, right) = split_sizes xs (omega arith) in
      ap₂ (hash_node p)
        (root_fuel f g (take (split (length xs)) xs) (omega (arith, left, s.below))
          (omega (arith, left, s.below)))
        (root_fuel f g (drop (split (length xs)) xs) (omega (arith, right, s.positive))
          (omega (arith, right, s.positive)))

  pub root_one : (x : Bytes) → root_from_leaves p (x ∷ []) ≡ x
  unfolding root_from_leaves root_from
  root_one x = refl

  -- A tree of several leaves joins those of its two parts.
  pub root_split :
      (xs : List Bytes)
      → 1 < length xs
      → root_from_leaves p xs
        ≡ hash_node p
            (root_from_leaves p (take (split (length xs)) xs))
            (root_from_leaves p (drop (split (length xs)) xs))
  unfolding root_from_leaves root_from
  root_split [] many = absurd (omega arith)
  root_split (x ∷ []) many = absurd (omega arith)
  root_split (x ∷ y ∷ r) many =
      let xs = x ∷ y ∷ r in
      let s = split-IsSplit (length xs) (omega arith) in
      let (left, right) = split_sizes xs (omega arith) in
      ap₂ (hash_node p)
        (root_fuel (suc (length r)) (length (take (split (length xs)) xs))
          (take (split (length xs)) xs) (omega (arith, left, s.below)) (omega arith))
        (root_fuel (suc (length r)) (length (drop (split (length xs)) xs))
          (drop (split (length xs)) xs) (omega (arith, right, s.positive)) (omega arith))

  root_from-IsDigest :
      DigestLaws p
      → (f : ℕ) (xs : List Bytes) → All IsDigest xs
      → length xs ≤ suc f
      → IsDigest (root_from p f xs)
  unfolding root_from
  root_from-IsDigest laws f [] all fuel = laws.is_digest []
  root_from-IsDigest laws f (x ∷ []) all fuel = all.0
  root_from-IsDigest laws zero (x ∷ y ∷ r) all fuel = absurd (omega arith)
  root_from-IsDigest laws (suc f) (x ∷ y ∷ r) all fuel = hash_node-IsDigest p laws _ _

  pub root-IsDigest :
      DigestLaws p → (xs : List Bytes) → All IsDigest xs → IsDigest (root_from_leaves p xs)
  unfolding root_from_leaves
  root-IsDigest laws xs all = root_from-IsDigest laws (length xs) xs all (omega arith)

  -- What is hashed to compute the root of a list of leaves.
  pub data InRoot : List Bytes → Bytes → Type 0 where
    joined :
        {xs : List Bytes}
        → 1 < length xs
        → InRoot xs (
            node_input
              (root_from_leaves p (take (split (length xs)) xs))
              (root_from_leaves p (drop (split (length xs)) xs)))
    in_left :
        {xs : List Bytes} {x : Bytes}
        → 1 < length xs
        → InRoot (take (split (length xs)) xs) x
        → InRoot xs x
    in_right :
        {xs : List Bytes} {x : Bytes}
        → 1 < length xs
        → InRoot (drop (split (length xs)) xs) x
        → InRoot xs x

  -- Two hashes that join to the root are those of the two parts.
  pub root_parts :
      DigestLaws p
      → (xs : List Bytes) (a b : Bytes) → All IsDigest xs
      → 1 < length xs
      → length a ≡ 32
      → length b ≡ 32
      → hash_node p a b ≡ root_from_leaves p xs
      → ((a ≡ root_from_leaves p (take (split (length xs)) xs))
          × (b ≡ root_from_leaves p (drop (split (length xs)) xs)))
        ⊎ Collision p (λ x. x ≡ node_input a b) (InRoot xs)
  root_parts laws xs a b digests many ha hb e =
      let k = split (length xs) in
      elim (hash_node_eq p a b (root_from_leaves p (take k xs)) (root_from_leaves p (drop k xs)) ha
        (root-IsDigest laws (take k xs) (All-take IsDigest k xs digests)).size hb
        (root-IsDigest laws (drop k xs) (All-drop IsDigest k xs digests)).size
        (e ∙ root_split xs many)) [
          | inl both ↦ inl both
          | inr hit ↦ inr (record {
            left = node_input a b;
            right = node_input (root_from_leaves p (take k xs)) (root_from_leaves p (drop k xs));
            has_left = refl;
            has_right = joined many;
            collide = hit;
          })
        ]

  root_injective_below :
      DigestLaws p
      → (f : ℕ) (xs ys : List Bytes) → All IsDigest xs
      → All IsDigest ys
      → length xs ≡ length ys
      → length xs ≤ f
      → root_from_leaves p xs ≡ root_from_leaves p ys
      → (xs ≡ ys) ⊎ Collision p (InRoot xs) (InRoot ys)
  root_injective_below laws f [] [] dx dy size fuel e = inl refl
  root_injective_below laws f [] (y ∷ ys) dx dy size fuel e = absurd (omega (arith, size))
  root_injective_below laws f (x ∷ []) [] dx dy size fuel e = absurd (omega (arith, size))
  root_injective_below laws f (x ∷ []) (y ∷ []) dx dy size fuel e =
      inl (ap (λ x. x ∷ []) (sym (root_one x) ∙ e ∙ root_one y))
  root_injective_below laws f (x ∷ []) (y ∷ y' ∷ ys) dx dy size fuel e =
      absurd (omega (arith, size))
  root_injective_below laws zero (x ∷ x' ∷ r) ys dx dy size fuel e = absurd (omega arith)
  root_injective_below laws (suc f) (x ∷ x' ∷ r) ys dx dy size fuel e =
      let xs = x ∷ x' ∷ r in
      let k = split (length xs) in
      let many : 1 < length xs = omega arith in
      let many_y : 1 < length ys = omega (arith, size) in
      let s = split-IsSplit (length xs) many in
      let (xk, xd) = split_sizes xs many in
      let (yk, yd) = split_sizes ys (omega (arith, size)) in
      let yk' : length (take k ys) ≡ k = rw (← size) at yk in
      let yd' : length (drop k ys) ≡ length xs - k = rw (← size) at yd in
      let e' : hash_node p (root_from_leaves p (take k xs)) (root_from_leaves p (drop k xs))
          ≡ root_from_leaves p ys =
        sym (root_split xs many) ∙ e in
      let parts =
        root_parts laws ys (root_from_leaves p (take k xs)) (root_from_leaves p (drop k xs)) dy
          (omega (arith, size)) (root-IsDigest laws (take k xs) (All-take IsDigest k xs dx)).size
          (root-IsDigest laws (drop k xs) (All-drop IsDigest k xs dx)).size e' in
      elim parts [
        | inl (first, second) ↦
            elim (root_injective_below laws f (take k xs) (take k ys) (All-take IsDigest k xs dx)
              (All-take IsDigest k ys dy) (xk ∙ sym yk') (omega (arith, xk, s.below))
              (rw (← size) at first)) [
                | inl front ↦
                    elim (root_injective_below laws f (drop k xs) (drop k ys)
                      (All-drop IsDigest k xs dx) (All-drop IsDigest k ys dy) (xd ∙ sym yd')
                      (omega (arith, xd, s.positive)) (rw (← size) at second)) [
                        | inl back ↦ inl (
                            sym (take-append-drop k xs)
                            ∙ ap₂ (λ a b. a ++ b) front back
                            ∙ take-append-drop k ys)
                        | inr hit ↦ inr (
                            Collision-map p (λ x b. in_right many b)
                              (λ x b. in_right many_y (rw size at b)) hit)
                      ]
                | inr hit ↦ inr (
                    Collision-map p (λ x b. in_left many b) (λ x b. in_left many_y (rw size at b))
                      hit)
              ]
        | inr hit ↦
            inr (
              Collision-map p (λ x same. subst (InRoot xs) (sym same) (joined many)) (λ x b. b) hit)
      ]

  -- Two trees of one size and one root have the same leaves.
  pub root_injective :
      DigestLaws p
      → (xs ys : List Bytes) → All IsDigest xs
      → All IsDigest ys
      → length xs ≡ length ys
      → root_from_leaves p xs ≡ root_from_leaves p ys
      → (xs ≡ ys) ⊎ Collision p (InRoot xs) (InRoot ys)
  root_injective laws xs ys dx dy size e =
      root_injective_below laws (length xs) xs ys dx dy size (omega arith) e
