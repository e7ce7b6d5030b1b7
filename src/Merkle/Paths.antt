-- ===== src/Merkle/Paths.antt =====
-- One step of the walk from a leaf to the root, on the tree and in the verifier.
use mathlib.Core.Path.{subst}
use receipts_sdk.Prelude.{
  ℕ, zero, suc, ◌+◌, ◌-◌, ◌/◌, ◌%◌, ◌≤◌, ◌<◌, ◌≡◌, refl, ◌⊎◌, inl, inr, Bool-cases, some, none,
  List, [], ◌∷◌, Bytes, Text, length, get_elem?, get_elem?-some, ◌==◌, if◌then◌else◌, arith,
}
use receipts_sdk.Crypto.{Platform}
use receipts_sdk.Crypto.Collisions.{IsCollision}
use receipts_sdk.Merkle.{first, top, levels_from, next_level, climb, join, next_sibling, sibling_of}
use receipts_sdk.Merkle.Nodes.{hash_node, hash_node_eq, node_input}
use receipts_sdk.Merkle.Levels.{next_level_pair}

-- The node at `i` of a level of `n` has no sibling.
abbrev pub IsPromoted : ℕ → ℕ → Type 0
IsPromoted i n = (i ≡ n - 1) × (n % 2 ≡ 1)

module _ (p : Platform) where
  -- The root of the tree over a level.
  abbrev pub root : ℕ → List Bytes → Bytes
  root g xs = top (levels_from p g xs)

  pub root_single : (g : ℕ) (xs : List Bytes) → length xs ≤ 1 → root g xs ≡ first xs
  unfolding levels_from top
  root_single zero xs h = refl
  root_single (suc g) xs h = ground arith

  top_cons : (g : ℕ) (xs ys : List Bytes) → top (xs ∷ levels_from p g ys) ≡ root g ys
  unfolding levels_from top
  top_cons zero xs ys = refl
  top_cons (suc g) xs ys = ground arith

  pub root_step :
      (g : ℕ) (xs : List Bytes) → 1 < length xs → root (suc g) xs ≡ root g (next_level p xs)
  unfolding levels_from
  root_step g xs h = ground (arith, top_cons g xs (next_level p xs))

  -- What is hashed to join a node with its sibling.
  abbrev pub joint : ℕ → Bytes → Bytes → Bytes
  joint i h sib = if i % 2 == 0 then node_input h sib else node_input sib h

  -- What is hashed to build the tree over a level.
  pub data InTree : List Bytes → Bytes → Type 0 where
    level :
        {xs : List Bytes} (i : ℕ) {a b : Bytes}
        → i % 2 ≡ 0
        → get_elem? xs i ≡ some a
        → get_elem? xs (i + 1) ≡ some b
        → InTree xs (node_input a b)
    higher : {xs : List Bytes} {x : Bytes} → InTree (next_level p xs) x → InTree xs x

  -- What the verifier hashes on its way from the node `h` at `i` of a level of `n`.
  pub data InClimb : Bytes → ℕ → ℕ → List Text → Bytes → Type 0 where
    joins :
        {h : Bytes} {i n : ℕ} {path rest : List Text} {sib : Bytes}
        → 1 < n
        → ¬ IsPromoted i n
        → next_sibling path ≡ some (sib, rest)
        → InClimb h i n path (joint i h sib)
    beyond :
        {h : Bytes} {i n : ℕ} {path rest : List Text} {sib x : Bytes}
        → 1 < n
        → ¬ IsPromoted i n
        → next_sibling path ≡ some (sib, rest)
        → InClimb (join p i h sib) (i / 2) ((n + 1) / 2) rest x
        → InClimb h i n path x
    promotes :
        {h : Bytes} {i n : ℕ} {path : List Text} {x : Bytes}
        → 1 < n
        → IsPromoted i n
        → InClimb h (i / 2) ((n + 1) / 2) path x
        → InClimb h i n path x

  pub join_eq :
      (i : ℕ) (a b c d : Bytes)
      → length a ≡ 32
      → length b ≡ 32
      → length c ≡ 32
      → length d ≡ 32
      → join p i a b ≡ join p i c d
      → (a ≡ c) ⊎ IsCollision p (joint i a b) (joint i c d)
  unfolding join
  join_eq i a b c d ha hb hc hd e = elim (Bool-cases (i % 2 == 0)) [
    | inl even ↦ elim (hash_node_eq p a b c d ha hc hb hd (rw even at e)) [
      | inl both ↦ inl both.0
      | inr hit ↦ inr (rw even hit)
    ]
    | inr odd ↦ elim (hash_node_eq p b a d c hb hd ha hc (rw odd at e)) [
      | inl both ↦ inl both.1
      | inr hit ↦ inr (rw odd hit)
    ]
  ]

  pub joint-InTree :
      (xs : List Bytes) (i : ℕ) {x y : Bytes}
      → get_elem? xs i ≡ some x
      → get_elem? xs (sibling_of i) ≡ some y
      → InTree xs (joint i x y)
  joint-InTree xs i {x} {y} here there = elim (Bool-cases (i % 2 == 0)) [
    | inl even ↦ rw even (level i (ground (arith, even)) here (rw even at there))
    | inr odd ↦
        let back : i - 1 + 1 ≡ i = ground (arith, odd) in
        rw odd (level (i - 1) (ground (arith, odd)) (rw odd at there) (rw back here))
  ]

  -- A node that is not promoted has a sibling, and is joined with it in the next level.
  pub joined :
      (xs : List Bytes) (i : ℕ) {h : Bytes}
      → get_elem? xs i ≡ some h
      → i < length xs
      → ¬ IsPromoted i (length xs)
      → (sib : Bytes) × (get_elem? xs (sibling_of i) ≡ some sib)
        × (get_elem? (next_level p xs) (i / 2) ≡ some (join p i h sib))
  unfolding join
  joined xs i {h} at lt unpaired = elim (Bool-cases (i % 2 == 0)) [
    | inl even ↦
        let (r, found) = get_elem?-some xs (i + 1) (ground arith) in
        (r, ground arith, ground (arith, next_level_pair p xs i (ground arith) at found))
    | inr odd ↦
        let (l, found) = get_elem?-some xs (i - 1) (omega arith) in
        let here : get_elem? xs (i - 1 + 1) ≡ some h =
          subst (λ k. get_elem? xs k ≡ some h) (ground arith) at in
        let up : get_elem? (next_level p xs) (i / 2) ≡ some (hash_node p l h) =
          subst (λ k. get_elem? (next_level p xs) k ≡ some (hash_node p l h)) (ground arith)
            (next_level_pair p xs (i - 1) (ground arith) found here) in
        (l, ground arith, ground arith)
  ]

  -- The verifier at a level of one node, at a promoted node, and at a node with a sibling.
  pub climb-zero : (h : Bytes) (i n : ℕ) (path : List Text) → climb p zero h i n path ≡ none
  unfolding climb
  climb-zero h i n path = refl

  pub climb_done :
      (f : ℕ) (h : Bytes) (i n : ℕ) (path : List Text)
      → n ≤ 1
      → climb p (suc f) h i n path ≡ some (h, path)
  unfolding climb
  climb_done f h i n path le = ground arith

  pub climb_promoted :
      (f : ℕ) (h : Bytes) (i n : ℕ) (path : List Text)
      → 1 < n
      → IsPromoted i n
      → climb p (suc f) h i n path ≡ climb p f h (i / 2) ((n + 1) / 2) path
  unfolding climb
  climb_promoted f h i n path lt last = ground arith

  pub climb_joined :
      (f : ℕ) (h : Bytes) (i n : ℕ) (path : List Text) {sib : Bytes} {rest : List Text}
      → 1 < n
      → ¬ IsPromoted i n
      → next_sibling path ≡ some (sib, rest)
      → climb p (suc f) h i n path ≡ climb p f (join p i h sib) (i / 2) ((n + 1) / 2) rest
  unfolding climb
  climb_joined f h i n path lt unpaired e = ground arith

  pub climb_stuck :
      (f : ℕ) (h : Bytes) (i n : ℕ) (path : List Text)
      → 1 < n
      → ¬ IsPromoted i n
      → next_sibling path ≡ none
      → climb p (suc f) h i n path ≡ none
  unfolding climb
  climb_stuck f h i n path lt unpaired e = ground arith

pub get_elem?-first :
    (xs : List Bytes) (i : ℕ) → length xs ≤ 1 → i < length xs → get_elem? xs i ≡ some (first xs)
get_elem?-first [] i one lt = absurd (omega arith)
get_elem?-first (x ∷ xs) zero one lt = refl
get_elem?-first (x ∷ xs) (suc i) one lt = absurd (omega arith)

pub next_sibling-length :
    (path : List Text) {sib : Bytes} {rest : List Text}
    → next_sibling path ≡ some (sib, rest)
    → length sib ≡ 32
unfolding next_sibling
next_sibling-length [] e = cc
next_sibling-length (s ∷ rest) e = ground arith

pub IsPromoted-cases : (i n : ℕ) → IsPromoted i n ⊎ ¬ IsPromoted i n
IsPromoted-cases i n = ground arith
