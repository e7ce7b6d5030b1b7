-- ===== src/Merkle/Digests.antt =====
-- The hashes on the way to the root are digests.
use mathlib.Core.Path.{subst}
use receipts_sdk.Prelude.{
  ℕ, zero, suc, ◌+◌, ◌/◌, ◌≤◌, ◌<◌, ◌≡◌, sym, ◌∙◌, inl, inr, Bool-cases, some, Option-cases, List,
  [], ◌∷◌, Bytes, Text, All, length, leb, arith,
}
use receipts_sdk.Prelude.Hex.{IsDigest}
use receipts_sdk.Crypto.{Platform, DigestLaws}
use receipts_sdk.Merkle.{first, climb, join, next_level, next_sibling}
use receipts_sdk.Merkle.Levels.{length-next_level, next_level-IsDigest, hash_node-IsDigest}
use receipts_sdk.Merkle.Paths.{
  IsPromoted-cases, root, root_single, root_step, climb-zero, climb_done, climb_promoted,
  climb_joined, climb_stuck,
}

module _ (p : Platform) (laws : DigestLaws p) where
  pub join-IsDigest : (i : ℕ) (h sib : Bytes) → IsDigest (join p i h sib)
  unfolding join
  join-IsDigest i h sib =
      ground (arith, hash_node-IsDigest p laws h sib, hash_node-IsDigest p laws sib h)

  first-IsDigest : (xs : List Bytes) → All IsDigest xs → 0 < length xs → IsDigest (first xs)
  first-IsDigest [] h lt = absurd (omega arith)
  first-IsDigest (x ∷ xs) h lt = h.0

  pub root-IsDigest :
      (g : ℕ) (xs : List Bytes)
      → All IsDigest xs
      → 0 < length xs
      → length xs ≤ suc g
      → IsDigest (root p g xs)
  root-IsDigest zero xs h lt fuel =
      subst IsDigest (sym (root_single p zero xs fuel)) (first-IsDigest xs h lt)
  root-IsDigest (suc g) xs h lt fuel = elim (Bool-cases (leb (length xs) 1)) [
    | inl one ↦
        subst IsDigest (sym (root_single p (suc g) xs (ground arith))) (first-IsDigest xs h lt)
    | inr many ↦
        let n = length-next_level p xs in
        subst IsDigest (sym (root_step p g xs (ground arith))) (
          root-IsDigest g (next_level p xs) (next_level-IsDigest p laws xs h) (ground (arith, n))
            (ground (arith, n)))
  ]

  pub climb-IsDigest :
      (f : ℕ) (h : Bytes) (i n : ℕ) (path : List Text) {h' : Bytes} {rest : List Text}
      → IsDigest h
      → climb p f h i n path ≡ some (h', rest)
      → IsDigest h'
  climb-IsDigest zero h i n path d e = absurd (ground (arith, climb-zero p h i n path))
  climb-IsDigest (suc f) h i n path d e = elim (Bool-cases (leb n 1)) [
    | inl one ↦ subst IsDigest (ground (arith, climb_done p f h i n path)) d
    | inr many ↦ elim (IsPromoted-cases i n) [
      | inl last ↦
          climb-IsDigest f h (i / 2) ((n + 1) / 2) path d
            (sym (climb_promoted p f h i n path (ground arith) last) ∙ e)
      | inr unpaired ↦ elim (Option-cases (next_sibling path)) [
        | inl missing ↦
            absurd (ground (arith, climb_stuck p f h i n path (ground arith) unpaired missing))
        | inr ((sib, more), found) ↦
            climb-IsDigest f (join p i h sib) (i / 2) ((n + 1) / 2) more (join-IsDigest i h sib)
              (sym (climb_joined p f h i n path (ground arith) unpaired found) ∙ e)
      ]
    ]
  ]
