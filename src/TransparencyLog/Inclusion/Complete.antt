-- ===== src/TransparencyLog/Inclusion/Complete.antt =====
-- Inclusion proofs of log.ts: the proofs that the log gives are accepted.
use mathlib.Core.List.{append_assoc, append-nil}
use receipts_sdk.Prelude.{
  ℕ, zero, suc, ◌-◌, ◌≤◌, ◌<◌, ◌≡◌, refl, sym, ap, ◌∙◌, inl, inr, true, false, Bool-cases, some,
  List, [], ◌∷◌, ◌++◌, Bytes, Text, text_eq_iff, All, All-get_elem?, All-take, All-drop, length,
  take, drop, get_elem?, get_elem?-take, get_elem?-drop, get_elem?-lt, length-take, ltb, leb, ◌==◌,
  ◌||◌, ok, ok-injective, arith,
}
use receipts_sdk.Prelude.Hex.{IsDigest, AreBytes, to_hex, lower-to_hex}
use receipts_sdk.Types.{nat}
use receipts_sdk.Crypto.{Platform, DigestLaws}
use receipts_sdk.Merkle.Nodes.{hash_node}
use receipts_sdk.TransparencyLog.{
  TransparencyLog, InclusionProof, split, root_from_leaves, next_node, with_sibling, inclusion_path,
  climb, checked_climb, prove_inclusion, verify_inclusion,
}
use receipts_sdk.TransparencyLog.Decoding.{hex_to_bytes-to_hex}
use receipts_sdk.TransparencyLog.Trees.{
  split-IsSplit, split_sizes, root_one, root_split, root-IsDigest,
}

next_node-to_hex :
    (d : Bytes) (rest : List Text) → IsDigest d → next_node (to_hex d ∷ rest) ≡ some (d, rest)
unfolding next_node
next_node-to_hex d rest digest =
    let here : length d == 32 ≡ true = ground (arith, digest.size) in
    rw (hex_to_bytes-to_hex d digest.bytes, here) refl

with_sibling-to_hex :
    (join : Bytes → Bytes → Bytes) (h d : Bytes) (rest : List Text)
    → IsDigest d
    → with_sibling join (some (h, to_hex d ∷ rest)) ≡ some (join h d, rest)
with_sibling-to_hex join h d rest digest = ground (arith, next_node-to_hex d rest digest)

module _ (p : Platform) (laws : DigestLaws p) (leaf : Bytes) where
  climb_left :
      (f n i : ℕ) (path : List Text)
      → 1 < n
      → i < split n
      → climb p (suc f) leaf n i path
        ≡ with_sibling (λ h sib. hash_node p h sib) (climb p f leaf (split n) i path)
  unfolding climb
  climb_left f n i path many left =
      let here : leb n 1 ≡ false = ground arith in
      let there : ltb i (split n) ≡ true = ground arith in rw (here, there) refl

  climb_right :
      (f n i : ℕ) (path : List Text)
      → 1 < n
      → split n ≤ i
      → climb p (suc f) leaf n i path
        ≡ with_sibling
            (λ h sib. hash_node p sib h)
            (climb p f leaf (n - split n) (i - split n) path)
  unfolding climb
  climb_right f n i path many right =
      let here : leb n 1 ≡ false = ground arith in
      let there : ltb i (split n) ≡ false = ground arith in rw (here, there) refl

  path_left :
      (f : ℕ) (xs : List Bytes) (i : ℕ)
      → 1 < length xs
      → i < split (length xs)
      → inclusion_path p (suc f) xs i
        ≡ inclusion_path p f (take (split (length xs)) xs) i
          ++ to_hex (root_from_leaves p (drop (split (length xs)) xs)) ∷ []
  unfolding inclusion_path
  path_left f xs i many left =
      let here : leb (length xs) 1 ≡ false = ground arith in
      let there : ltb i (split (length xs)) ≡ true = ground arith in rw (here, there) refl

  path_right :
      (f : ℕ) (xs : List Bytes) (i : ℕ)
      → 1 < length xs
      → split (length xs) ≤ i
      → inclusion_path p (suc f) xs i
        ≡ inclusion_path p f (drop (split (length xs)) xs) (i - split (length xs))
          ++ to_hex (root_from_leaves p (take (split (length xs)) xs)) ∷ []
  unfolding inclusion_path
  path_right f xs i many right =
      let here : leb (length xs) 1 ≡ false = ground arith in
      let there : ltb i (split (length xs)) ≡ false = ground arith in rw (here, there) refl

  complete_single :
      (f : ℕ) (xs : List Bytes) (i : ℕ) (rest : List Text)
      → length xs ≤ 1
      → get_elem? xs i ≡ some leaf
      → climb p (suc f) leaf (length xs) i (inclusion_path p (suc f) xs i ++ rest)
        ≡ some (root_from_leaves p xs, rest)
  unfolding climb inclusion_path
  complete_single f [] i rest one found = absurd (cc)
  complete_single f (x ∷ []) zero rest one found = ground (arith, root_one p x)
  complete_single f (x ∷ []) (suc i) rest one found = absurd (cc)
  complete_single f (x ∷ y ∷ xs) i rest one found = absurd (omega arith)

  -- The log's path leads to the root and is used up.
  climb-inclusion_path :
      (f : ℕ) (xs : List Bytes) (i : ℕ) (rest : List Text)
      → All IsDigest xs
      → length xs ≤ f
      → get_elem? xs i ≡ some leaf
      → climb p f leaf (length xs) i (inclusion_path p f xs i ++ rest)
        ≡ some (root_from_leaves p xs, rest)
  climb-inclusion_path zero xs i rest digests fuel found =
      absurd (omega (arith, get_elem?-lt xs i found))
  climb-inclusion_path (suc f) xs i rest digests fuel found =
      elim (Bool-cases (leb (length xs) 1)) [
        | inl one ↦ complete_single f xs i rest (ground arith) found
        | inr more ↦
            let many : 1 < length xs = ground arith in
            let k = split (length xs) in
            let s = split-IsSplit (length xs) many in
            let (left_size, right_size) = split_sizes xs many in
            let first = root_from_leaves p (take k xs) in
            let second = root_from_leaves p (drop k xs) in
            elim (Bool-cases (ltb i k)) [
              | inl left ↦
                  let lt : i < k = ground arith in
                  let below =
                    climb-inclusion_path f (take k xs) i (to_hex second ∷ rest)
                      (All-take IsDigest k xs digests) (omega (arith, left_size, s.below))
                      (get_elem?-take k xs i lt ∙ found) in
                  let step : climb p f leaf k i (inclusion_path p (suc f) xs i ++ rest)
                      ≡ some (first, to_hex second ∷ rest) =
                    rw (path_left f xs i many lt, append_assoc) (rw left_size at below) in
                  climb_left f (length xs) i _ many lt
                  ∙ ap (with_sibling (λ h sib. hash_node p h sib)) step
                  ∙ with_sibling-to_hex (λ h sib. hash_node p h sib) first second rest
                      (root-IsDigest p laws (drop k xs) (All-drop IsDigest k xs digests))
                  ∙ ap (λ h. some (h, rest)) (sym (root_split p xs many))
              | inr right ↦
                  let le : k ≤ i = ground arith in
                  let below =
                    climb-inclusion_path f (drop k xs) (i - k) (to_hex first ∷ rest)
                      (All-drop IsDigest k xs digests) (omega (arith, right_size, s.positive))
                      (get_elem?-drop k xs i le ∙ found) in
                  let step : climb p f leaf (length xs - k) (i - k)
                        (inclusion_path p (suc f) xs i ++ rest)
                      ≡ some (second, to_hex first ∷ rest) =
                    rw (path_right f xs i many le, append_assoc) (rw right_size at below) in
                  climb_right f (length xs) i _ many le
                  ∙ ap (with_sibling (λ h sib. hash_node p sib h)) step
                  ∙ with_sibling-to_hex (λ h sib. hash_node p sib h) second first rest
                      (root-IsDigest p laws (take k xs) (All-take IsDigest k xs digests))
                  ∙ ap (λ h. some (h, rest)) (sym (root_split p xs many))
            ]
      ]

  checked_climb_complete :
      AreBytes leaf
      → (xs : List Bytes) (i : ℕ) → All IsDigest xs
      → get_elem? xs i ≡ some leaf
      → checked_climb p leaf
          (nat i)
          (nat (length xs))
          (inclusion_path p (length xs) xs i)
          (to_hex (root_from_leaves p xs))
        ≡ true
  checked_climb_complete bytes xs i digests found =
      let inside : ltb i (length xs) ≡ true = ground (arith, get_elem?-lt xs i found) in
      let r = root-IsDigest p laws xs digests in
      let up = climb-inclusion_path (length xs) xs i [] digests (omega arith) found in
      rw (inside, ← append-nil (inclusion_path p (length xs) xs i), up)
        ((text_eq_iff _ _).1 (sym (lower-to_hex (root_from_leaves p xs) r.bytes)))

-- A proof that the log, all of whose leaves are digests, gives for a leaf and a tree size is
-- accepted, for the hexadecimal form of that leaf, against the root of the first leaves of the log,
-- as many as that size.
pub prove_inclusion-verify_inclusion :
    (p : Platform)
    → DigestLaws p
    → (log : TransparencyLog) (i n : ℕ) (leaf : Bytes) (proof : InclusionProof)
    → All IsDigest log.leaf_hashes
    → get_elem? log.leaf_hashes i ≡ some leaf
    → prove_inclusion p log i n ≡ ok proof
    → verify_inclusion p (to_hex leaf) proof (to_hex (root_from_leaves p (take n log.leaf_hashes)))
      ≡ true
unfolding prove_inclusion verify_inclusion
prove_inclusion-verify_inclusion p laws log i n leaf proof digests found given =
    elim (Bool-cases (leb n i || ltb (length log.leaf_hashes) n)) [
      | inl refused ↦ absurd (ground arith)
      | inr granted ↦
          let inside : (i < n) × (n ≤ length log.leaf_hashes) = ground arith in
          let digest = All-get_elem? IsDigest log.leaf_hashes i digests found in
          let size : length (take n log.leaf_hashes) ≡ n =
            omega (arith, length-take n log.leaf_hashes, inside) in
          let here : length leaf == 32 ≡ true = ground (arith, digest.size) in
          let answer =
            checked_climb_complete p laws leaf digest.bytes (take n log.leaf_hashes) i
              (All-take IsDigest n log.leaf_hashes digests)
              (get_elem?-take n log.leaf_hashes i inside.0 ∙ found) in
          let made = ok-injective _ refl (rw granted at given) in
          rw (← made, hex_to_bytes-to_hex leaf digest.bytes, here) (rw size at answer)
    ]
