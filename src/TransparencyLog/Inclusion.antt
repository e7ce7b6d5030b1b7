-- ===== src/TransparencyLog/Inclusion.antt =====
-- Inclusion proofs of log.ts: what an accepted one shows.
pub mod Complete
use mathlib.Core.Path.{subst}
use receipts_sdk.Prelude.{
  ℕ, zero, suc, ◌+◌, ◌-◌, ◌≤◌, ◌<◌, ◌≡◌, refl, sym, ap, ◌∙◌, ◌⊎◌, inl, inr, true, false, Bool-cases,
  Option, some, none, Option-cases, List, [], ◌∷◌, Bytes, Text, text_eq_iff, All, All-take,
  All-drop, length, take, drop, get_elem?, get_elem?-take, get_elem?-drop, get_elem?-some, ltb, leb,
  ◌==◌, if◌then◌else◌, arith,
}
use receipts_sdk.Prelude.Hex.{IsDigest, AreBytes, to_hex, lower, to_hex-injective, lower-to_hex}
use receipts_sdk.Types.{Number, nat, neg, other}
use receipts_sdk.Crypto.{Platform, DigestLaws}
use receipts_sdk.Crypto.Collisions.{Collision, Collision-map}
use receipts_sdk.Merkle.{is_root}
use receipts_sdk.Merkle.Nodes.{hash_node, node_input}
use receipts_sdk.Merkle.Soundness.{is_root-inversion}
use receipts_sdk.Merkle.Levels.{hash_node-IsDigest}
use receipts_sdk.TransparencyLog.{
  InclusionProof, split, root_from_leaves, next_node, with_sibling, climb, checked_climb,
  verify_inclusion,
}
use receipts_sdk.TransparencyLog.Decoding.{hex_to_bytes, hex_to_bytes-AreBytes}
use receipts_sdk.TransparencyLog.Trees.{
  InRoot, in_left, in_right, split_sizes, root_one, root_parts, root-IsDigest,
}

-- What a step with a sibling was made of.
pub with_sibling-inversion :
    (join : Bytes → Bytes → Bytes) (o : Option (Bytes × List Text)) {h : Bytes} {rest : List Text}
    → with_sibling join o ≡ some (h, rest)
    → (below : Bytes) × (path : List Text) × (sib : Bytes) × (o ≡ some (below, path))
      × (next_node path ≡ some (sib, rest))
      × (join below sib ≡ h)
with_sibling-inversion join none e = absurd (cc)
with_sibling-inversion join (some (below, path)) e = elim (Option-cases (next_node path)) [
  | inl missing ↦ absurd (ground (arith, missing, e))
  | inr ((sib, rest'), found) ↦
      (below, path, sib, refl, ground (arith, found, e), ground (arith, found, e))
]

next_node-length :
    (path : List Text) {sib : Bytes} {rest : List Text}
    → next_node path ≡ some (sib, rest)
    → length sib ≡ 32
unfolding next_node
next_node-length [] e = absurd (cc)
next_node-length (s ∷ rest) e = ground arith

module _ (p : Platform) (leaf : Bytes) where
  -- What the verifier hashes, with fuel `f`, from the leaf up a tree of `n` leaves.
  pub data InClimb : ℕ → ℕ → ℕ → List Text → Bytes → Type 0 where
    joins_right :
        {f n i : ℕ} {path more rest : List Text} {below sib : Bytes}
        → 1 < n
        → i < split n
        → climb p f leaf (split n) i path ≡ some (below, more)
        → next_node more ≡ some (sib, rest)
        → InClimb (suc f) n i path (node_input below sib)
    joins_left :
        {f n i : ℕ} {path more rest : List Text} {below sib : Bytes}
        → 1 < n
        → split n ≤ i
        → climb p f leaf (n - split n) (i - split n) path ≡ some (below, more)
        → next_node more ≡ some (sib, rest)
        → InClimb (suc f) n i path (node_input sib below)
    under_left :
        {f n i : ℕ} {path : List Text} {x : Bytes}
        → 1 < n
        → i < split n
        → InClimb f (split n) i path x
        → InClimb (suc f) n i path x
    under_right :
        {f n i : ℕ} {path : List Text} {x : Bytes}
        → 1 < n
        → split n ≤ i
        → InClimb f (n - split n) (i - split n) path x
        → InClimb (suc f) n i path x

-- What verifyInclusion hashes on its way up.
abbrev pub IsHashed : Platform → Text → InclusionProof → Bytes → Type 0
IsHashed p leaf_hash proof x =
    (i : ℕ) × (n : ℕ) × (proof.log_index ≡ nat i)
    × (proof.tree_size ≡ nat n)
    × InClimb p (hex_to_bytes leaf_hash) n n i proof.audit_path x

module _ (p : Platform) (laws : DigestLaws p) (leaf : Bytes) (sized : length leaf ≡ 32) where
  -- With its parts unfolded one step.
  climb_cases :
      (f n i : ℕ) (path : List Text) {h : Bytes} {rest : List Text}
      → 1 < n
      → climb p (suc f) leaf n i path ≡ some (h, rest)
      → ((i < split n)
          × (with_sibling (λ h sib. hash_node p h sib) (climb p f leaf (split n) i path)
              ≡ some (h, rest)))
        ⊎ ((split n ≤ i)
            × (with_sibling
                  (λ h sib. hash_node p sib h)
                  (climb p f leaf (n - split n) (i - split n) path)
                ≡ some (h, rest)))
  unfolding climb
  climb_cases f n i path many e =
      let here : leb n 1 ≡ false = ground arith in
      elim (Bool-cases (ltb i (split n))) [
        | inl left ↦ inl (ground (arith, left), rw (here, left) at e)
        | inr right ↦ inr (ground (arith, right), rw (here, right) at e)
      ]

  climb_one :
      (f n i : ℕ) (path : List Text) → n ≤ 1 → climb p (suc f) leaf n i path ≡ some (leaf, path)
  unfolding climb
  climb_one f n i path few = let here : leb n 1 ≡ true = ground arith in rw here refl

  climb-zero : (n i : ℕ) (path : List Text) → climb p zero leaf n i path ≡ none
  unfolding climb
  climb-zero n i path = refl

  climb-length :
      (f n i : ℕ) (path : List Text) {h : Bytes} {rest : List Text}
      → climb p f leaf n i path ≡ some (h, rest)
      → length h ≡ 32
  climb-length zero n i path e = absurd (ground (arith, climb-zero n i path, e))
  climb-length (suc f) n i path e = elim (Bool-cases (leb n 1)) [
    | inl few ↦ ground (arith, climb_one f n i path (ground (arith, few)), e)
    | inr many ↦ elim (climb_cases f n i path (ground (arith, many)) e) [
      | inl (lt, step) ↦
          let (below, more, sib, up, found, made) = with_sibling-inversion _ _ step in
          ap length (sym made) ∙ (hash_node-IsDigest p laws below sib).size
      | inr (le, step) ↦
          let (below, more, sib, up, found, made) = with_sibling-inversion _ _ step in
          ap length (sym made) ∙ (hash_node-IsDigest p laws sib below).size
    ]
  ]

  -- What a climb that reaches the root of the leaves `xs` shows of its leaf.
  abbrev IsSound : ℕ → Type 0
  IsSound f =
      (xs : List Bytes) (i : ℕ) (path rest : List Text)
      → All IsDigest xs
      → i < length xs
      → climb p f leaf (length xs) i path ≡ some (root_from_leaves p xs, rest)
      → (get_elem? xs i ≡ some leaf)
        ⊎ Collision p (InClimb p leaf f (length xs) i path) (InRoot p xs)

  module _ (f : ℕ) (ih : IsSound f) (xs : List Bytes) (i : ℕ) (path rest : List Text)
      (digests : All IsDigest xs) (lt : i < length xs) (many : 1 < length xs) where
    sound_left :
        i < split (length xs)
        → with_sibling (λ h sib. hash_node p h sib) (climb p f leaf (split (length xs)) i path)
          ≡ some (root_from_leaves p xs, rest)
        → (get_elem? xs i ≡ some leaf)
          ⊎ Collision p (InClimb p leaf (suc f) (length xs) i path) (InRoot p xs)
    sound_left left step =
        let k = split (length xs) in
        let (below, more, sib, up, found, made) = with_sibling-inversion _ _ step in
        let (size, _) = split_sizes xs many in
        elim (root_parts p laws xs below sib digests many (climb-length f k i path up)
          (next_node-length more found) made) [
            | inl same ↦
                elim (ih (take k xs) i path more (All-take IsDigest k xs digests)
                  (omega (arith, size, left)) (rw size (up ∙ ap (λ h. some (h, more)) same.0))) [
                    | inl here ↦ inl (sym (get_elem?-take k xs i left) ∙ here)
                    | inr hit ↦ inr (
                        Collision-map p (λ x b. under_left many left (rw size at b))
                          (λ x b. in_left many b) hit)
                  ]
            | inr hit ↦ inr (
                Collision-map p
                  (λ x same.
                    subst (InClimb p leaf (suc f) (length xs) i path) (sym same)
                      (joins_right many left up found))
                  (λ x b. b) hit)
          ]

    sound_right :
        split (length xs) ≤ i
        → with_sibling
            (λ h sib. hash_node p sib h)
            (climb p f leaf (length xs - split (length xs)) (i - split (length xs)) path)
          ≡ some (root_from_leaves p xs, rest)
        → (get_elem? xs i ≡ some leaf)
          ⊎ Collision p (InClimb p leaf (suc f) (length xs) i path) (InRoot p xs)
    sound_right right step =
        let k = split (length xs) in
        let (below, more, sib, up, found, made) = with_sibling-inversion _ _ step in
        let (_, size) = split_sizes xs many in
        elim (root_parts p laws xs sib below digests many (next_node-length more found)
          (climb-length f (length xs - k) (i - k) path up) made) [
            | inl same ↦
                elim (ih (drop k xs) (i - k) path more (All-drop IsDigest k xs digests)
                  (omega (arith, size, right, lt))
                  (rw size (up ∙ ap (λ h. some (h, more)) same.1))) [
                    | inl here ↦ inl (sym (get_elem?-drop k xs i right) ∙ here)
                    | inr hit ↦ inr (
                        Collision-map p (λ x b. under_right many right (rw size at b))
                          (λ x b. in_right many b) hit)
                  ]
            | inr hit ↦ inr (
                Collision-map p
                  (λ x same.
                    subst (InClimb p leaf (suc f) (length xs) i path) (sym same)
                      (joins_left many right up found))
                  (λ x b. b) hit)
          ]

  sound_single :
      (f : ℕ) (xs : List Bytes) (i : ℕ) (path rest : List Text)
      → i < length xs
      → length xs ≤ 1
      → climb p (suc f) leaf (length xs) i path ≡ some (root_from_leaves p xs, rest)
      → get_elem? xs i ≡ some leaf
  sound_single f [] i path rest lt one e = elim lt [ ]
  sound_single f (x ∷ []) zero path rest lt one e =
      ground (arith, root_one p x, climb_one f 1 0 path one)
  sound_single f (x ∷ []) (suc i) path rest lt one e = absurd (omega arith)
  sound_single f (x ∷ y ∷ xs) i path rest lt one e = absurd (omega arith)

  climb-IsSound : (f : ℕ) → IsSound f
  climb-IsSound zero xs i path rest digests lt e =
      absurd (ground (arith, climb-zero (length xs) i path))
  climb-IsSound (suc f) xs i path rest digests lt e = elim (Bool-cases (ltb 1 (length xs))) [
    | inl many ↦ elim (climb_cases f (length xs) i path (ground arith) e) [
      | inl (left, step) ↦
          sound_left f (climb-IsSound f) xs i path rest digests lt (ground arith) left step
      | inr (right, step) ↦
          sound_right f (climb-IsSound f) xs i path rest digests lt (ground arith) right step
    ]
    | inr one ↦ inl (sound_single f xs i path rest lt (ground arith) e)
  ]

  climb-AreBytes :
      AreBytes leaf
      → (f n i : ℕ) (path : List Text) {h : Bytes} {rest : List Text}
      → climb p f leaf n i path ≡ some (h, rest)
      → IsDigest h
  climb-AreBytes bytes zero n i path e = absurd (ground (arith, climb-zero n i path, e))
  climb-AreBytes bytes (suc f) n i path {h} e = elim (Bool-cases (leb n 1)) [
    | inl few ↦ record {
      size = climb-length (suc f) n i path e;
      bytes = subst AreBytes (ground (arith, climb_one f n i path (ground (arith, few)), e)) bytes;
    }
    | inr many ↦ elim (climb_cases f n i path (ground (arith, many)) e) [
      | inl (lt, step) ↦
          let (below, more, sib, up, found, made) = with_sibling-inversion _ _ step in
          subst IsDigest made (hash_node-IsDigest p laws below sib)
      | inr (le, step) ↦
          let (below, more, sib, up, found, made) = with_sibling-inversion _ _ step in
          subst IsDigest made (hash_node-IsDigest p laws sib below)
    ]
  ]

  checked_climb_sound :
      AreBytes leaf
      → (index : Number) (xs : List Bytes) (path : List Text) → All IsDigest xs
      → checked_climb p leaf index (nat (length xs)) path (to_hex (root_from_leaves p xs)) ≡ true
      → (i : ℕ) × (index ≡ nat i)
        × ((get_elem? xs i ≡ some leaf)
            ⊎ Collision p (InClimb p leaf (length xs) (length xs) i path) (InRoot p xs))
  checked_climb_sound bytes (nat i) xs path digests e = elim (Bool-cases (ltb i (length xs))) [
    | inl inside ↦
        let (h, reached, same) = is_root-inversion p laws _ _ (rw inside at e) in
        let r = root-IsDigest p laws xs digests in
        let h' = climb-AreBytes bytes (length xs) (length xs) i path reached in
        let top =
          to_hex-injective h (root_from_leaves p xs) h'.bytes r.bytes
            (same ∙ lower-to_hex _ r.bytes) in
        (
          i,
          refl,
          climb-IsSound (length xs) xs i path [] digests (ground arith)
              (reached ∙ ap (λ b. some (b, [])) top),
        )
    | inr outside ↦ absurd (ground arith)
  ]
  checked_climb_sound bytes (neg i) xs path digests e = absurd (cc)
  checked_climb_sound bytes (other t) xs path digests e = absurd (cc)

-- An inclusion proof that is accepted against the root of some leaves, for their number, has a
-- natural number for an index, and the leaf at that index is the one that was checked; or else two
-- byte strings have one SHA-256 digest, of which the one was hashed by the verifier on this proof and
-- the other to compute the root of the leaves.
pub log_inclusion_sound :
    (p : Platform) (laws : DigestLaws p) (leaves : List Bytes) (leaf_hash : Text)
    (proof : InclusionProof)
    → All IsDigest leaves
    → proof.tree_size ≡ nat (length leaves)
    → verify_inclusion p leaf_hash proof (to_hex (root_from_leaves p leaves)) ≡ true
    → (i : ℕ) × (proof.log_index ≡ nat i)
      × ((get_elem? leaves i ≡ some (hex_to_bytes leaf_hash))
          ⊎ Collision p (IsHashed p leaf_hash proof) (InRoot p leaves))
unfolding verify_inclusion
log_inclusion_sound p laws leaves leaf_hash proof digests size e =
    elim (Bool-cases (length (hex_to_bytes leaf_hash) == 32)) [
      | inl full ↦
          let (i, index, sound) =
            checked_climb_sound p laws (hex_to_bytes leaf_hash) (ground arith)
              (hex_to_bytes-AreBytes leaf_hash) proof.log_index leaves proof.audit_path digests
              (rw (full, size) at e) in
          elim sound [
            | inl here ↦ (i, index, inl here)
            | inr hit ↦ (
              i,
              index,
              inr (Collision-map p (λ x on. (i, length leaves, index, size, on)) (λ x b. b) hit),
            )
          ]
      | inr short ↦ absurd (ground arith)
    ]
