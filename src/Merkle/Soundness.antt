-- ===== src/Merkle/Soundness.antt =====
-- What an accepted inclusion proof shows.
use mathlib.Core.Path.{subst}
use receipts_sdk.Prelude.{
  ℕ, zero, suc, ◌+◌, ◌/◌, ◌≤◌, ◌<◌, ◌≡◌, refl, sym, ap, ◌∙◌, ◌⊎◌, inl, inr, true, Bool-cases,
  Option, some, none, Option-cases, List, [], ◌∷◌, map, Bytes, Text, text_eq_iff, All, length,
  get_elem?-map, All-map, get_elem?, get_elem?-some, All-get_elem?, ltb, arith, ok, >>=-eq-ok,
}
use receipts_sdk.Prelude.Hex.{IsDigest, to_hex, lower, to_hex-injective, lower-to_hex}
use receipts_sdk.Types.{Number, nat, neg, other, SignedReceipt}
use receipts_sdk.Crypto.{Platform, DigestLaws}
use receipts_sdk.Crypto.Collisions.{Collision, Collision-map}
use receipts_sdk.Payload.{canonical_signing_payload}
use receipts_sdk.Merkle.{
  next_level, climb, join, next_sibling, InclusionProof, is_root, check_proof, verify_inclusion,
  payloads, batch_of, build_batch, MerkleBatch,
}
use receipts_sdk.Merkle.Nodes.{hash_leaf, hash_leaf_eq, leaf_input}
use receipts_sdk.Merkle.Levels.{
  length-next_level, next_level_last, next_level-IsDigest, hash_leaf-IsDigest, hash_node-IsDigest,
}
use receipts_sdk.Merkle.Batches.{build_batch-inversion, payloads-get_elem?}
use receipts_sdk.Merkle.Digests.{root-IsDigest, climb-IsDigest}
use receipts_sdk.Merkle.Paths.{
  InTree, higher, InClimb, joins, beyond, promotes, joint, joint-InTree, IsPromoted,
  IsPromoted-cases, root, root_single, root_step, join_eq, joined, climb_done, climb-zero,
  get_elem?-first, climb_promoted, climb_joined, climb_stuck, next_sibling-length,
}

module _ (p : Platform) where
  -- What is hashed to build the tree of the payloads.
  abbrev IsBuilt : List Bytes → Bytes → Type 0
  IsBuilt bs x =
      ((b : Bytes) × (i : ℕ) × (get_elem? bs i ≡ some b) × (x ≡ leaf_input b))
      ⊎ InTree p (map (hash_leaf p) bs) x

  -- What buildBatch hashes.
  abbrev pub IsBatched : List SignedReceipt → Bytes → Type 0
  IsBatched rs x = (bs : List Bytes) × (payloads p rs ≡ ok bs) × IsBuilt bs x

  -- What verifyInclusion hashes: its leaf, and what it joins on the way up.
  abbrev pub IsChecked : SignedReceipt → InclusionProof → Bytes → Type 0
  IsChecked r proof x =
      (b : Bytes) × (canonical_signing_payload p r.receipt ≡ ok b)
      × ((x ≡ leaf_input b)
          ⊎ ((i : ℕ) × (n : ℕ) × (proof.leaf_index ≡ nat i)
              × (proof.tree_size ≡ nat n)
              × InClimb p (hash_leaf p b) i n proof.audit_path x))

module _ (p : Platform) (laws : DigestLaws p) where
  join-size : (i : ℕ) (h sib : Bytes) → length (join p i h sib) ≡ 32
  unfolding join
  join-size i h sib =
      ground (arith, hash_node-IsDigest p laws h sib, hash_node-IsDigest p laws sib h)

  -- The node that joins to what stands in the next level stands in this one.
  child :
      (xs : List Bytes) (i : ℕ) (h sib : Bytes)
      → All IsDigest xs
      → length h ≡ 32
      → length sib ≡ 32
      → i < length xs
      → ¬ IsPromoted i (length xs)
      → get_elem? (next_level p xs) (i / 2) ≡ some (join p i h sib)
      → (get_elem? xs i ≡ some h) ⊎ Collision p (InTree p xs) (λ x. x ≡ joint p i h sib)
  child xs i h sib digests hh hs lt unpaired up =
      let (x, here) = get_elem?-some xs i lt in
      let (y, there, next) = joined p xs i here lt unpaired in
      let hx = (All-get_elem? IsDigest xs i digests here).size in
      let hy = (All-get_elem? IsDigest xs _ digests there).size in
      let same : join p i x y ≡ join p i h sib = cc (next, up) in
      elim (join_eq p i x y h sib hx hy hh hs same) [
        | inl equal ↦ inl (here ∙ ap (λ x. some x) equal)
        | inr hit ↦ inr (record {
          left = joint p i x y;
          right = joint p i h sib;
          has_left = joint-InTree p xs i here there;
          has_right = refl;
          collide = hit;
        })
      ]

  promoted :
      (xs : List Bytes) (i : ℕ) (h : Bytes)
      → i < length xs
      → IsPromoted i (length xs)
      → get_elem? (next_level p xs) (i / 2) ≡ some h
      → get_elem? xs i ≡ some h
  promoted xs i h lt last up =
      let (x, here) = get_elem?-some xs i lt in
      ground (arith, next_level_last p xs i (omega arith) (omega arith) here)

  -- With fuel `f`, the verifier reaches the root of the tree over `xs` only from what is there.
  abbrev IsSound : ℕ → Type 0
  IsSound f =
      (g : ℕ) (xs : List Bytes) (i : ℕ) (h : Bytes) (path : List Text)
      → All IsDigest xs
      → length h ≡ 32
      → i < length xs
      → length xs ≤ suc g
      → climb p f h i (length xs) path ≡ some (root p g xs, [])
      → (get_elem? xs i ≡ some h) ⊎ Collision p (InTree p xs) (InClimb p h i (length xs) path)

  module _ (f g : ℕ) (ih : IsSound f) (xs : List Bytes) (i : ℕ) (digests : All IsDigest xs)
      (lt : i < length xs) (fuel : length xs ≤ suc (suc g)) (many : 1 < length xs) where
    -- The claim at the next level, read at this level's length and root.
    above :
        (h : Bytes) (path : List Text)
        → length h ≡ 32
        → climb p f h (i / 2) ((length xs + 1) / 2) path ≡ some (root p (suc g) xs, [])
        → (get_elem? (next_level p xs) (i / 2) ≡ some h)
          ⊎ Collision p
              (InTree p (next_level p xs))
              (InClimb p h (i / 2) ((length xs + 1) / 2) path)
    above h path hh e =
        let n = length-next_level p xs in
        subst
          (λ k.
            (get_elem? (next_level p xs) (i / 2) ≡ some h)
            ⊎ Collision p (InTree p (next_level p xs)) (InClimb p h (i / 2) k path))
          n
          (ih g (next_level p xs) (i / 2) h path (next_level-IsDigest p laws xs digests) hh
            (omega (arith, n)) (omega (arith, n))
            (rw n (e ∙ ap (λ r. some (r, [])) (root_step p g xs many))))

    sound_promoted :
        (h : Bytes) (path : List Text)
        → length h ≡ 32
        → IsPromoted i (length xs)
        → climb p (suc f) h i (length xs) path ≡ some (root p (suc g) xs, [])
        → (get_elem? xs i ≡ some h) ⊎ Collision p (InTree p xs) (InClimb p h i (length xs) path)
    sound_promoted h path hh last e =
        elim (above h path hh (sym (climb_promoted p f h i (length xs) path many last) ∙ e)) [
          | inl up ↦ inl (promoted xs i h lt last up)
          | inr hit ↦ inr (Collision-map p (λ b x. higher x) (λ b x. promotes many last x) hit)
        ]

    sound_joined :
        (h : Bytes) (path : List Text) (sib : Bytes) (rest : List Text)
        → length h ≡ 32
        → ¬ IsPromoted i (length xs)
        → next_sibling path ≡ some (sib, rest)
        → climb p (suc f) h i (length xs) path ≡ some (root p (suc g) xs, [])
        → (get_elem? xs i ≡ some h) ⊎ Collision p (InTree p xs) (InClimb p h i (length xs) path)
    sound_joined h path sib rest hh unpaired found e =
        let step = climb_joined p f h i (length xs) path many unpaired found in
        elim (above (join p i h sib) rest (join-size i h sib) (sym step ∙ e)) [
          | inl up ↦
              elim (child xs i h sib digests hh (next_sibling-length path found) lt unpaired up) [
                | inl here ↦ inl here
                | inr hit ↦ inr (
                    Collision-map p (λ b x. x)
                      (λ b same.
                        subst (InClimb p h i (length xs) path) (sym same)
                          (joins many unpaired found))
                      hit)
              ]
          | inr hit ↦
              inr (Collision-map p (λ b x. higher x) (λ b x. beyond many unpaired found x) hit)
        ]

    sound_step :
        (h : Bytes) (path : List Text)
        → length h ≡ 32
        → climb p (suc f) h i (length xs) path ≡ some (root p (suc g) xs, [])
        → (get_elem? xs i ≡ some h) ⊎ Collision p (InTree p xs) (InClimb p h i (length xs) path)
    sound_step h path hh e = elim (IsPromoted-cases i (length xs)) [
      | inl last ↦ sound_promoted h path hh last e
      | inr unpaired ↦ elim (Option-cases (next_sibling path)) [
        | inl missing ↦
            absurd (ground (arith, climb_stuck p f h i (length xs) path many unpaired missing))
        | inr ((sib, rest), found) ↦ sound_joined h path sib rest hh unpaired found e
      ]
    ]

  single :
      (f g : ℕ) (xs : List Bytes) (i : ℕ) (h : Bytes) (path : List Text)
      → i < length xs
      → length xs ≤ 1
      → climb p (suc f) h i (length xs) path ≡ some (root p g xs, [])
      → get_elem? xs i ≡ some h
  single f g xs i h path lt one e = ground (
    arith,
    get_elem?-first xs i one lt,
    root_single p g xs one,
    climb_done p f h i (length xs) path one,
  )

  climb-IsSound : (f : ℕ) → IsSound f
  climb-IsSound zero g xs i h path digests hh lt fuel e =
      absurd (ground (arith, climb-zero p h i (length xs) path))
  climb-IsSound (suc f) zero xs i h path digests hh lt fuel e =
      inl (single f zero xs i h path lt fuel e)
  climb-IsSound (suc f) (suc g) xs i h path digests hh lt fuel e =
      elim (Bool-cases (ltb 1 (length xs))) [
        | inl many ↦
            sound_step f g (climb-IsSound f) xs i digests lt fuel (ground arith) h path hh e
        | inr one ↦ inl (single f (suc g) xs i h path lt (ground arith) e)
      ]

  pub is_root-inversion :
      (trusted : Text) (o : Option (Bytes × List Text))
      → is_root trusted o ≡ true
      → (h : Bytes) × (o ≡ some (h, [])) × (to_hex h ≡ lower trusted)
  is_root-inversion trusted none e = absurd (cc)
  is_root-inversion trusted (some (h, [])) e = (h, refl, (text_eq_iff _ _).0 e)
  is_root-inversion trusted (some (h, s ∷ rest)) e = absurd (cc)

  -- A hash that prints as the root is the root.
  reaches_root :
      (leaves : List Bytes) (h : Bytes)
      → All IsDigest leaves
      → IsDigest h
      → 0 < length leaves
      → to_hex h ≡ lower (to_hex (root p (length leaves) leaves))
      → h ≡ root p (length leaves) leaves
  reaches_root leaves h digests digest lt same =
      let r = root-IsDigest p laws (length leaves) leaves digests lt (omega arith) in
      to_hex-injective h _ digest.bytes r.bytes (same ∙ lower-to_hex _ r.bytes)

  check_proof_sound :
      (leaf : Bytes) (index : Number) (leaves : List Bytes) (path : List Text)
      → All IsDigest leaves
      → IsDigest leaf
      → check_proof p leaf index (nat (length leaves)) path (to_hex (root p (length leaves) leaves))
        ≡ true
      → ((i : ℕ) × (index ≡ nat i)
          × ((get_elem? leaves i ≡ some leaf)
              ⊎ Collision p (InTree p leaves) (InClimb p leaf i (length leaves) path)))
  unfolding check_proof
  check_proof_sound leaf (nat i) leaves path digests digest e =
      elim (Bool-cases (ltb i (length leaves))) [
        | inl inside ↦
            let (h, reached, same) = is_root-inversion _ _ (rw inside at e) in
            (
              i,
              refl,
              climb-IsSound (suc (length leaves)) (length leaves) leaves i leaf path digests
                  digest.size (ground arith) (omega arith)
                  (reached
                    ∙ ap (λ b. some (b, []))
                        (reaches_root leaves h digests
                          (climb-IsDigest p laws _ leaf i (length leaves) path digest reached)
                          (ground arith) same)),
            )
        | inr outside ↦ absurd (ground arith)
      ]
  check_proof_sound leaf (neg i) leaves path digests digest e = absurd (cc)
  check_proof_sound leaf (other t) leaves path digests digest e = absurd (cc)

  -- The leaf at an index is that of the receipt there, so the payloads agree.
  payload_at :
      (rs : List SignedReceipt) (bs : List Bytes) (r : SignedReceipt) (i : ℕ) (b : Bytes)
      → payloads p rs ≡ ok bs
      → canonical_signing_payload p r.receipt ≡ ok b
      → get_elem? (map (hash_leaf p) bs) i ≡ some (hash_leaf p b)
      → ((s : SignedReceipt) × (get_elem? rs i ≡ some s)
          × (canonical_signing_payload p r.receipt ≡ canonical_signing_payload p s.receipt))
        ⊎ Collision p (IsBuilt p bs) (λ x. x ≡ leaf_input b)
  payload_at rs bs r i b read here found =
      let (b', there, same) = get_elem?-map (hash_leaf p) bs i found in
      let (s, listed, payload) = payloads-get_elem? p rs bs i read there in
      elim (hash_leaf_eq p b' b same) [
        | inl equal ↦ inl (s, listed, here ∙ ap (λ x. ok x) (sym equal) ∙ sym payload)
        | inr hit ↦ inr (record {
          left = leaf_input b';
          right = leaf_input b;
          has_left = inl (b', i, there, refl);
          has_right = refl;
          collide = hit;
        })
      ]

  sound_for :
      (rs : List SignedReceipt) (bs : List Bytes) (r : SignedReceipt) (proof : InclusionProof)
      → payloads p rs ≡ ok bs
      → proof.tree_size ≡ nat (length (map (hash_leaf p) bs))
      → verify_inclusion p r proof (batch_of p rs (map (hash_leaf p) bs)).root ≡ ok true
      → (i : ℕ) × (proof.leaf_index ≡ nat i)
        × (((s : SignedReceipt) × (get_elem? rs i ≡ some s)
              × (canonical_signing_payload p r.receipt ≡ canonical_signing_payload p s.receipt))
            ⊎ Collision p (IsBatched p rs) (IsChecked p r proof))
  unfolding verify_inclusion batch_of
  sound_for rs bs r proof read size accepted =
      let (b, here, checked) = >>=-eq-ok (canonical_signing_payload p r.receipt) _ accepted in
      let (i, index, sound) =
        check_proof_sound (hash_leaf p b) proof.leaf_index (map (hash_leaf p) bs) proof.audit_path
          (All-map IsDigest (hash_leaf p) (hash_leaf-IsDigest p laws) bs)
          (hash_leaf-IsDigest p laws b) (rw (← size) (ground arith)) in
      elim sound [
        | inl found ↦ elim (payload_at rs bs r i b read here found) [
          | inl there ↦ (i, index, inl there)
          | inr hit ↦ (
            i,
            index,
            inr (Collision-map p (λ x at. (bs, read, at)) (λ x same. (b, here, inl same)) hit),
          )
        ]
        | inr hit ↦ (
          i,
          index,
          inr (
              Collision-map p (λ x at. (bs, read, inr at))
                (λ x on. (b, here, inr (i, length (map (hash_leaf p) bs), index, size, on))) hit),
        )
      ]

-- An inclusion proof that is accepted against the root of a batch, for the batch's size, has a
-- natural number for an index, and the receipt of the batch at that index has the signing payload of
-- the receipt that was checked; or else two byte strings have one SHA-256 digest, of which the one
-- was hashed to build the batch and the other by the verifier on this proof.
pub verify_inclusion_sound :
    (p : Platform)
    → DigestLaws p
    → (rs : List SignedReceipt) (batch : MerkleBatch) (r : SignedReceipt) (proof : InclusionProof)
    → build_batch p rs ≡ ok batch
    → proof.tree_size ≡ nat batch.tree_size
    → verify_inclusion p r proof batch.root ≡ ok true
    → (i : ℕ) × (proof.leaf_index ≡ nat i)
      × (((s : SignedReceipt) × (get_elem? rs i ≡ some s)
            × (canonical_signing_payload p r.receipt ≡ canonical_signing_payload p s.receipt))
          ⊎ Collision p (IsBatched p rs) (IsChecked p r proof))
unfolding batch_of
verify_inclusion_sound p laws rs batch r proof built size accepted =
    let (bs, read, made) = build_batch-inversion p rs built in
    sound_for p laws rs bs r proof read (size ∙ ap (λ b. nat b.tree_size) made)
      (subst (λ b. verify_inclusion p r proof b.root ≡ ok true) made accepted)
