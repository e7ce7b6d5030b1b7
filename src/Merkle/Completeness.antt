-- ===== src/Merkle/Completeness.antt =====
-- The proofs of a batch are accepted.
use mathlib.Core.Path.{subst}
use receipts_sdk.Prelude.{
  ℕ, zero, suc, ◌+◌, ◌/◌, ◌≤◌, ◌<◌, ◌≡◌, ◌≢◌, refl, sym, ap, ◌∙◌, inl, inr, true, Bool-cases, some,
  none, List, [], ◌∷◌, map, Bytes, Text, text_eq_self, All, All-map, All-get_elem?, length,
  length-map, get_elem?, get_elem?-lt, get_elem?-none, leb, arith, ok,
}
use receipts_sdk.Prelude.Hex.{IsDigest, to_hex, from_hex-to_hex, lower-to_hex}
use receipts_sdk.Prelude.Maps.{Map, get, get-put_self, get-put_ne}
use receipts_sdk.Types.{nat, SignedReceipt}
use receipts_sdk.Crypto.{Platform, DigestLaws}
use receipts_sdk.Merkle.{
  levels_from, next_level, climb, next_sibling, sibling_of, push_sibling, audit_path,
  InclusionProof, MerkleBatch, proofs_from, check_proof, verify_inclusion, batch_of, build_batch,
}
use receipts_sdk.Merkle.Nodes.{hash_leaf}
use receipts_sdk.Merkle.Levels.{
  length-next_level, next_level_last, next_level-IsDigest, hash_leaf-IsDigest,
}
use receipts_sdk.Merkle.Batches.{build_batch-inversion, payloads-leaf, payloads-length}
use receipts_sdk.Merkle.Digests.{root-IsDigest}
use receipts_sdk.Merkle.Paths.{
  IsPromoted, IsPromoted-cases, root, root_single, root_step, joined, climb_done, climb_promoted,
  climb_joined, get_elem?-first,
}

pub next_sibling-to_hex :
    (b : Bytes) (rest : List Text) → IsDigest b → next_sibling (to_hex b ∷ rest) ≡ some (b, rest)
unfolding next_sibling
next_sibling-to_hex b rest d = rw (from_hex-to_hex b d.bytes) (ground (arith, d.size))

module _ (p : Platform) where
  -- The path that the batch records for the node at `i` of a level.
  abbrev path_at : ℕ → ℕ → List Bytes → List Text
  path_at g i xs = audit_path i (levels_from p g xs)

  path_cons :
      (g i : ℕ) (xs ys : List Bytes)
      → audit_path i (xs ∷ levels_from p g ys)
        ≡ push_sibling (get_elem? xs (sibling_of i)) (path_at g (i / 2) ys)
  unfolding levels_from audit_path
  path_cons zero i xs ys = refl
  path_cons (suc g) i xs ys = ground arith

  path_step :
      (g i : ℕ) (xs : List Bytes)
      → 1 < length xs
      → path_at (suc g) i xs
        ≡ push_sibling (get_elem? xs (sibling_of i)) (path_at g (i / 2) (next_level p xs))
  unfolding levels_from
  path_step g i xs many = ground (arith, path_cons g i xs (next_level p xs))

  path_single : (g i : ℕ) (xs : List Bytes) → length xs ≤ 1 → path_at g i xs ≡ []
  unfolding levels_from audit_path
  path_single zero i xs one = refl
  path_single (suc g) i xs one = ground arith

  module _ (laws : DigestLaws p) where
    single :
        (f g : ℕ) (xs : List Bytes) (i : ℕ) (h : Bytes)
        → get_elem? xs i ≡ some h
        → length xs ≤ 1
        → climb p (suc f) h i (length xs) (path_at g i xs) ≡ some (root p g xs, [])
    single f g xs i h here one =
        climb_done p f h i (length xs) _ one
        ∙ ground (
          arith,
          path_single g i xs one,
          root_single p g xs one,
          get_elem?-first xs i one (get_elem?-lt xs i here),
        )

    -- With fuel `f`, the verifier follows the recorded path to the root.
    abbrev IsComplete : ℕ → Type 0
    IsComplete f =
        (g : ℕ) (xs : List Bytes) (i : ℕ) (h : Bytes)
        → All IsDigest xs
        → get_elem? xs i ≡ some h
        → length xs ≤ suc f
        → length xs ≤ suc g
        → climb p (suc f) h i (length xs) (path_at g i xs) ≡ some (root p g xs, [])

    module _ (f g : ℕ) (ih : IsComplete f) (xs : List Bytes) (i : ℕ) (digests : All IsDigest xs)
        (ff : length xs ≤ suc (suc f)) (fg : length xs ≤ suc (suc g)) (many : 1 < length xs) where
      above :
          (h : Bytes)
          → get_elem? (next_level p xs) (i / 2) ≡ some h
          → climb p (suc f) h (i / 2) ((length xs + 1) / 2) (path_at g (i / 2) (next_level p xs))
            ≡ some (root p (suc g) xs, [])
      above h up =
          let n = length-next_level p xs in
          rw (← n, root_step p g xs many)
            (ih g (next_level p xs) (i / 2) h (next_level-IsDigest p laws xs digests) up
              (omega (arith, n)) (omega (arith, n)))

      complete_promoted :
          (h : Bytes)
          → get_elem? xs i ≡ some h
          → IsPromoted i (length xs)
          → climb p (suc (suc f)) h i (length xs) (path_at (suc g) i xs)
            ≡ some (root p (suc g) xs, [])
      complete_promoted h here last =
          let alone : get_elem? xs (sibling_of i) ≡ none =
            get_elem?-none xs (sibling_of i) (ground arith) in
          rw (path_step g i xs many, alone)
            (climb_promoted p (suc f) h i (length xs) _ many last
              ∙ above h (next_level_last p xs i (omega arith) (omega arith) here))

      complete_joined :
          (h : Bytes)
          → get_elem? xs i ≡ some h
          → ¬ IsPromoted i (length xs)
          → climb p (suc (suc f)) h i (length xs) (path_at (suc g) i xs)
            ≡ some (root p (suc g) xs, [])
      complete_joined h here unpaired =
          let (sib, there, up) = joined p xs i here (get_elem?-lt xs i here) unpaired in
          let found = next_sibling-to_hex sib _ (All-get_elem? IsDigest xs _ digests there) in
          rw (path_step g i xs many, there)
            (climb_joined p (suc f) h i (length xs) _ many unpaired found ∙ above _ up)

    climb-IsComplete : (f : ℕ) → IsComplete f
    climb-IsComplete zero g xs i h digests here ff fg = single zero g xs i h here ff
    climb-IsComplete (suc f) zero xs i h digests here ff fg = single (suc f) zero xs i h here fg
    climb-IsComplete (suc f) (suc g) xs i h digests here ff fg =
        elim (Bool-cases (leb (length xs) 1)) [
          | inl one ↦ single (suc f) (suc g) xs i h here (ground arith)
          | inr more ↦ elim (IsPromoted-cases i (length xs)) [
            | inl last ↦
                complete_promoted f g (climb-IsComplete f) xs i digests ff fg (ground arith) h here
                  last
            | inr unpaired ↦
                complete_joined f g (climb-IsComplete f) xs i digests ff fg (ground arith) h here
                  unpaired
          ]
        ]

    check_proof_complete :
        (leaf : Bytes) (leaves : List Bytes) (i : ℕ)
        → All IsDigest leaves
        → get_elem? leaves i ≡ some leaf
        → check_proof p leaf
            (nat i)
            (nat (length leaves))
            (path_at (length leaves) i leaves)
            (to_hex (root p (length leaves) leaves))
          ≡ true
    unfolding check_proof
    check_proof_complete leaf leaves i digests here =
        let inside = get_elem?-lt leaves i here in
        let n = length leaves in
        let r = root-IsDigest p laws n leaves digests (omega arith) (omega arith) in
        ground (
          arith,
          climb-IsComplete n n leaves i leaf digests here (omega arith) (omega arith),
          text_eq_self (to_hex (root p n leaves)),
          lower-to_hex (root p n leaves) r.bytes,
        )

-- No two receipts have one id.
abbrev pub HasDistinctIds : List SignedReceipt → Type 0
HasDistinctIds [] = Unit
HasDistinctIds (r ∷ rs) =
    All (λ s. r.receipt.receipt_id ≢ s.receipt.receipt_id) rs × HasDistinctIds rs

proofs_from-others :
    (i n : ℕ) (levels : List (List Bytes)) (rs : List SignedReceipt) (acc : Map InclusionProof)
    (id : Text)
    → All (λ s. id ≢ s.receipt.receipt_id) rs
    → get (proofs_from i n levels rs acc) id ≡ get acc id
unfolding proofs_from
proofs_from-others i n levels [] acc id h = refl
proofs_from-others i n levels (r ∷ rs) acc id (h, hs) =
    proofs_from-others (i + 1) n levels rs _ id hs
    ∙ get-put_ne acc r.receipt.receipt_id id _ (λ e. h (sym e))

abbrev proof_for : ℕ → ℕ → List (List Bytes) → InclusionProof
proof_for i n levels = record {
  leaf_index = nat i;
  tree_size = nat n;
  audit_path = audit_path i levels;
}

get-proofs_from :
    (i k n : ℕ) (levels : List (List Bytes)) (rs : List SignedReceipt) (acc : Map InclusionProof)
    {r : SignedReceipt}
    → HasDistinctIds rs
    → get_elem? rs k ≡ some r
    → get (proofs_from i n levels rs acc) r.receipt.receipt_id ≡ some (proof_for (i + k) n levels)
unfolding proofs_from
get-proofs_from i k n levels [] acc d e = absurd (cc)
get-proofs_from i zero n levels (s ∷ rs) acc {r} (d, ds) e =
    let id = s.receipt.receipt_id in
    let same : s ≡ r = ground arith in
    subst
      (λ (t : SignedReceipt).
        get (proofs_from i n levels (s ∷ rs) acc) t.receipt.receipt_id
        ≡ some (proof_for (i + 0) n levels))
      same
      (proofs_from-others (i + 1) n levels rs _ id d
        ∙ get-put_self acc id _
        ∙ ap (λ j. some (proof_for j n levels)) (omega arith))
get-proofs_from i (suc k) n levels (s ∷ rs) acc (d, ds) e =
    get-proofs_from (i + 1) k n levels rs _ ds e
    ∙ ap (λ j. some (proof_for j n levels)) (omega arith)

-- In a batch of receipts with distinct ids, every receipt has a proof under its id, the proof
-- gives the receipt's position and the batch's size, and it is accepted against the batch's root.
pub build_batch_complete :
    (p : Platform)
    → DigestLaws p
    → (rs : List SignedReceipt) (batch : MerkleBatch) (i : ℕ) (r : SignedReceipt)
    → build_batch p rs ≡ ok batch
    → HasDistinctIds rs
    → get_elem? rs i ≡ some r
    → (proof : InclusionProof) × (get batch.proofs r.receipt.receipt_id ≡ some proof)
      × (proof.leaf_index ≡ nat i)
      × (proof.tree_size ≡ nat (length rs))
      × (verify_inclusion p r proof batch.root ≡ ok true)
unfolding batch_of verify_inclusion
build_batch_complete p laws rs batch i r built distinct here =
    let (bs, read, made) = build_batch-inversion p rs built in
    let (b, payload, leaf) = payloads-leaf p rs bs i read here in
    let leaves = map (hash_leaf p) bs in
    let n = length leaves in
    let size : n ≡ length rs = length-map bs (hash_leaf p) ∙ payloads-length p rs bs read in
    let digests = All-map IsDigest (hash_leaf p) (hash_leaf-IsDigest p laws) bs in
    (
      proof_for i n (levels_from p n leaves),
      rw made (
          get-proofs_from 0 i n (levels_from p n leaves) rs [] distinct here
          ∙ ap (λ j. some (proof_for j n (levels_from p n leaves))) (omega arith)),
      refl,
      ap nat size,
      rw (made, payload)
          (ap ok (check_proof_complete p laws (hash_leaf p b) leaves i digests leaf)),
    )
