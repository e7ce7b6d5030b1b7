-- ===== src/EvidencePack/Climbs.antt =====
-- The loop of a pack's verifier and the loop of merkle.ts.
use receipts_sdk.Prelude.{
  ℕ, zero, suc, ◌+◌, ◌-◌, ◌/◌, ◌%◌, ◌<◌, ◌≡◌, refl, inl, inr, true, Bool-cases, Option-cases, ◌&&◌,
  some, List, Bytes, Text, leb, ltb, ◌==◌, arith, ok, err, ◌>>=◌,
}
use receipts_sdk.Prelude.Maps.{get}
use receipts_sdk.Types.{Number, nat, SignedReceipt}
use receipts_sdk.Crypto.{Platform}
use receipts_sdk.Payload.{canonical_signing_payload}
use receipts_sdk.Merkle.{
  is_root, climb, join, next_sibling, InclusionProof, MerkleBatch, check_proof, verify_inclusion,
}
use receipts_sdk.Merkle.Nodes.{hash_leaf}
use receipts_sdk.EvidencePack.{
  last_index, half_index, Fractions, climb_pack, climb_all, join_at, is_included, inclusion,
}

module _ (p : Platform) (q : Fractions) where
  climb_pack-climb :
      (f : ℕ) (h : Bytes) (i n : ℕ) (path : List Text)
      → climb_pack p q f h (nat i) n path ≡ climb p f h i n path
  unfolding climb_pack climb join_at join
  climb_pack-climb zero h i n path = refl
  climb_pack-climb (suc f) h i n path = elim (Bool-cases (leb n 1)) [
    | inl done ↦ rw (climb_pack, climb, done) refl
    | inr more ↦ elim (Bool-cases ((i == n - 1) && (n % 2 == 1))) [
      | inl odd ↦
          rw (climb_pack, climb, more, odd) (climb_pack-climb f h (i / 2) ((n + 1) / 2) path)
      | inr pair ↦ elim (Option-cases (next_sibling path)) [
        | inl short ↦ rw (climb_pack, climb, more, pair, short) refl
        | inr (found, next) ↦
            let (sib, rest) = found in
            rw (climb_pack, climb, more, pair, next)
              (climb_pack-climb f (join p i h sib) (i / 2) ((n + 1) / 2) rest)
      ]
    ]
  ]

  -- Where the index lies in the tree, a pack's verifier answers as `verifyInclusion` does.
  pub inclusion-verify_inclusion :
      (merkle : MerkleBatch) (r : SignedReceipt) (proof : InclusionProof) (i n : ℕ)
      → get merkle.proofs r.receipt.receipt_id ≡ some proof
      → proof.leaf_index ≡ nat i
      → proof.tree_size ≡ nat n
      → i < n
      → inclusion p q merkle r ≡ verify_inclusion p r proof merkle.root
  unfolding inclusion is_included verify_inclusion climb_all
  inclusion-verify_inclusion merkle r proof i n found index size lt =
      let inside : ltb i n ≡ true = ground (arith, lt) in
      rw (found, index, size)
        (elim (canonical_signing_payload p r.receipt)
          as (λ b.
            (b >>= λ b. ok (
              is_root merkle.root
                (climb_pack p q (suc n) (hash_leaf p b) (nat i) n proof.audit_path)))
            ≡ (b >>= λ b.
                ok (check_proof p (hash_leaf p b) (nat i) (nat n) proof.audit_path merkle.root))) [
                  | err e ↦ refl
                  | ok b ↦
                      rw (inside, climb_pack-climb (suc n) (hash_leaf p b) i n proof.audit_path)
                        refl
                ])

  -- Fuel above the size is enough: more of it changes nothing.
  climb_pack-fuel :
      (f g : ℕ) (h : Bytes) (idx : Number) (n : ℕ) (path : List Text)
      → n < f
      → n < g
      → climb_pack p q f h idx n path ≡ climb_pack p q g h idx n path
  unfolding climb_pack
  climb_pack-fuel zero g h idx n path lf lg = absurd (omega (arith, lf))
  climb_pack-fuel (suc f) zero h idx n path lf lg = absurd (omega (arith, lg))
  climb_pack-fuel (suc f) (suc g) h idx n path lf lg = elim (Bool-cases (leb n 1)) [
    | inl done ↦ rw (climb_pack, done) refl
    | inr more ↦
        let half_f : (n + 1) / 2 < f = ground (arith, more, lf) in
        let half_g : (n + 1) / 2 < g = ground (arith, more, lg) in
        elim (Bool-cases (last_index idx n && (n % 2 == 1))) [
          | inl odd ↦
              rw (climb_pack, more, odd)
                (climb_pack-fuel f g h (half_index q idx) ((n + 1) / 2) path half_f half_g)
          | inr pair ↦ elim (Option-cases (next_sibling path)) [
            | inl short ↦ rw (climb_pack, more, pair, short) refl
            | inr (found, next) ↦
                let (sib, rest) = found in
                rw (climb_pack, more, pair, next)
                  (climb_pack-fuel f g (join_at p idx h sib) (half_index q idx) ((n + 1) / 2) rest
                    half_f half_g)
          ]
        ]
  ]
