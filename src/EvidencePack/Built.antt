-- ===== src/EvidencePack/Built.antt =====
-- Building an evidence pack and verifying it.
use mathlib.Core.Path.{subst}
use receipts_sdk.Prelude.{
  ℕ, zero, suc, ◌≡◌, refl, ◌∙◌, true, some, List, [], ◌∷◌, All, Text, text_eq_self, get_elem?,
  get_elem?-lt, length, ok, ok-injective, >>=-eq-ok,
}
use receipts_sdk.Prelude.Maps.{Map}
use receipts_sdk.Types.{SignedReceipt}
use receipts_sdk.Crypto.{Platform, DigestLaws}
use receipts_sdk.Merkle.{MerkleBatch, build_batch}
use receipts_sdk.Merkle.Completeness.{HasDistinctIds, build_batch_complete}
use receipts_sdk.Keys.{KeyRecord}
use receipts_sdk.Verify.{verify_receipt}
use receipts_sdk.Verify.Shapes.{envelope_of}
use receipts_sdk.EvidencePack.{
  Fractions, PackVerification, pack_hash_of, build_evidence_pack, verify_pack_integrity, inclusion,
  not_included_of, unverified, pack_verdict, verify_with_keys, verify_evidence_pack,
}
use receipts_sdk.EvidencePack.Shapes.{EvidencePackMeta, EvidencePack}
use receipts_sdk.EvidencePack.Climbs.{inclusion-verify_inclusion}
use receipts_sdk.EvidencePack.Verified.{under}

All-elements :
    {A : Type 0} (P : A → Type 0) (xs : List A)
    → ((i : ℕ) (x : A) → get_elem? xs i ≡ some x → P x)
    → All P xs
All-elements P [] each = tt
All-elements P (x ∷ xs) each = (each zero x refl, All-elements P xs (λ i y e. each (suc i) y e))

module _ (p : Platform) (q : Fractions) where
  not_included_of-nil :
      (merkle : MerkleBatch) (rs : List SignedReceipt)
      → All (λ r. inclusion p q merkle r ≡ ok true) rs
      → not_included_of p q merkle rs ≡ ok []
  unfolding not_included_of
  not_included_of-nil merkle [] each = refl
  not_included_of-nil merkle (r ∷ rs) (one, each) =
      rw (one, not_included_of-nil merkle rs each) refl

  unverified-nil :
      (keys : Map Text) (rs : List SignedReceipt)
      → All (λ r. (verify_receipt p (envelope_of r) (under keys)).valid ≡ true) rs
      → unverified p keys rs ≡ []
  unfolding unverified
  unverified-nil keys [] each = refl
  unverified-nil keys (r ∷ rs) (one, each) = rw (one, unverified-nil keys rs each) refl

  -- What a build is made of.
  build_evidence_pack-inversion :
      (meta : EvidencePackMeta) (rs : List SignedReceipt) (trusted : List KeyRecord) (recipe : Text)
      {pack : EvidencePack}
      → build_evidence_pack p meta rs trusted recipe ≡ ok pack
      → (build_batch p rs ≡ ok pack.contents.merkle)
        × (pack.contents.receipts ≡ rs)
        × (pack_hash_of p pack.contents ≡ ok pack.pack_hash)
  unfolding build_evidence_pack
  build_evidence_pack-inversion meta [] trusted recipe e = cc
  build_evidence_pack-inversion meta (r ∷ rs) trusted recipe e =
      let (merkle, batched, e1) = >>=-eq-ok (build_batch p (r ∷ rs)) _ e in
      let (hash, hashed, e2) = >>=-eq-ok (pack_hash_of p _) _ e1 in
      subst
        (λ (pack : EvidencePack).
          (build_batch p (r ∷ rs) ≡ ok pack.contents.merkle)
          × (pack.contents.receipts ≡ r ∷ rs)
          × (pack_hash_of p pack.contents ≡ ok pack.pack_hash))
        (ok-injective _ refl e2) (batched, refl, hashed)

  pub build_evidence_pack_verifies :
      DigestLaws p
      → (meta : EvidencePackMeta) (rs : List SignedReceipt) (trusted : List KeyRecord)
        (recipe : Text) {pack : EvidencePack} (k : Text × Text) (keys : Map Text)
      → build_evidence_pack p meta rs trusted recipe ≡ ok pack
      → HasDistinctIds rs
      → All (λ r. (verify_receipt p (envelope_of r) (under (k ∷ keys))).valid ≡ true) rs
      → (v : PackVerification) × (verify_evidence_pack p q (k ∷ keys) pack ≡ ok v)
        × (v.valid ≡ true)
        × (v.errors ≡ [])
  unfolding verify_evidence_pack verify_with_keys verify_pack_integrity pack_verdict
  build_evidence_pack_verifies laws meta rs trusted recipe {pack} k keys built distinct each =
      let (batched, same, hashed) = build_evidence_pack-inversion meta rs trusted recipe built in
      let included : All (λ r. inclusion p q pack.contents.merkle r ≡ ok true) rs =
        All-elements _ rs (λ i r at.
          let (proof, found, index, size, accepted) =
            build_batch_complete p laws rs pack.contents.merkle i r batched distinct at in
          inclusion-verify_inclusion p q pack.contents.merkle r proof i (length rs) found index size
            (get_elem?-lt rs i at)
          ∙ accepted) in
      (
        pack_verdict true [] [],
        rw
            (
              hashed,
              text_eq_self pack.pack_hash,
              same,
              not_included_of-nil pack.contents.merkle rs included,
              unverified-nil (k ∷ keys) rs each,
            )
            refl,
        refl,
        refl,
      )
