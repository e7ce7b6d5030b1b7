-- ===== src/EvidencePack/Verified.antt =====
-- What an accepted evidence pack is made of.
use receipts_sdk.Prelude.{
  ◌≡◌, refl, sym, ap, ◌∙◌, inl, inr, Bool, if◌then◌else◌, true, false, Bool-cases, Option-cases,
  &&-eq-true, Option, some, none, List, [], ◌∷◌, All, Bytes, Text, text_eq, text_eq_iff, ok,
  ok-injective, >>=-eq-ok,
}
use receipts_sdk.Prelude.Maps.{Map, get}
use receipts_sdk.Types.{SignedReceipt}
use receipts_sdk.Crypto.{Platform, canonicalize_bytes, sha256}
use receipts_sdk.Merkle.{InclusionProof, MerkleBatch, is_root}
use receipts_sdk.Merkle.Nodes.{hash_leaf}
use receipts_sdk.Payload.{canonical_signing_payload}
use receipts_sdk.Prelude.Hex.{to_hex, lower}
use receipts_sdk.Verify.{VerifyOptions, verify_receipt}
use receipts_sdk.Verify.Shapes.{envelope_of, opened-envelope_of, opened}
use receipts_sdk.Verify.Evidence.{IsEvidence, verify_receipt_sound}
use receipts_sdk.EvidencePack.{
  is_empty, climb_all, is_included, Fractions, PackVerification, ids, pack_hash_of,
  verify_pack_integrity, inclusion, not_included_of, unverified, pack_verdict, verify_with_keys,
  verify_evidence_pack,
}
use receipts_sdk.EvidencePack.Shapes.{Contents, EvidencePack}
use receipts_sdk.EvidencePack.Encode.{contents_json}

abbrev pub under : Map Text → VerifyOptions
under keys = record { public_keys = keys; previous_receipt = none }

ids-eq-nil : (rs : List SignedReceipt) → is_empty (ids rs) ≡ true → rs ≡ []
unfolding is_empty
ids-eq-nil [] e = refl
ids-eq-nil (r ∷ rs) e = cc

module _ (p : Platform) where
  pub pack_hash_of-inversion :
      (c : Contents) {h : Text}
      → pack_hash_of p c ≡ ok h
      → (b : Bytes) × (canonicalize_bytes p (contents_json c) ≡ ok b) × (sha256 p b ≡ h)
  unfolding pack_hash_of
  pack_hash_of-inversion c e =
      let (b, read, made) =
        >>=-eq-ok (canonicalize_bytes p (contents_json c)) (λ b. ok (sha256 p b)) e in
      (b, read, ok-injective (ok (sha256 p b)) refl made)

  pub verify_pack_integrity-inversion :
      (pack : EvidencePack)
      → verify_pack_integrity p pack ≡ ok true
      → (b : Bytes) × (canonicalize_bytes p (contents_json pack.contents) ≡ ok b)
        × (sha256 p b ≡ pack.pack_hash)
  unfolding verify_pack_integrity
  verify_pack_integrity-inversion pack e =
      let (h, hashed, same) =
        >>=-eq-ok (pack_hash_of p pack.contents) (λ h. ok (text_eq h pack.pack_hash)) e in
      let (b, read, made) = pack_hash_of-inversion pack.contents hashed in
      (
        b,
        read,
        made
            ∙ (text_eq_iff h pack.pack_hash).0
                (ok-injective (ok (text_eq h pack.pack_hash)) refl same),
      )

  unverified-IsEvidence :
      (keys : Map Text) (rs : List SignedReceipt)
      → unverified p keys rs ≡ []
      → All (IsEvidence p (under keys)) rs
  unfolding unverified
  unverified-IsEvidence keys [] e = tt
  unverified-IsEvidence keys (r ∷ rs) e =
      elim (Bool-cases (verify_receipt p (envelope_of r) (under keys)).valid) [
        | inl valid ↦
            let (signed, at, evidence) =
              verify_receipt_sound p (envelope_of r) (under keys) valid in
            let same : signed ≡ r =
              ok-injective (opened (envelope_of r)) at (opened-envelope_of r) in
            (rw (sym same) evidence, unverified-IsEvidence keys rs (rw valid at e))
        | inr refused ↦ absurd (let e : r ∷ unverified p keys rs ≡ [] = rw refused at e in cc)
      ]

module _ (p : Platform) (q : Fractions) where
  -- The pack has a proof under the receipt's id, which leads from the receipt's payload to the root.
  abbrev pub IsIncluded : MerkleBatch → SignedReceipt → Type 0
  IsIncluded merkle r =
      (proof : InclusionProof) × (payload top : Bytes) × (get merkle.proofs r.receipt.receipt_id
        ≡ some proof)
      × (canonical_signing_payload p r.receipt ≡ ok payload)
      × (climb_all p q (hash_leaf p payload) proof.leaf_index proof.tree_size proof.audit_path
          ≡ some (top, []))
      × (to_hex top ≡ lower merkle.root)

  is_root-inversion :
      (trusted : Text) (o : Option (Bytes × List Text))
      → is_root trusted o ≡ true
      → (top : Bytes) × (o ≡ some (top, [])) × (to_hex top ≡ lower trusted)
  is_root-inversion trusted none e = cc
  is_root-inversion trusted (some (h, [])) e =
      (h, refl, (text_eq_iff (to_hex h) (lower trusted)).0 e)
  is_root-inversion trusted (some (h, _ ∷ _)) e = cc

  inclusion-IsIncluded :
      (merkle : MerkleBatch) (r : SignedReceipt)
      → inclusion p q merkle r ≡ ok true
      → IsIncluded merkle r
  unfolding inclusion is_included
  inclusion-IsIncluded merkle r e = elim (Option-cases (get merkle.proofs r.receipt.receipt_id)) [
    | inl missing ↦ absurd (let e : ok false ≡ ok true = rw missing at e in cc)
    | inr (proof, found) ↦
        let (b, read, same) =
          >>=-eq-ok (canonical_signing_payload p r.receipt)
            (λ b. ok (is_included p q merkle b (some proof))) (rw found at e) in
        let (top, climbs, root) =
          is_root-inversion merkle.root _
            (ok-injective (ok (is_included p q merkle b (some proof))) refl same) in
        (proof, b, top, found, read, climbs, root)
  ]

  not_included_of-IsIncluded :
      (merkle : MerkleBatch) (rs : List SignedReceipt)
      → not_included_of p q merkle rs ≡ ok []
      → All (IsIncluded merkle) rs
  unfolding not_included_of
  not_included_of-IsIncluded merkle [] e = tt
  not_included_of-IsIncluded merkle (r ∷ rs) e =
      let (one, here, e1) = >>=-eq-ok (inclusion p q merkle r) _ e in
      let (more, rest, e2) =
        >>=-eq-ok (not_included_of p q merkle rs) (λ more. ok (if one then more else r ∷ more))
          e1 in
      let split = ok-injective (ok (if one then more else r ∷ more)) refl e2 in
      let (yes1, none1) = all_in one more r split in
      (
        inclusion-IsIncluded merkle r (here ∙ ap ok yes1),
        not_included_of-IsIncluded merkle rs (rest ∙ ap ok none1),
      )
    where
      all_in :
          (one : Bool) (more : List SignedReceipt) (r : SignedReceipt)
          → (if one then more else r ∷ more) ≡ []
          → (one ≡ true) × (more ≡ [])
      all_in true more r e = (refl, e)
      all_in false more r e = cc

  pack_verdict-valid :
      (hash_ok : Bool) (i s : List Text)
      → (pack_verdict hash_ok i s).valid ≡ true
      → (hash_ok ≡ true) × (is_empty i ≡ true) × (is_empty s ≡ true)
  unfolding pack_verdict
  pack_verdict-valid hash_ok i s e =
      let (two, signed) = &&-eq-true _ _ e in
      let (hashed, included) = &&-eq-true _ _ two in (hashed, included, signed)

  -- A pack that is accepted under the caller's keys carries the SHA-256 of its canonical contents, and each of its receipts has
  -- its own evidence under those keys, whatever keys the pack itself carries, and a proof that leads to the pack's root.
  pub verify_evidence_pack_sound :
      (keys : Map Text) (pack : EvidencePack) {v : PackVerification}
      → verify_evidence_pack p q keys pack ≡ ok v
      → v.valid ≡ true
      → (b : Bytes) × (canonicalize_bytes p (contents_json pack.contents) ≡ ok b)
        × (sha256 p b ≡ pack.pack_hash)
        × All (IsEvidence p (under keys)) pack.contents.receipts
        × All (IsIncluded pack.contents.merkle) pack.contents.receipts
  unfolding verify_evidence_pack verify_with_keys
  verify_evidence_pack_sound [] pack {v} e valid =
      let shut : false ≡ v.valid =
        ap (λ (v : PackVerification). v.valid)
          (ok-injective (verify_evidence_pack p q [] pack) refl e) in
      absurd (let wrong : false ≡ true = shut ∙ valid in cc)
  verify_evidence_pack_sound (k ∷ keys) pack {v} e valid =
      let (hash_ok, hashed, e1) = >>=-eq-ok (verify_pack_integrity p pack) _ e in
      let (failed, all_in, e2) =
        >>=-eq-ok (not_included_of p q pack.contents.merkle pack.contents.receipts)
          (λ failed. ok (
            pack_verdict hash_ok (ids failed)
              (ids (unverified p (k ∷ keys) pack.contents.receipts))))
          e1 in
      let made =
        ok-injective
          (ok (
            pack_verdict hash_ok (ids failed)
              (ids (unverified p (k ∷ keys) pack.contents.receipts))))
          refl e2 in
      let (h, i, s) =
        pack_verdict-valid hash_ok (ids failed)
          (ids (unverified p (k ∷ keys) pack.contents.receipts))
          (ap (λ (v : PackVerification). v.valid) made ∙ valid) in
      let (b, read, same) = verify_pack_integrity-inversion p pack (hashed ∙ ap ok h) in
      (
        b,
        read,
        same,
        unverified-IsEvidence p (k ∷ keys) pack.contents.receipts (ids-eq-nil _ s),
        not_included_of-IsIncluded pack.contents.merkle pack.contents.receipts
            (all_in ∙ ap ok (ids-eq-nil failed i)),
      )
