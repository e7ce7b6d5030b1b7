-- ===== src/Merkle/Batches.antt =====
-- What a successful `build_batch` returns.
use mathlib.Core.Path.{subst}
use receipts_sdk.Prelude.{
  ℕ, zero, suc, ◌≡◌, refl, ap, List, [], ◌∷◌, map, Bytes, length, get_elem?, some, arith, ok,
  >>=-eq-ok,
}
use receipts_sdk.Types.{SignedReceipt}
use receipts_sdk.Crypto.{Platform}
use receipts_sdk.Payload.{canonical_signing_payload}
use receipts_sdk.Merkle.{payloads, batch_of, build_batch, MerkleBatch}
use receipts_sdk.Merkle.Nodes.{hash_leaf}

module _ (p : Platform) where
  -- The batch is that of the leaves' payloads.
  pub build_batch-inversion :
      (rs : List SignedReceipt) {batch : MerkleBatch}
      → build_batch p rs ≡ ok batch
      → (bs : List Bytes) × (payloads p rs ≡ ok bs) × (batch ≡ batch_of p rs (map (hash_leaf p) bs))
  unfolding build_batch
  build_batch-inversion [] e = absurd (cc)
  build_batch-inversion (r ∷ rs) e =
      let (bs, read, made) = >>=-eq-ok (payloads p (r ∷ rs)) _ e in (bs, read, cc)

  pub payloads-inversion :
      (r : SignedReceipt) (rs : List SignedReceipt) {bs : List Bytes}
      → payloads p (r ∷ rs) ≡ ok bs
      → (b : Bytes) × (rest : List Bytes) × (canonical_signing_payload p r.receipt ≡ ok b)
        × (payloads p rs ≡ ok rest)
        × (bs ≡ b ∷ rest)
  unfolding payloads
  payloads-inversion r rs e =
      let (b, here, e') = >>=-eq-ok (canonical_signing_payload p r.receipt) _ e in
      let (rest, there, made) = >>=-eq-ok (payloads p rs) _ e' in (b, rest, here, there, cc)

  pub payloads-length :
      (rs : List SignedReceipt) (bs : List Bytes) → payloads p rs ≡ ok bs → length bs ≡ length rs
  payloads-length [] bs e = unfold payloads in ground arith
  payloads-length (r ∷ rs) bs e =
      let (b, rest, here, there, made) = payloads-inversion r rs e in
      omega (arith, payloads-length rs rest there, ap length made)

  -- The payload at an index is that of the receipt there.
  pub payloads-get_elem? :
      (rs : List SignedReceipt) (bs : List Bytes) (i : ℕ) {b : Bytes}
      → payloads p rs ≡ ok bs
      → get_elem? bs i ≡ some b
      → (s : SignedReceipt) × (get_elem? rs i ≡ some s)
        × (canonical_signing_payload p s.receipt ≡ ok b)
  payloads-get_elem? [] bs i e at = absurd (unfold payloads in ground arith)
  payloads-get_elem? (r ∷ rs) bs zero e at =
      let (b', rest, here, there, made) = payloads-inversion r rs e in (r, refl, ground arith)
  payloads-get_elem? (r ∷ rs) bs (suc i) e at =
      let (b', rest, here, there, made) = payloads-inversion r rs e in
      payloads-get_elem? rs rest i there (rw made at at)

  -- Every receipt has its leaf.
  pub payloads-leaf :
      (rs : List SignedReceipt) (bs : List Bytes) (i : ℕ) {r : SignedReceipt}
      → payloads p rs ≡ ok bs
      → get_elem? rs i ≡ some r
      → (b : Bytes) × (canonical_signing_payload p r.receipt ≡ ok b)
        × (get_elem? (map (hash_leaf p) bs) i ≡ some (hash_leaf p b))
  payloads-leaf [] bs i e at = absurd (cc)
  payloads-leaf (s ∷ rs) bs zero {r} e at =
      let (b, rest, here, there, made) = payloads-inversion s rs e in
      let same : s ≡ r = ground arith in
      (
        b,
        subst (λ (t : SignedReceipt). canonical_signing_payload p t.receipt ≡ ok b) same here,
        ap (λ l. get_elem? (map (hash_leaf p) l) zero) made,
      )
  payloads-leaf (s ∷ rs) bs (suc i) e at =
      let (b', rest, here, there, made) = payloads-inversion s rs e in
      let (b, same, found) = payloads-leaf rs rest i there at in (b, same, rw made found)
