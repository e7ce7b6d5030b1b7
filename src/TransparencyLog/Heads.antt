-- ===== src/TransparencyLog/Heads.antt =====
-- Signed tree heads of log.ts: what `publishSTH` signs, `verifySTH` accepts.
use mathlib.Core.Path.{subst}
use receipts_sdk.Prelude.{
  ◌≡◌, refl, sym, ap, ◌∙◌, ◌⊎◌, inl, inr, true, some, [], ◌∷◌, ◌++◌, Bytes, Text, text_eq_self,
  All-append, length, take, take_length, ok, err, ok-injective, ◌>>=◌, >>=-eq-ok, arith,
}
use receipts_sdk.Prelude.Hex.{to_hex}
use receipts_sdk.Prelude.Maps.{Map}
use receipts_sdk.Errors.{Throws, Error}
use receipts_sdk.Types.{eddsa}
use receipts_sdk.Crypto.{Platform, canonicalize_bytes, verify}
use receipts_sdk.Verify.{key_for}
use receipts_sdk.TransparencyLog.{
  SignedTreeHead, Signer, TransparencyLog, signed_head, sth_json, root_from_leaves, current_root,
  publish_sth, verify_sth,
}
use receipts_sdk.TransparencyLog.Appends.{IsHead, IsLog, IsLog-length}

-- What a signing provider promises: its signatures verify under the key.
pub record SignerLaws (p : Platform) (signer : Signer) (public_key : Text) : Type 0 where
  pub scheme : signer.algorithm ≡ eddsa
  pub verifies :
      (payload : Bytes) (sig : Text)
      → signer.sign payload ≡ ok sig
      → verify p payload sig public_key ≡ true

-- The head that a publication adds.
abbrev pub head_of : Platform → TransparencyLog → Text → Text → SignedTreeHead
head_of p log now sig = record {
  tree_size = length log.entries;
  root_hash = current_root p log;
  timestamp = now;
  log_id = log.log_id;
  signature = record { alg = log.signer.algorithm; kid = log.signer.kid; sig = sig };
}

abbrev pub with_head : TransparencyLog → SignedTreeHead → TransparencyLog
with_head log sth = record log { sth_history = log.sth_history ++ sth ∷ [] }

module _ (p : Platform) where
  -- The text that a publication signs.
  abbrev payload_of : TransparencyLog → Text → Throws Bytes
  payload_of log now =
      canonicalize_bytes p (sth_json (length log.entries) (current_root p log) now log.log_id)

  signed_head_cases :
      (log : TransparencyLog) (now : Text) (signed : Throws Text)
      → ((e : Error) × (signed ≡ err e)
          × (signed_head log (current_root p log) now signed ≡ (log, err e)))
        ⊎ ((sig : Text) × (signed ≡ ok sig)
            × (signed_head log (current_root p log) now signed
                ≡ (with_head log (head_of p log now sig), ok (head_of p log now sig))))
  signed_head_cases log now (err e) = inl (e, refl, refl)
  signed_head_cases log now (ok sig) = inr (sig, refl, refl)

  -- A publication adds one head that the signer has signed, or it fails and changes nothing.
  pub publish_sth_cases :
      (log : TransparencyLog) (now : Text)
      → ((e : Error) × (publish_sth p log now ≡ (log, err e)))
        ⊎ ((payload : Bytes) × (sig : Text) × (payload_of log now ≡ ok payload)
            × (log.signer.sign payload ≡ ok sig)
            × (publish_sth p log now
                ≡ (with_head log (head_of p log now sig), ok (head_of p log now sig))))
  unfolding publish_sth
  publish_sth_cases log now =
      elim (signed_head_cases log now (do payload ← payload_of log now; log.signer.sign payload)) [
        | inl (e, _, done) ↦ inl (e, done)
        | inr (sig, made, done) ↦
            let (payload, read, signs) = >>=-eq-ok (payload_of log now) _ made in
            inr (payload, sig, read, signs, done)
      ]

  head_of-IsHead :
      (log : TransparencyLog) (now sig : Text)
      → IsLog p log
      → IsHead p log.log_id log.leaf_hashes (head_of p log now sig)
  unfolding current_root
  head_of-IsHead log now sig h =
      let size = IsLog-length p log h in
      let all : take (length log.entries) log.leaf_hashes ≡ log.leaf_hashes =
        ap (λ n. take n log.leaf_hashes) (sym size) ∙ take_length log.leaf_hashes in
      record {
        within = omega (arith, size);
        rooted = ap (λ l. to_hex (root_from_leaves p l)) (sym all);
        named = refl;
      }

  pub publish_sth-IsLog :
      (log : TransparencyLog) (now : Text) → IsLog p log → IsLog p (publish_sth p log now).0
  publish_sth-IsLog log now h = elim (publish_sth_cases log now) [
    | inl (e, done) ↦ subst (λ r. IsLog p r.0) (sym done) h
    | inr (payload, sig, read, signs, done) ↦
        subst (λ r. IsLog p r.0) (sym done)
          (record {
            leaves = h.leaves;
            digests = h.digests;
            indexed = h.indexed;
            heads =
                All-append (IsHead p log.log_id log.leaf_hashes) log.sth_history
                  (head_of p log now sig ∷ []) h.heads (head_of-IsHead log now sig h, tt);
          })
  ]

  head_verifies :
      (log : TransparencyLog) (now key sig : Text) (payload : Bytes) (keys : Map Text)
      → SignerLaws p log.signer key
      → key_for keys log.signer.kid ≡ some key
      → payload_of log now ≡ ok payload
      → log.signer.sign payload ≡ ok sig
      → verify_sth p (head_of p log now sig) keys ≡ ok true
  unfolding verify_sth
  head_verifies log now key sig payload keys laws known read signs =
      rw (laws.scheme, text_eq_self eddsa, known, read, laws.verifies payload sig signs) refl

-- If a publication returns a head, the head names the log, the number of its entries and its
-- current root, it is the last of the log's history, and `verifySTH` accepts it under keys that hold
-- the signer's.
pub publish_sth-verify_sth :
    (p : Platform) (log : TransparencyLog) (now key : Text) (keys : Map Text) (sth : SignedTreeHead)
    → SignerLaws p log.signer key
    → key_for keys log.signer.kid ≡ some key
    → (publish_sth p log now).1 ≡ ok sth
    → (verify_sth p sth keys ≡ ok true)
      × ((publish_sth p log now).0.sth_history ≡ log.sth_history ++ sth ∷ [])
      × (sth.tree_size ≡ length log.entries)
      × (sth.root_hash ≡ current_root p log)
      × (sth.log_id ≡ log.log_id)
publish_sth-verify_sth p log now key keys sth laws known published =
    elim (publish_sth_cases p log now) [
      | inl (e, done) ↦ absurd (ground (arith, done))
      | inr (payload, sig, read, signs, done) ↦
          let same : head_of p log now sig ≡ sth = ok-injective _ (ap (λ r. r.1) done) published in
          let grown : (publish_sth p log now).0.sth_history
              ≡ log.sth_history ++ head_of p log now sig ∷ [] =
            ap (λ r. r.0.sth_history) done in
          subst
            (λ sth.
              (verify_sth p sth keys ≡ ok true)
              × ((publish_sth p log now).0.sth_history ≡ log.sth_history ++ sth ∷ [])
              × (sth.tree_size ≡ length log.entries)
              × (sth.root_hash ≡ current_root p log)
              × (sth.log_id ≡ log.log_id))
            same
            (
              head_verifies p log now key sig payload keys laws known read signs,
              grown,
              refl,
              refl,
              refl,
            )
    ]
