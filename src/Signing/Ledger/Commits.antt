-- ===== src/Signing/Ledger/Commits.antt =====
-- What signing against a compare-and-set store commits.
use mathlib.Core.Path.{subst}
use receipts_sdk.Prelude.{
  ℕ, zero, suc, ◌+◌, ◌≡◌, ◌≢◌, refl, sym, ap, ◌∙◌, inl, inr, Bool-cases, Text, ok, err,
  ok-injective,
}
use receipts_sdk.Errors.{Throws}
use receipts_sdk.Types.{nat, ChainState, SignedReceipt}
use receipts_sdk.Crypto.{Platform}
use receipts_sdk.Signing.{SignReceiptOptions, Head, Built, build_signed_receipt}
use receipts_sdk.Signing.Builds.{build_signed_receipt-place}
use receipts_sdk.ChainStore.{ChainStateStore, IsCasStore, head_of}
use receipts_sdk.ChainStore.Writers.{IsKnown, load-IsKnown}
use receipts_sdk.Signing.Ledger.{
  Round, Outcome, signed, lost, thrown, is_conflict, after_advance, after_build, after_load,
  attempt, settled, sign_receipt_with_store,
}

module _ {S : Type 0} {store : ChainStateStore S} {IsValid : S → Type 0} {head : S → Text → Head}
    (laws : IsCasStore store IsValid head) where
  -- Other writers keep the store valid, and move no head back or sideways.
  pub record IsFair (r : Round S) : Type 0 where
    pub keeps_valid : (s : S) → IsValid s → IsValid (r.others s)
    pub keeps_known :
        (s : S) (held : ChainState) → IsKnown laws s held → IsKnown laws (r.others s) held

  -- The receipt links to the tenant's head as it stood when it was written, and is the head now; no
  -- other tenant's head changed with it.
  pub record IsCommitted (t : Text) (before after : S) (r : SignedReceipt) : Type 0 where
    pub valid : IsValid before
    pub mine : r.receipt.tenant_id ≡ t
    pub linked : r.receipt.integrity.previous_receipt_hash ≡ (head before t).previous_receipt_hash
    pub above : r.receipt.integrity.chain_height ≡ nat ((head before t).chain_height + 1)
    pub new_head : head after t ≡ record {
      previous_receipt_hash = r.receipt.integrity.receipt_hash;
      chain_height = (head before t).chain_height + 1;
    }
    pub others_kept : (other : Text) → t ≢ other → head after other ≡ head before other

  -- What an attempt leaves: a commit, or a valid store.
  abbrev IsAttempt : Text → S × Outcome → Type 0
  IsAttempt t (s', signed r) = (before : S) × IsCommitted t before s' r
  IsAttempt t (s', lost e) = IsValid s'
  IsAttempt t (s', thrown e) = Unit

  module _ (p : Platform) (opts : SignReceiptOptions) (r : Round S) where
    committed :
        (s : S) (prev : ChainState) (b : Built) (st : ChainState)
        → IsValid s
        → IsKnown laws s prev
        → prev.tenant_id ≡ opts.event.tenant_id
        → build_signed_receipt p opts (head_of prev) r.id r.signed_at ≡ ok b
        → (store.advance s prev b.receipt_hash b.receipt_id r.advanced_at).1 ≡ ok st
        → IsCommitted prev.tenant_id s
            (store.advance s prev b.receipt_hash b.receipt_id r.advanced_at).0
            b.signed
    committed s prev b st valid known mine built done =
        let (link, above, hash, owner) =
          build_signed_receipt-place p opts (head_of prev) r.id r.signed_at built in
        let (stood, moved, rest) =
          laws.advance_ok s prev b.receipt_hash b.receipt_id r.advanced_at st valid known.0 done in
        record {
          valid = valid;
          mine = owner ∙ sym mine;
          linked = link ∙ known.1 (sym stood);
          above = above ∙ ap (λ n. nat (n + 1)) (sym stood);
          new_head = moved ∙ sym (rw (hash, stood) refl);
          others_kept = rest;
        }

    advanced :
        (s : S) (prev : ChainState) (b : Built)
        → IsValid s
        → IsKnown laws s prev
        → prev.tenant_id ≡ opts.event.tenant_id
        → build_signed_receipt p opts (head_of prev) r.id r.signed_at ≡ ok b
        → IsAttempt prev.tenant_id
            (after_advance b (store.advance s prev b.receipt_hash b.receipt_id r.advanced_at))
    advanced s prev b valid known mine built =
        go (store.advance s prev b.receipt_hash b.receipt_id r.advanced_at).1 refl
      where
        go :
            (o : Throws ChainState)
            → (store.advance s prev b.receipt_hash b.receipt_id r.advanced_at).1 ≡ o
            → IsAttempt prev.tenant_id (
                after_advance b
                  ((store.advance s prev b.receipt_hash b.receipt_id r.advanced_at).0, o))
        go (ok st) e = (s, committed s prev b st valid known mine built e)
        go (err x) e = elim (Bool-cases (is_conflict x)) [
          | inl race ↦
              rw race (laws.advance_valid s prev b.receipt_hash b.receipt_id r.advanced_at valid)
          | inr fault ↦ rw fault tt
        ]

    built-IsAttempt :
        (s : S) (prev : ChainState) (m : Throws Built)
        → IsFair r
        → IsValid s
        → IsKnown laws s prev
        → prev.tenant_id ≡ opts.event.tenant_id
        → build_signed_receipt p opts (head_of prev) r.id r.signed_at ≡ m
        → IsAttempt opts.event.tenant_id (after_build p store opts r s prev m)
    unfolding after_build
    built-IsAttempt s prev (err e) fair valid known mine built = tt
    built-IsAttempt s prev (ok b) fair valid known mine built =
        subst (λ t. IsAttempt t (after_build p store opts r s prev (ok b))) mine
          (advanced (r.others s) prev b (fair.keeps_valid s valid) (fair.keeps_known s prev known)
            mine built)

    attempt-IsAttempt :
        (s : S) → IsFair r → IsValid s → IsAttempt opts.event.tenant_id (attempt p store opts r s)
    unfolding attempt after_load
    attempt-IsAttempt s fair valid = go (store.load s opts.event.tenant_id r.loaded_at) refl
      where
        go :
            (m : Throws ChainState)
            → store.load s opts.event.tenant_id r.loaded_at ≡ m
            → IsAttempt opts.event.tenant_id (after_load p store opts r s m)
        go (err e) loaded = tt
        go (ok prev) loaded =
            built-IsAttempt s prev _ fair valid
              (load-IsKnown laws s opts.event.tenant_id r.loaded_at prev valid loaded)
              (laws.load_head s opts.event.tenant_id r.loaded_at prev valid loaded).0 refl

  settled-IsCommitted :
      (p : Platform) (opts : SignReceiptOptions) (left n : ℕ) (rounds : ℕ → Round S)
      (o : S × Outcome) (s' : S) (r : SignedReceipt)
      → ((k : ℕ) → IsFair (rounds k))
      → IsAttempt opts.event.tenant_id o
      → settled p store opts left n rounds o ≡ (s', ok r)
      → (before : S) × IsCommitted opts.event.tenant_id before s' r
  unfolding settled
  settled-IsCommitted p opts left n rounds (s, signed x) s' r fair (before, done) e =
      let same : s ≡ s' = ap (λ o. o.0) e in
      let this : x ≡ r = ok-injective (ok x) refl (ap (λ o. o.1) e) in
      (
        before,
        subst (λ r. IsCommitted opts.event.tenant_id before s' r) this
            (subst (λ s. IsCommitted opts.event.tenant_id before s x) same done),
      )
  settled-IsCommitted p opts left n rounds (s, thrown x) s' r fair h e = absurd (cc)
  settled-IsCommitted p opts zero n rounds (s, lost x) s' r fair h e = absurd (cc)
  settled-IsCommitted p opts (suc left) n rounds (s, lost x) s' r fair h e =
      settled-IsCommitted p opts left (n + 1) rounds _ s' r fair
        (attempt-IsAttempt p opts (rounds (n + 1)) s (fair (n + 1)) h) e

-- A receipt that signing against a compare-and-set store returns is on the tenant's chain: at one
-- moment it was written over the head it links to, at the next height, and it became the head, with
-- no other tenant's head changed; however many writers meddle between this one's steps, as long as
-- they keep the store valid and move no head back or sideways.
pub sign_receipt_with_store_commits :
    {S : Type 0} {store : ChainStateStore S} {IsValid : S → Type 0} {head : S → Text → Head}
    (laws : IsCasStore store IsValid head) (p : Platform) (opts : SignReceiptOptions)
    (max_retries : ℕ) (rounds : ℕ → Round S) (s s' : S) (r : SignedReceipt)
    → ((k : ℕ) → IsFair laws (rounds k))
    → IsValid s
    → sign_receipt_with_store p store opts max_retries rounds s ≡ (s', ok r)
    → (before : S) × IsCommitted laws opts.event.tenant_id before s' r
unfolding sign_receipt_with_store
sign_receipt_with_store_commits laws p opts max_retries rounds s s' r fair valid e =
    settled-IsCommitted laws p opts max_retries 0 rounds _ s' r fair
      (attempt-IsAttempt laws p opts (rounds 0) s (fair 0) valid) e
