-- ===== src/Signing/Ledger/Retries.antt =====
-- Retries against the memory store end once no other writer interferes.
use receipts_sdk.Prelude.{
  ℕ, zero, suc, ◌+◌, ◌≡◌, ◌≤◌, ◌<◌, refl, ap, ◌∙◌, ◌⊎◌, inl, inr, true, false, Bool-cases,
  Option-cases, Text, arith, ok,
}
use native.Mathlib.Decide.{ℕ_discrete}
use receipts_sdk.Prelude.Maps.{Map, get, put}
use receipts_sdk.Errors.{Error, concurrent_chain_write}
use receipts_sdk.Types.{ChainState, SignedReceipt}
use receipts_sdk.Crypto.{Platform}
use receipts_sdk.Signing.{SignReceiptOptions, Built, build_signed_receipt}
use receipts_sdk.ChainStore.{head_of}
use receipts_sdk.ChainStore.Memory.{
  memory_store, memory_load, memory_advance, moved, commit, observed, next_of,
}
use receipts_sdk.ChainStore.Outcomes.{IsKeyed}
use receipts_sdk.Signing.Ledger.{
  Round, signed, lost, after_advance, after_build, after_load, attempt, settled,
  sign_receipt_with_store,
}

-- A head that was loaded has not moved.
unmoved :
    (m : Map ChainState) (tenant now : Text)
    → IsKeyed m
    → moved (get m (memory_load m tenant now).tenant_id) (memory_load m tenant now) ≡ false
unfolding moved memory_load
unmoved m tenant now keyed = elim (Option-cases (get m tenant)) [
  | inl missing ↦ rw (missing, missing) refl
  | inr (st, present) ↦ rw (present, keyed tenant st present, present) (ground arith)
]

-- An attempt returns a receipt or loses the race.
advanced :
    (m : Map ChainState) (prev : ChainState) (b : Built) (hash id now : Text)
    → ((r : SignedReceipt) × (s : Map ChainState) × (after_advance b
            (memory_advance m prev hash id now)
          ≡ (s, signed r)))
      ⊎ ((e : Error) × (moved (get m prev.tenant_id) prev ≡ true)
          × (after_advance b (memory_advance m prev hash id now) ≡ (m, lost e)))
unfolding memory_advance commit
advanced m prev b hash id now = elim (Bool-cases (moved (get m prev.tenant_id) prev)) [
  | inl race ↦
      inr (
        concurrent_chain_write prev.tenant_id (observed (get m prev.tenant_id)),
        race,
        rw race refl,
      )
  | inr still ↦ inl (b.signed, put m prev.tenant_id (next_of prev hash id now), rw still refl)
]

-- A condition on the store that other writers keep, and under which the event, the keys and the
-- content pass every check at the head that is loaded.
pub record IsSignable (p : Platform) (opts : SignReceiptOptions)
    (rounds : ℕ → Round (Map ChainState)) (holds : Map ChainState → Type 0) : Type 0 where
  pub keyed : (m : Map ChainState) → holds m → IsKeyed m
  pub kept : (k : ℕ) (m : Map ChainState) → holds m → holds ((rounds k).others m)
  pub builds :
      (k : ℕ) (m : Map ChainState)
      → holds m
      → (b : Built) × (build_signed_receipt p opts
            (head_of (memory_load m opts.event.tenant_id (rounds k).loaded_at))
            (rounds k).id
            (rounds k).signed_at
          ≡ ok b)

module _ (p : Platform) (opts : SignReceiptOptions) (rounds : ℕ → Round (Map ChainState))
    (holds : Map ChainState → Type 0) (signable : IsSignable p opts rounds holds) where
  attempted :
      (k : ℕ) (m : Map ChainState)
      → holds m
      → ((x : SignedReceipt) × (s : Map ChainState) × (attempt p memory_store opts (rounds k) m
            ≡ (s, signed x)))
        ⊎ ((e : Error) × (moved
                (get
                  ((rounds k).others m)
                  (memory_load m opts.event.tenant_id (rounds k).loaded_at).tenant_id)
                (memory_load m opts.event.tenant_id (rounds k).loaded_at)
              ≡ true)
            × (attempt p memory_store opts (rounds k) m ≡ ((rounds k).others m, lost e)))
  unfolding attempt after_load after_build
  attempted k m h =
      let (b, built) = signable.builds k m h in
      rw built (
        advanced ((rounds k).others m) (memory_load m opts.event.tenant_id (rounds k).loaded_at) b
          b.receipt_hash b.receipt_id (rounds k).advanced_at)

  module _ (last : ℕ) (alone : (m : Map ChainState) → (rounds last).others m ≡ m) where
    -- The race is lost only before the round in which nobody interferes.
    lost_early :
        (n : ℕ) (m : Map ChainState)
        → n ≤ last
        → holds m
        → moved
            (get
              ((rounds n).others m)
              (memory_load m opts.event.tenant_id (rounds n).loaded_at).tenant_id)
            (memory_load m opts.event.tenant_id (rounds n).loaded_at)
          ≡ true
        → n < last
    lost_early n m from h race = elim (ℕ_discrete n last) [
      | yes here ↦
          let still = unmoved m opts.event.tenant_id (rounds n).loaded_at (signable.keyed m h) in
          let same : (rounds n).others m ≡ m = ap (λ k. (rounds k).others m) here ∙ alone m in
          absurd (ground (arith, still, rw same at race))
      | no earlier ↦ omega (arith, earlier)
    ]

    -- The loop, from a round that is not after that one.
    settled_ends :
        (left n : ℕ) (m : Map ChainState)
        → n ≤ last
        → last ≤ n + left
        → holds m
        → (r : SignedReceipt) × (s : Map ChainState) × (settled p memory_store opts left n rounds
              (attempt p memory_store opts (rounds n) m)
            ≡ (s, ok r))
    unfolding settled
    settled_ends zero n m from to h = elim (attempted n m h) [
      | inl (x, s, won) ↦ (x, s, rw won refl)
      | inr (e, race, over) ↦ absurd (omega (arith, lost_early n m from h race))
    ]
    settled_ends (suc left) n m from to h = elim (attempted n m h) [
      | inl (x, s, won) ↦ (x, s, rw won refl)
      | inr (e, race, over) ↦ rw over (
          settled_ends left (n + 1) ((rounds n).others m)
            (omega (arith, lost_early n m from h race)) (omega arith) (signable.kept n m h))
    ]

-- Signing against the memory store returns a receipt, if in some round within the retries nobody
-- else writes and if a condition that the store meets, and that other writers keep, has each row
-- under its tenant and lets the receipt be built at the head that is loaded.
pub sign_receipt_with_store_ends :
    (p : Platform) (opts : SignReceiptOptions) (rounds : ℕ → Round (Map ChainState))
    (holds : Map ChainState → Type 0) (max_retries last : ℕ) (m : Map ChainState)
    → IsSignable p opts rounds holds
    → ((m : Map ChainState) → (rounds last).others m ≡ m)
    → last ≤ max_retries
    → holds m
    → (r : SignedReceipt) × (s : Map ChainState) × (sign_receipt_with_store p memory_store opts
          max_retries rounds m
        ≡ (s, ok r))
unfolding sign_receipt_with_store
sign_receipt_with_store_ends p opts rounds holds max_retries last m signable alone within h =
    settled_ends p opts rounds holds signable last alone max_retries 0 m (omega arith) (omega arith)
      h
