-- ===== src/Signing/Ledger.antt =====
-- receipt.ts: the two ways to sign a receipt onto a chain.
pub mod Commits
pub mod Retries
pub mod Files
use receipts_sdk.Prelude.{
  ℕ, zero, suc, ◌+◌, Text, Result, ok, err, Bool, true, false, if◌then◌else◌, List, [], ◌∷◌,
}
use receipts_sdk.Prelude.Maps.{Map}
use receipts_sdk.Errors.{Throws, Error, concurrent_chain_write}
use receipts_sdk.Types.{ChainState, SignedReceipt}
use receipts_sdk.Crypto.{Platform}
use receipts_sdk.Chain.{load_chain_state, advance_chain, save_chain_state}
use receipts_sdk.ChainStore.{ChainStateStore, head_of}
use receipts_sdk.Signing.{SignReceiptOptions, Built, build_signed_receipt}

-- What the surroundings give to one attempt: the new id, the times, and what other writers do to
-- the store between this writer's load and its advance.
pub record Round (S : Type 0) : Type 0 where
  pub id : Text
  pub loaded_at : Text
  pub signed_at : Text
  pub advanced_at : Text
  pub others : S → S

-- How an attempt ends: a receipt, a lost race, or another error, which is thrown on.
pub data Outcome : Type 0 where
  signed : SignedReceipt → Outcome
  lost : Error → Outcome
  thrown : Error → Outcome

abbrev pub is_conflict : Error → Bool
is_conflict (concurrent_chain_write t n) = true
is_conflict _ = false

abbrev pub after_advance : {S : Type 0} → Built → S × Throws ChainState → S × Outcome
after_advance b (s, ok st) = (s, signed b.signed)
after_advance b (s, err e) = (s, if is_conflict e then lost e else thrown e)

module _ (p : Platform) where
  -- The file store: load, build, save, with a reading of the clock for each.
  unfoldable pub save_built :
      Map ChainState → ChainState → Text → Throws Built → Map ChainState × Throws SignedReceipt
  save_built files prev now (err e) = (files, err e)
  save_built files prev now (ok b) =
      (save_chain_state p files (advance_chain prev b.receipt_hash b.receipt_id now), ok b.signed)

  unfoldable pub sign_receipt :
      Map ChainState
      → SignReceiptOptions
      → Text
      → Text
      → Text
      → Text
      → Map ChainState × Throws SignedReceipt
  unfolding save_built
  sign_receipt files opts id loaded_at signed_at saved_at =
      let prev = load_chain_state p files opts.event.tenant_id loaded_at in
      save_built files prev saved_at (build_signed_receipt p opts (head_of prev) id signed_at)

  module _ {S : Type 0} (store : ChainStateStore S) (opts : SignReceiptOptions) where
    unfoldable pub after_build : Round S → S → ChainState → Throws Built → S × Outcome
    after_build r s prev (err e) = (s, thrown e)
    after_build r s prev (ok b) =
        after_advance b (store.advance (r.others s) prev b.receipt_hash b.receipt_id r.advanced_at)

    unfoldable pub after_load : Round S → S → Throws ChainState → S × Outcome
    after_load r s (err e) = (s, thrown e)
    after_load r s (ok prev) =
        after_build r s prev (build_signed_receipt p opts (head_of prev) r.id r.signed_at)

    -- The body of the loop.
    unfoldable pub attempt : Round S → S → S × Outcome
    unfolding after_load after_build
    attempt r s = after_load r s (store.load s opts.event.tenant_id r.loaded_at)

    -- The loop from the end of round `n`, with so many retries left.
    unfoldable pub settled : ℕ → ℕ → (ℕ → Round S) → S × Outcome → S × Throws SignedReceipt
    settled left n rounds (s, signed r) = (s, ok r)
    settled left n rounds (s, thrown e) = (s, err e)
    settled zero n rounds (s, lost e) = (s, err e)
    settled (suc left) n rounds (s, lost e) =
        settled left (n + 1) rounds (attempt (rounds (n + 1)) s)

    -- `maxRetries` is 8 unless the caller says otherwise.
    unfoldable pub sign_receipt_with_store : ℕ → (ℕ → Round S) → S → S × Throws SignedReceipt
    sign_receipt_with_store max_retries rounds s =
        settled max_retries 0 rounds (attempt (rounds 0) s)
