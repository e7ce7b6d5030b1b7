-- ===== src/Signing/Ledger/Files.antt =====
-- What signing against the file store leaves.
use receipts_sdk.Prelude.{ℕ, ◌+◌, ◌≡◌, refl, sym, ap, ◌∙◌, Text, ok, err, ok-injective}
use receipts_sdk.Prelude.Maps.{Map, get-put_self}
use receipts_sdk.Errors.{Throws}
use receipts_sdk.Types.{nat, ChainState, SignedReceipt}
use receipts_sdk.Crypto.{Platform}
use receipts_sdk.Chain.{path_for, load_chain_state, save_chain_state, advance_chain}
use receipts_sdk.Chain.Isolation.{HoldsOwn, load_chain_state-own}
use receipts_sdk.ChainStore.{head_of}
use receipts_sdk.Signing.{SignReceiptOptions, Head, Built, build_signed_receipt}
use receipts_sdk.Signing.Builds.{build_signed_receipt-place}
use receipts_sdk.Signing.Ledger.{sign_receipt, save_built}

abbrev above_with : ℕ → Text → Head
above_with n hash = record { previous_receipt_hash = hash; chain_height = n + 1 }

module _ (p : Platform) where
  loads_saved :
      (files : Map ChainState) (state : ChainState) (now : Text)
      → load_chain_state p (save_chain_state p files state) state.tenant_id now ≡ state
  unfolding load_chain_state save_chain_state
  loads_saved files state now = rw (get-put_self files (path_for p state.tenant_id) state) refl

  -- The receipt extends the state that was loaded, and its tenant loads it as the head next.
  abbrev pub IsExtended :
      Map ChainState → Map ChainState → Text → Text → SignedReceipt → Text → Type 0
  IsExtended before after tenant then r now =
      (r.receipt.tenant_id ≡ tenant)
      × (r.receipt.integrity.previous_receipt_hash
          ≡ (load_chain_state p before tenant then).previous_receipt_hash)
      × (r.receipt.integrity.chain_height
          ≡ nat ((load_chain_state p before tenant then).chain_height + 1))
      × (head_of (load_chain_state p after tenant now) ≡ record {
        previous_receipt_hash = r.receipt.integrity.receipt_hash;
        chain_height = (load_chain_state p before tenant then).chain_height + 1;
      })

  saved-IsExtended :
      (files files' : Map ChainState) (opts : SignReceiptOptions)
      (id loaded_at signed_at saved_at now : Text) (m : Throws Built) (r : SignedReceipt)
      → (load_chain_state p files opts.event.tenant_id loaded_at).tenant_id ≡ opts.event.tenant_id
      → build_signed_receipt p opts
          (head_of (load_chain_state p files opts.event.tenant_id loaded_at))
          id
          signed_at
        ≡ m
      → save_built p files (load_chain_state p files opts.event.tenant_id loaded_at) saved_at m
        ≡ (files', ok r)
      → IsExtended files files' opts.event.tenant_id loaded_at r now
  unfolding save_built advance_chain
  saved-IsExtended files files' opts id loaded_at signed_at saved_at now (err e) r own built h =
      absurd (cc)
  saved-IsExtended files files' opts id loaded_at signed_at saved_at now (ok b) r own built h =
      let prev = load_chain_state p files opts.event.tenant_id loaded_at in
      let (link, above, hash, owner) =
        build_signed_receipt-place p opts (head_of prev) id signed_at built in
      let this : b.signed ≡ r = ok-injective (ok b.signed) refl (ap (λ o. o.1) h) in
      let next = advance_chain prev b.receipt_hash b.receipt_id saved_at in
      let head : head_of (load_chain_state p files' prev.tenant_id now) ≡ head_of next =
        ap (λ f. head_of (load_chain_state p f prev.tenant_id now)) (sym (ap (λ o. o.0) h))
        ∙ ap head_of (loads_saved files next now) in
      (
        ap (λ (r : SignedReceipt). r.receipt.tenant_id) (sym this) ∙ owner,
        ap (λ (r : SignedReceipt). r.receipt.integrity.previous_receipt_hash) (sym this) ∙ link,
        ap (λ (r : SignedReceipt). r.receipt.integrity.chain_height) (sym this) ∙ above,
        ap (λ t. head_of (load_chain_state p files' t now)) (sym own)
            ∙ head
            ∙ ap (above_with prev.chain_height)
                (sym hash ∙ ap (λ (r : SignedReceipt). r.receipt.integrity.receipt_hash) this),
      )

-- If the tenant's file, where there is one, holds a state of that tenant, a receipt that signing
-- against the file store returns links to the state that its tenant had loaded, at the next height,
-- and is the head that the tenant loads next.
pub sign_receipt_extends :
    (p : Platform) (files files' : Map ChainState) (opts : SignReceiptOptions)
    (id loaded_at signed_at saved_at now : Text) (r : SignedReceipt)
    → HoldsOwn p files opts.event.tenant_id
    → sign_receipt p files opts id loaded_at signed_at saved_at ≡ (files', ok r)
    → IsExtended p files files' opts.event.tenant_id loaded_at r now
unfolding sign_receipt
sign_receipt_extends p files files' opts id loaded_at signed_at saved_at now r holds h =
    saved-IsExtended p files files' opts id loaded_at signed_at saved_at now _ r
      (load_chain_state-own p files opts.event.tenant_id loaded_at holds) refl h
