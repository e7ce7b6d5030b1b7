-- ===== src/ChainStore/Outcomes.antt =====
-- Stores of one row for each tenant: an advance that writes the next row or nothing keeps the
-- promises of a compare-and-set store.
use receipts_sdk.Prelude.{
  ◌+◌, ◌≡◌, ◌≢◌, ◌≤◌, sym, ap, ◌∙◌, Bool-cases, inl, inr, ◌⊎◌, Option, none, some, Text, text_eq,
  text_eq_iff, arith, ok,
}
use mathlib.Core.Path.{subst}
use receipts_sdk.Prelude.Maps.{Map, get, put, get-put, get-put_self, get-put_ne}
use receipts_sdk.Errors.{Throws}
use receipts_sdk.Types.{ChainState, genesis_hash}
use receipts_sdk.Signing.{Head}
use receipts_sdk.ChainStore.{head_of}
use receipts_sdk.ChainStore.Memory.{next_of}

-- The head of a tenant: that of its row, or genesis.
abbrev pub entry_head : Option ChainState → Head
entry_head none = record { previous_receipt_hash = genesis_hash; chain_height = 0 }
entry_head (some st) = head_of st

abbrev pub map_head : Map ChainState → Text → Head
map_head m tenant = entry_head (get m tenant)

-- Every row stands under its own tenant.
abbrev pub IsKeyed : Map ChainState → Type 0
IsKeyed m = (tenant : Text) (st : ChainState) → get m tenant ≡ some st → st.tenant_id ≡ tenant

put-IsKeyed : (m : Map ChainState) (st : ChainState) → IsKeyed m → IsKeyed (put m st.tenant_id st)
put-IsKeyed m st keyed tenant st' e = elim (Bool-cases (text_eq st.tenant_id tenant)) [
  | inl same ↦ ground (arith, get-put m st.tenant_id tenant st, text_eq_iff st.tenant_id tenant)
  | inr other ↦ keyed tenant st' (ground (arith, get-put m st.tenant_id tenant st))
]

module _ (m : Map ChainState) (prev : ChainState) (hash id now : Text) where
  -- The next row was written over the head that was loaded, or nothing was.
  abbrev pub IsOutcome : Map ChainState × Throws ChainState → Type 0
  IsOutcome r =
      ((prev.chain_height ≤ (map_head m prev.tenant_id).chain_height
          → (map_head m prev.tenant_id).chain_height ≡ prev.chain_height)
        × (r.0 ≡ put m prev.tenant_id (next_of prev hash id now)))
      ⊎ ((r.0 ≡ m) × ((st : ChainState) → r.1 ≢ ok st))

  module _ (r : Map ChainState × Throws ChainState) where
    pub IsOutcome-IsKeyed : IsOutcome r → IsKeyed m → IsKeyed r.0
    IsOutcome-IsKeyed (inl (_, written)) keyed =
        subst IsKeyed (sym written) (put-IsKeyed m (next_of prev hash id now) keyed)
    IsOutcome-IsKeyed (inr (same, _)) keyed = subst IsKeyed (sym same) keyed

    pub IsOutcome-ok :
        (st : ChainState)
        → IsOutcome r
        → prev.chain_height ≤ (map_head m prev.tenant_id).chain_height
        → r.1 ≡ ok st
        → ((map_head m prev.tenant_id).chain_height ≡ prev.chain_height)
          × (map_head r.0 prev.tenant_id
              ≡ record { previous_receipt_hash = hash; chain_height = prev.chain_height + 1 })
          × ((other : Text) → prev.tenant_id ≢ other → map_head r.0 other ≡ map_head m other)
    IsOutcome-ok st (inl (loaded, written)) behind e = (
      loaded behind,
      ap (λ t. map_head t prev.tenant_id) written
          ∙ ap entry_head (get-put_self m prev.tenant_id (next_of prev hash id now)),
      λ other apart.
          ap (λ t. map_head t other) written
          ∙ ap entry_head (get-put_ne m prev.tenant_id other (next_of prev hash id now) apart),
    )
    IsOutcome-ok st (inr (same, failed)) behind e = absurd (failed st e)
