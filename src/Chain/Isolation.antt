-- ===== src/Chain/Isolation.antt =====
-- One tenant's chain state and the files of the others.
use receipts_sdk.Prelude.{
  ◌≡◌, ◌≢◌, refl, ap, ap₂, or_else, Option, none, some, Option-cases, Text, text_eq_iff, inl, inr,
  arith,
}
use receipts_sdk.Prelude.Maps.{Map, get, put, get-put_self, get-put_ne}
use receipts_sdk.Types.{ChainState}
use receipts_sdk.Crypto.{Platform}
use receipts_sdk.Chain.{path_for, legacy_path_for, adopt, load_chain_state, save_chain_state}

-- Every file under a tenant's own name holds that tenant's state.
abbrev pub HoldsOwn : Platform → Map ChainState → Text → Type 0
HoldsOwn p files tenant =
    (state : ChainState) → get files (path_for p tenant) ≡ some state → state.tenant_id ≡ tenant

adopt-own :
    (prior : Option ChainState) (tenant now : Text) → (adopt prior tenant now).tenant_id ≡ tenant
unfolding adopt
adopt-own none tenant now = refl
adopt-own (some prior) tenant now = ground (arith, text_eq_iff prior.tenant_id tenant)

-- A load gives the tenant's own state, whatever the file under the old, ambiguous name holds, if
-- the file under the tenant's own name holds that tenant's state.
pub load_chain_state-own :
    (p : Platform) (files : Map ChainState) (tenant now : Text)
    → HoldsOwn p files tenant
    → (load_chain_state p files tenant now).tenant_id ≡ tenant
unfolding load_chain_state
load_chain_state-own p files tenant now own = elim (Option-cases (get files (path_for p tenant))) [
  | inl missing ↦
      rw (missing, load_chain_state) (adopt-own (get files (legacy_path_for tenant)) tenant now)
  | inr (state, found) ↦ rw (found, load_chain_state) (own state found)
]

-- A saved state is what its tenant loads next, and no other tenant's load changes, if that tenant
-- uses neither of its two file names.
load_chain_state-save_chain_state :
    (p : Platform) (files : Map ChainState) (state : ChainState) (tenant now : Text)
    → path_for p state.tenant_id ≢ path_for p tenant
    → path_for p state.tenant_id ≢ legacy_path_for tenant
    → (load_chain_state p (save_chain_state p files state) state.tenant_id now ≡ state)
      × (load_chain_state p (save_chain_state p files state) tenant now
          ≡ load_chain_state p files tenant now)
unfolding load_chain_state save_chain_state
load_chain_state-save_chain_state p files state tenant now apart legacy_apart = (
  ap
      (λ a. or_else a (
        adopt (get (put files (path_for p state.tenant_id) state) (legacy_path_for state.tenant_id))
          state.tenant_id now))
      (get-put_self files (path_for p state.tenant_id) state),
  ap₂ (λ a b. or_else a (adopt b tenant now))
      (get-put_ne files (path_for p state.tenant_id) (path_for p tenant) state apart)
      (get-put_ne files (path_for p state.tenant_id) (legacy_path_for tenant) state legacy_apart),
)
