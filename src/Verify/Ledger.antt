-- ===== src/Verify/Ledger.antt =====
-- verify.ts: verifyChain, the audit of a whole chain. The members come in any order and in any
-- shape.
pub mod Audited
use receipts_sdk.Prelude.{
  ℕ, ◌+◌, ◌^◌, ◌-◌, ◌≡◌, Bool, true, false, not, ◌&&◌, Option, none, some, is_some, or_else, List,
  [], ◌∷◌, ◌++◌, Text, text_eq, ◌==◌, leb, length, if◌then◌else◌,
}
use receipts_sdk.Prelude.Maps.{Map}
use receipts_sdk.Types.{Number, nat, neg, other, IntegrityBlock, genesis_hash}
use receipts_sdk.Crypto.{Platform}
use receipts_sdk.Signing.{max_safe_integer}
use receipts_sdk.Verify.{VerifyError, VerifyOptions, VerifyResult, verify_receipt}
use receipts_sdk.Verify.Shapes.{
  Dynamic, undefined, null, falsy, truthy, object, AnyReceipt, Envelope,
}

pub data ChainError : Type 0 where
  empty_chain : ChainError
  different_tenant : ℕ → ChainError
  failed : ℕ → List VerifyError → ChainError

pub record ChainVerifyResult : Type 0 where
  pub valid : Bool
  pub complete_from_genesis : Bool
  pub length : ℕ
  pub tenant_id : Option Text
  pub broken_at : Option ℕ
  pub errors : List ChainError

-- `v?.`: the fields of an object, and no field of anything else.
abbrev pub fields_of : {A : Type 0} → Dynamic A → Option A
fields_of (object a) = some a
fields_of undefined = none
fields_of null = none
fields_of falsy = none
fields_of truthy = none

abbrev pub receipt_in : Option Envelope → Option AnyReceipt
receipt_in none = none
receipt_in (some e) = fields_of e.receipt

-- `r?.receipt`
abbrev pub receipt_of : Dynamic Envelope → Option AnyReceipt
receipt_of e = receipt_in (fields_of e)

abbrev pub tenant_in : Option AnyReceipt → Option Text
tenant_in none = none
tenant_in (some r) = some r.body.tenant_id

-- `r?.receipt?.tenant_id`
unfoldable pub tenant_of : Dynamic Envelope → Option Text
tenant_of e = tenant_in (receipt_of e)

abbrev pub integrity_in : Option AnyReceipt → Dynamic IntegrityBlock
integrity_in none = undefined
integrity_in (some r) = r.integrity

-- `r?.receipt?.integrity`
unfoldable pub integrity_of : Dynamic Envelope → Dynamic IntegrityBlock
integrity_of e = integrity_in (receipt_of e)

-- A candidate predecessor counts if its `integrity` is truthy.
abbrev pub if_truthy : Dynamic IntegrityBlock → Option (Option IntegrityBlock)
if_truthy (object i) = some (some i)
if_truthy truthy = some none
if_truthy undefined = none
if_truthy null = none
if_truthy falsy = none

unfoldable pub predecessor_of : Dynamic Envelope → Option (Option IntegrityBlock)
predecessor_of e = if_truthy (integrity_of e)

-- `receipts.find(r => typeof r?.receipt?.tenant_id === "string")?.receipt.tenant_id ?? null`
unfoldable pub first_tenant : List (Dynamic Envelope) → Option Text
first_tenant [] = none
first_tenant (e ∷ es) = elim (tenant_of e) [ some t ↦ some t | none ↦ first_tenant es ]

-- A missing tenant is `undefined`, which equals neither a text nor null.
abbrev pub same_tenant : Option Text → Option Text → Bool
same_tenant (some a) (some b) = text_eq a b
same_tenant _ _ = false

abbrev pub starts_chain : Option IntegrityBlock → Bool
starts_chain none = false
starts_chain (some i) = elim i.chain_height [
  | nat n ↦ (n == 1) && text_eq i.previous_receipt_hash genesis_hash
  | _ ↦ false
]

abbrev pub or_first : Option ℕ → Option ℕ → Option ℕ
or_first none rest = rest
or_first (some i) rest = some i

-- One member of the audit: the index if it failed, and its errors.
pub record Finding : Type 0 where
  pub broken : Option ℕ
  pub errors : List ChainError

-- The order of `<` on finite JavaScript numbers, as the rank of a number among them; `none` for one
-- that is not finite.
module _ (p : Platform) (rank : Number → Option ℕ) where
  abbrev pub height_in : Dynamic IntegrityBlock → ℕ
  height_in d =
      let last = or_else (rank (nat max_safe_integer)) 0 in
      elim (fields_of d) [ some i ↦ or_else (rank i.chain_height) last | none ↦ last ]

  unfoldable pub height_of : Dynamic Envelope → ℕ
  height_of e = height_in (integrity_of e)

  unfoldable pub insert : Dynamic Envelope → List (Dynamic Envelope) → List (Dynamic Envelope)
  insert e [] = e ∷ []
  insert e (x ∷ xs) =
      let rest = insert e xs in if leb (height_of e) (height_of x) then e ∷ x ∷ xs else x ∷ rest

  -- `[...receipts].sort`, which is stable
  unfoldable pub in_height_order : List (Dynamic Envelope) → List (Dynamic Envelope)
  in_height_order [] = []
  in_height_order (e ∷ es) = insert e (in_height_order es)

  abbrev pub judge : ℕ → VerifyResult → Finding
  judge i res =
      if not res.valid
      then record { broken = some i; errors = failed i res.errors ∷ [] }
      else record { broken = none; errors = [] }

  unfoldable pub audit_one :
      Map Text → Option Text → ℕ → Option (Option IntegrityBlock) → Dynamic Envelope → Finding
  audit_one keys tenant i prev e =
      if not (same_tenant (tenant_of e) tenant)
      then record { broken = some i; errors = different_tenant i ∷ [] }
      else judge i (verify_receipt p e (record { public_keys = keys; previous_receipt = prev }))

  -- The loop, with the predecessor of the member at `i`.
  unfoldable pub audit :
      Map Text
      → Option Text
      → ℕ
      → Option (Option IntegrityBlock)
      → List (Dynamic Envelope)
      → Finding
  audit keys tenant i prev [] = record { broken = none; errors = [] }
  audit keys tenant i prev (e ∷ es) =
      let here = audit_one keys tenant i prev e in
      let rest = audit keys tenant (i + 1) (predecessor_of e) es in
      record { broken = or_first here.broken rest.broken; errors = here.errors ++ rest.errors }

  abbrev pub first_of : List (Dynamic Envelope) → Option IntegrityBlock
  first_of [] = none
  first_of (e ∷ es) = fields_of (integrity_of e)

  unfoldable pub verify_chain : List (Dynamic Envelope) → Map Text → ChainVerifyResult
  verify_chain [] keys = record {
    valid = false;
    complete_from_genesis = false;
    length = 0;
    tenant_id = none;
    broken_at = none;
    errors = empty_chain ∷ [];
  }
  verify_chain (e ∷ es) keys =
      let ordered = in_height_order (e ∷ es) in
      let tenant = first_tenant (e ∷ es) in
      let found = audit keys tenant 0 none ordered in
      record {
        valid = not (is_some found.broken);
        complete_from_genesis = starts_chain (first_of ordered);
        length = receipts_sdk.Prelude.length ordered;
        tenant_id = tenant;
        broken_at = found.broken;
        errors = found.errors;
      }
