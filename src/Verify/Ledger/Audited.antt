-- ===== src/Verify/Ledger/Audited.antt =====
-- What a chain that verifyChain accepts shows.
use mathlib.Core.List.{Perm}
use mathlib.Core.List.Perm
use receipts_sdk.Prelude.{
  ℕ, zero, suc, ◌+◌, ◌^◌, ◌<◌, ◌≡◌, refl, sym, ap, ◌∙◌, inl, inr, true, not, &&-eq-true, Bool-cases,
  Option, none, some, is_some, List, [], ◌∷◌, get_elem?, Text, text_eq_iff, leb, arith, ok,
  >>=-eq-ok, ok-injective,
}
use receipts_sdk.Prelude.Maps.{Map}
use receipts_sdk.Types.{Number, nat, neg, other, IntegrityBlock, SignedReceipt, genesis_hash}
use receipts_sdk.Crypto.{Platform}
use receipts_sdk.Verify.{verify_receipt}
use receipts_sdk.Verify.Evidence.{IsEvidence, IsAbove, verify_receipt_sound}
use receipts_sdk.Verify.Shapes.{
  Dynamic, undefined, null, falsy, truthy, object, Envelope, ShapeError, opened, object_or,
  all_objects, tokens, not_an_object, no_receipt, no_integrity, no_signatures,
}
use receipts_sdk.Verify.Ledger.{
  height_of, insert, in_height_order, audit_one, audit, verify_chain, tenant_of, integrity_of,
  predecessor_of, first_tenant, starts_chain, same_tenant, or_first, first_of,
}

object_or-eq-ok :
    {A : Type 0} (e : ShapeError) (d : Dynamic A) {a : A} → object_or e d ≡ ok a → d ≡ object a
object_or-eq-ok e (object b) h = ap (λ x. object x) (ok-injective (ok b) refl h)
object_or-eq-ok e undefined h = absurd (cc)
object_or-eq-ok e null h = absurd (cc)
object_or-eq-ok e falsy h = absurd (cc)
object_or-eq-ok e truthy h = absurd (cc)

-- The audit reads the integrity block and the tenant of a well-formed member.
opened-fields :
    (d : Dynamic Envelope) (s : SignedReceipt)
    → opened d ≡ ok s
    → (integrity_of d ≡ object s.receipt.integrity) × (tenant_of d ≡ some s.receipt.tenant_id)
unfolding opened integrity_of tenant_of
opened-fields d s h =
    let (e, is_e, h1) = >>=-eq-ok (object_or not_an_object d) _ h in
    let (r, is_r, h2) = >>=-eq-ok (object_or no_receipt e.receipt) _ h1 in
    let (i, is_i, h3) = >>=-eq-ok (object_or no_integrity r.integrity) _ h2 in
    let (sigs, _, h4) = >>=-eq-ok (object_or no_signatures e.signatures) _ h3 in
    let (each, _, h5) = >>=-eq-ok (all_objects sigs) _ h4 in
    let (ts, _, h6) = >>=-eq-ok (tokens e.timestamps) _ h5 in
    let same = ok-injective (ok _) refl h6 in
    let is_d = object_or-eq-ok _ d is_e in
    let has_r = object_or-eq-ok _ e.receipt is_r in
    let has_i = object_or-eq-ok _ r.integrity is_i in
    (
      rw (is_d, has_r, has_i) (ap (λ (s : SignedReceipt). object s.receipt.integrity) same),
      rw (is_d, has_r) (ap (λ (s : SignedReceipt). some s.receipt.tenant_id) same),
    )

module _ (p : Platform) (keys : Map Text) where
  -- Each member is well formed, of the tenant, accepted, and above the one before it.
  pub data IsAudited (tenant : Text)
      : Option (Option IntegrityBlock) → List (Dynamic Envelope) → Type 0 where
    done : {prev : Option (Option IntegrityBlock)} → IsAudited tenant prev []
    next :
        {prev : Option (Option IntegrityBlock)} {e : Dynamic Envelope}
        {es : List (Dynamic Envelope)}
        → (s : SignedReceipt) → opened e ≡ ok s
        → s.receipt.tenant_id ≡ tenant
        → IsEvidence p (record { public_keys = keys; previous_receipt = prev }) s
        → IsAudited tenant (some (some s.receipt.integrity)) es
        → IsAudited tenant prev (e ∷ es)

  same_tenant_eq :
      (a b : Option Text) → same_tenant a b ≡ true → (t : Text) × (a ≡ some t) × (b ≡ some t)
  same_tenant_eq (some a) (some b) h = (a, refl, ap (λ x. some x) (sym ((text_eq_iff a b).0 h)))
  same_tenant_eq (some a) none h = absurd (cc)
  same_tenant_eq none b h = absurd (cc)

  module _ (rank : Number → Option ℕ) where
    audit_one_sound :
        (tenant : Option Text) (i : ℕ) (prev : Option (Option IntegrityBlock))
        (e : Dynamic Envelope)
        → (audit_one p rank keys tenant i prev e).broken ≡ none
        → (t : Text) × (tenant ≡ some t)
          × (tenant_of e ≡ some t)
          × ((verify_receipt p e (record { public_keys = keys; previous_receipt = prev })).valid
              ≡ true)
    unfolding audit_one
    audit_one_sound tenant i prev e h = elim (Bool-cases (same_tenant (tenant_of e) tenant)) [
      | inl same ↦
          let (t, mine, all) = same_tenant_eq _ _ same in
          elim (Bool-cases
            (verify_receipt p e (record { public_keys = keys; previous_receipt = prev })).valid) [
              | inl valid ↦ (t, all, mine, valid)
              | inr invalid ↦ absurd (ground (arith, same, invalid, h))
            ]
      | inr apart ↦ absurd (ground (arith, apart, h))
    ]

    or_first-none : (a b : Option ℕ) → or_first a b ≡ none → (a ≡ none) × (b ≡ none)
    or_first-none none b h = (refl, h)
    or_first-none (some i) b h = absurd (cc)

    audit-IsAudited :
        (tenant : Text) (i : ℕ) (prev : Option (Option IntegrityBlock))
        (es : List (Dynamic Envelope))
        → (audit p rank keys (some tenant) i prev es).broken ≡ none
        → IsAudited tenant prev es
    unfolding audit predecessor_of
    audit-IsAudited tenant i prev [] h = done
    audit-IsAudited tenant i prev (e ∷ es) h =
        let (here, rest) = or_first-none _ _ h in
        let (t, is_tenant, mine, valid) = audit_one_sound (some tenant) i prev e here in
        let (s, at, evidence) = verify_receipt_sound p e _ valid in
        let (integrity, owner) = opened-fields e s at in
        next s at (ground (arith, owner, mine, is_tenant)) evidence (
          audit-IsAudited tenant (i + 1) (some (some s.receipt.integrity)) es
            (rw integrity at rest))

    insert-Perm :
        (e : Dynamic Envelope) (es : List (Dynamic Envelope)) → Perm (e ∷ es) (insert p rank e es)
    unfolding insert
    insert-Perm e [] = Perm.refl (e ∷ [])
    insert-Perm e (x ∷ xs) = elim (Bool-cases (leb (height_of p rank e) (height_of p rank x))) [
      | inl first ↦ rw first (Perm.refl _)
      | inr later ↦ rw later (Perm.trans (Perm.swap x e xs) (Perm.cons x (insert-Perm e xs)))
    ]

    in_height_order-Perm : (es : List (Dynamic Envelope)) → Perm es (in_height_order p rank es)
    unfolding in_height_order
    in_height_order-Perm [] = Perm.refl []
    in_height_order-Perm (e ∷ es) =
        Perm.trans (Perm.cons e (in_height_order-Perm es))
          (insert-Perm e (in_height_order p rank es))

    insert_nonempty :
        (e : Dynamic Envelope) (es : List (Dynamic Envelope))
        → (x : Dynamic Envelope) × (xs : List (Dynamic Envelope)) × (insert p rank e es ≡ x ∷ xs)
    unfolding insert
    insert_nonempty e [] = (e, [], refl)
    insert_nonempty e (x ∷ xs) = elim (Bool-cases (leb (height_of p rank e) (height_of p rank x))) [
      | inl first ↦ (e, x ∷ xs, rw first refl)
      | inr later ↦ (x, insert p rank e xs, rw later refl)
    ]

    tenant_found :
        (tenant : Option Text) (x : Dynamic Envelope) (xs : List (Dynamic Envelope))
        → (audit p rank keys tenant 0 none (x ∷ xs)).broken ≡ none
        → (t : Text) × (tenant ≡ some t)
    unfolding audit
    tenant_found tenant x xs h =
        let (here, rest) = or_first-none _ _ h in
        let (t, is_tenant, mine, valid) = audit_one_sound tenant 0 none x here in (t, is_tenant)

    unbroken : (o : Option ℕ) → not (is_some o) ≡ true → o ≡ none
    unbroken none h = refl
    unbroken (some i) h = absurd (cc)

    verify_chain-IsAudited :
        (es : List (Dynamic Envelope))
        → (verify_chain p rank es keys).valid ≡ true
        → (tenant : Text) × ((verify_chain p rank es keys).tenant_id ≡ some tenant)
          × IsAudited tenant none (in_height_order p rank es)
    unfolding verify_chain in_height_order
    verify_chain-IsAudited [] h = absurd (cc)
    verify_chain-IsAudited (e ∷ es) h =
        let whole = unbroken _ h in
        let (x, xs, shape) = insert_nonempty e (in_height_order p rank es) in
        let (t, is_tenant) = tenant_found (first_tenant (e ∷ es)) x xs (rw shape at whole) in
        (
          t,
          is_tenant,
          audit-IsAudited t 0 none (in_height_order p rank (e ∷ es)) (rw is_tenant at whole),
        )

  above_small :
      (height n : ℕ) (number : Number)
      → IsAbove p height number
      → number ≡ nat n
      → n < 2 ^ 53
      → height ≡ n + 1
  above_small height n number (inl (k, at, inl (le, up))) is small =
      let same : nat k ≡ nat n = sym at ∙ is in
      let k_eq : k ≡ n = cc same in omega (arith, up, k_eq)
  above_small height n number (inl (k, at, inr (le, up))) is small =
      let same : nat k ≡ nat n = sym at ∙ is in
      let k_eq : k ≡ n = cc same in absurd (omega (arith, le, small, k_eq))
  above_small height n number (inr (t, at, rounded)) is small =
      let same : other t ≡ nat n = sym at ∙ is in absurd (cc same)

  -- The member at an index of an audited chain, above a predecessor of height `n`.
  member_height :
      (tenant : Text) (n i : ℕ) (prev : IntegrityBlock) (es : List (Dynamic Envelope))
      {d : Dynamic Envelope}
      → IsAudited tenant (some (some prev)) es
      → prev.chain_height ≡ nat n
      → n + i < 2 ^ 53
      → get_elem? es i ≡ some d
      → (s : SignedReceipt) × (opened d ≡ ok s)
        × (s.receipt.tenant_id ≡ tenant)
        × (s.receipt.integrity.chain_height ≡ nat (n + i + 1))
  member_height tenant n i prev [] audited at small h = absurd (cc)
  member_height tenant n zero prev (e ∷ es) (next s read mine evidence rest) at small h =
      let (height, is_height, (_, above)) = evidence.2 in
      let up = above_small (suc height) n prev.chain_height above at (omega (arith, small)) in
      (s, ap opened (sym (ground (arith, h))) ∙ read, mine, is_height ∙ ap nat (omega (arith, up)))
  member_height tenant n (suc i) prev (e ∷ es) (next s read mine evidence rest) at small h =
      let (height, is_height, (_, above)) = evidence.2 in
      let up = above_small (suc height) n prev.chain_height above at (omega (arith, small)) in
      let here : s.receipt.integrity.chain_height ≡ nat (n + 1) =
        is_height ∙ ap nat (omega (arith, up)) in
      let (s', read', mine', at') =
        member_height tenant (n + 1) i s.receipt.integrity es rest here (omega (arith, small)) h in
      (s', read', mine', at' ∙ ap nat (omega arith))

  -- The first member, if the chain starts at genesis.
  starts_at_genesis :
      (b : IntegrityBlock)
      → starts_chain (some b) ≡ true
      → (b.chain_height ≡ nat 1) × (b.previous_receipt_hash ≡ genesis_hash)
  starts_at_genesis b h =
      elim b.chain_height
          as (λ n.
            starts_chain (some (record b { chain_height = n })) ≡ true
            → (n ≡ nat 1) × (b.previous_receipt_hash ≡ genesis_hash)) [
              | nat n ↦ λ h.
                  let (one, genesis) = &&-eq-true _ _ h in
                  (ap nat (ground arith), (text_eq_iff _ _).0 genesis)
              | neg n ↦ λ h. absurd (cc)
              | other t ↦ λ h. absurd (cc)
            ]
        h

  genesis_height :
      (tenant : Text) (i : ℕ) (es : List (Dynamic Envelope)) {d : Dynamic Envelope}
      → i < 2 ^ 32
      → IsAudited tenant none es
      → starts_chain (first_of p (λ _. none) es) ≡ true
      → get_elem? es i ≡ some d
      → (s : SignedReceipt) × (opened d ≡ ok s)
        × (s.receipt.tenant_id ≡ tenant)
        × (s.receipt.integrity.chain_height ≡ nat (i + 1))
  genesis_height tenant i [] small audited starts h = absurd (cc)
  genesis_height tenant zero (e ∷ es) small (next s read mine evidence rest) starts h =
      let (integrity, owner) = opened-fields e s read in
      (
        s,
        ap opened (sym (ground (arith, h))) ∙ read,
        mine,
        (starts_at_genesis s.receipt.integrity (rw integrity at starts)).0,
      )
  genesis_height tenant (suc i) (e ∷ es) small (next s read mine evidence rest) starts h =
      let (integrity, owner) = opened-fields e s read in
      let (s', read', mine', at') =
        member_height tenant 1 i s.receipt.integrity es rest
          (starts_at_genesis s.receipt.integrity (rw integrity at starts)).0 (omega (arith, small))
          h in
      (s', read', mine', at' ∙ ap nat (omega arith))

-- A chain that is accepted has one tenant, and in height order, which drops and adds no member,
-- each member is well formed, of that tenant, hashed and signed as verifyReceipt asks, carries the
-- hash of the one before it, and stands directly above it if that one's height is below 2 ^ 53; from
-- 2 ^ 53 on, where the sum is rounded, its height is that of the one before it or two above it.
pub verify_chain_sound :
    (p : Platform) (rank : Number → Option ℕ) (keys : Map Text) (es : List (Dynamic Envelope))
    → (verify_chain p rank es keys).valid ≡ true
    → (tenant : Text) × ((verify_chain p rank es keys).tenant_id ≡ some tenant)
      × Perm es (in_height_order p rank es)
      × IsAudited p keys tenant none (in_height_order p rank es)
verify_chain_sound p rank keys es valid =
    let (tenant, is_tenant, audited) = verify_chain-IsAudited p keys rank es valid in
    (tenant, is_tenant, in_height_order-Perm p keys rank es, audited)

-- A chain that is accepted as complete from genesis has exactly the heights 1, 2, ...: in height
-- order, the member at an index i, which is below 2 ^ 32 as any index of an array, is a well-formed
-- receipt of the tenant at height i + 1.
pub verify_chain_complete :
    (p : Platform) (rank : Number → Option ℕ) (keys : Map Text) (es : List (Dynamic Envelope))
    (i : ℕ) (d : Dynamic Envelope)
    → i < 2 ^ 32
    → (verify_chain p rank es keys).valid ≡ true
    → (verify_chain p rank es keys).complete_from_genesis ≡ true
    → get_elem? (in_height_order p rank es) i ≡ some d
    → (s : SignedReceipt) × (opened d ≡ ok s)
      × ((verify_chain p rank es keys).tenant_id ≡ some s.receipt.tenant_id)
      × (s.receipt.integrity.chain_height ≡ nat (i + 1))
unfolding verify_chain
verify_chain_complete p rank keys [] i d small valid complete h = absurd (cc)
verify_chain_complete p rank keys (e ∷ es) i d small valid complete h =
    let (tenant, is_tenant, audited) = verify_chain-IsAudited p keys rank (e ∷ es) valid in
    let (s, read, mine, at) = genesis_height p keys tenant i _ small audited complete h in
    (s, read, is_tenant ∙ ap (λ t. some t) (sym mine), at)
