-- ===== src/ChainStore/Writers.antt =====
-- Concurrent signers on one store: each loads a head, signs at the next height, and advances, in
-- any interleaving. The log lists the receipts whose advance succeeded, the newest first.
pub mod Runs
use mathlib.Core.Path.{subst}
use receipts_sdk.Prelude.{
  ℕ, zero, suc, ◌+◌, ◌≡◌, ◌≢◌, ◌≤◌, ◌<◌, refl, sym, ap, ◌∙◌, ◌⊎◌, inl, inr, Bool, true, false,
  Bool-cases, Option, none, some, List, [], ◌∷◌, Text, text_eq, text_eq_iff, Text-discrete, ◌==◌,
  if◌then◌else◌, arith, Result, ok, err,
}
use receipts_sdk.Errors.{Error, Throws}
use receipts_sdk.Types.{ChainState, genesis_hash}
use receipts_sdk.Signing.{Head}
use receipts_sdk.ChainStore.{ChainStateStore, IsCasStore, head_of}

-- A receipt on the chain: what it links to, and its place.
pub record Entry : Type 0 where
  pub tenant : Text
  pub previous_receipt_hash : Text
  pub receipt_hash : Text
  pub chain_height : ℕ

pub data Action : Type 0 where
  load : (writer : ℕ) → (tenant now : Text) → Action
  commit : (writer : ℕ) → (hash id now : Text) → Action

pub record World (S : Type 0) : Type 0 where
  pub store : S
  pub loaded : ℕ → Option ChainState
  pub log : List Entry

abbrev pub update : (ℕ → Option ChainState) → ℕ → Option ChainState → ℕ → Option ChainState
update f w v x = if w == x then v else f x

module _ {S : Type 0} (store : ChainStateStore S) where
  abbrev pub keep_loaded : Throws ChainState → Option ChainState
  keep_loaded (ok st) = some st
  keep_loaded (err e) = none

  abbrev pub logged : Throws ChainState → ChainState → Text → List Entry → List Entry
  logged (err e) prev hash log = log
  logged (ok st) prev hash log =
      record {
        tenant = prev.tenant_id;
        previous_receipt_hash = prev.previous_receipt_hash;
        receipt_hash = hash;
        chain_height = prev.chain_height + 1;
      }
      ∷ log

  abbrev pub commit_from : World S → ℕ → Text → Text → Text → Option ChainState → World S
  commit_from w writer hash id now none = w
  commit_from w writer hash id now (some prev) =
      let r = store.advance w.store prev hash id now in
      record { store = r.0; loaded = update w.loaded writer none; log = logged r.1 prev hash w.log }

  unfoldable pub act : World S → Action → World S
  act w (load writer tenant now) = record w {
    loaded = update w.loaded writer (keep_loaded (store.load w.store tenant now));
  }
  act w (commit writer hash id now) = commit_from w writer hash id now (w.loaded writer)

  unfoldable pub run : World S → List Action → World S
  run w [] = w
  run w (a ∷ actions) = run (act w a) actions

-- One tenant's receipts in the log form one chain: each has the next height and the hash of the one
-- before it, from genesis to a head.
pub data IsChain (t : Text) : List Entry → Head → Type 0 where
  genesis : IsChain t [] (record { previous_receipt_hash = genesis_hash; chain_height = 0 })
  other :
      {e : Entry} {log : List Entry} {h : Head}
      → e.tenant ≢ t
      → IsChain t log h
      → IsChain t (e ∷ log) h
  link :
      {e : Entry} {log : List Entry} {h : Head}
      → e.tenant ≡ t
      → e.previous_receipt_hash ≡ h.previous_receipt_hash
      → e.chain_height ≡ h.chain_height + 1
      → IsChain t log h
      → IsChain t
          (e ∷ log)
          (record { previous_receipt_hash = e.receipt_hash; chain_height = e.chain_height })

module _ {S : Type 0} {store : ChainStateStore S} {IsValid : S → Type 0} {head : S → Text → Head}
    (laws : IsCasStore store IsValid head) where
  -- A head that was loaded is not ahead of the store, and is the store's if the heights agree.
  abbrev pub IsKnown : S → ChainState → Type 0
  IsKnown s prev =
      (prev.chain_height ≤ (head s prev.tenant_id).chain_height)
      × (prev.chain_height ≡ (head s prev.tenant_id).chain_height
          → prev.previous_receipt_hash ≡ (head s prev.tenant_id).previous_receipt_hash)

  pub record IsSound (w : World S) : Type 0 where
    pub valid : IsValid w.store
    pub known :
        (writer : ℕ) (prev : ChainState) → w.loaded writer ≡ some prev → IsKnown w.store prev
    pub chained : (t : Text) → IsChain t w.log (head w.store t)

  pub load-IsKnown :
      (s : S) (tenant now : Text) (st : ChainState)
      → IsValid s
      → store.load s tenant now ≡ ok st
      → IsKnown s st
  load-IsKnown s tenant now st valid e =
      let (same, at) = laws.load_head s tenant now st valid e in
      let here : head_of st ≡ head s st.tenant_id = at ∙ ap (head s) (sym same) in
      (
        omega (arith, ap (λ (h : Head). h.chain_height) here),
        λ _. ap (λ (h : Head). h.previous_receipt_hash) here,
      )

  -- What a writer holds after a load or an advance is known, if what it held before is.
  update-IsKnown :
      (s : S) (f : ℕ → Option ChainState) (writer : ℕ) (o : Option ChainState)
      → ((w : ℕ) (prev : ChainState) → f w ≡ some prev → IsKnown s prev)
      → ((prev : ChainState) → o ≡ some prev → IsKnown s prev)
      → (w : ℕ) (prev : ChainState) → update f writer o w ≡ some prev
      → IsKnown s prev
  update-IsKnown s f writer o known fresh w prev e = elim (Bool-cases (writer == w)) [
    | inl same ↦ fresh prev (ground arith)
    | inr apart ↦ known w prev (ground arith)
  ]

  kept :
      (s : S) (tenant now : Text) (r : Throws ChainState)
      → IsValid s
      → store.load s tenant now ≡ r
      → (prev : ChainState) → keep_loaded store r ≡ some prev
      → IsKnown s prev
  kept s tenant now (ok st) valid e prev same = load-IsKnown s tenant now prev valid (ground arith)
  kept s tenant now (err x) valid e prev same = absurd (cc)

  module _ (s : S) (prev : ChainState) (hash id now : Text) (st : ChainState) (valid : IsValid s)
      (known : IsKnown s prev) (done : (store.advance s prev hash id now).1 ≡ ok st) where
    -- The facts of a successful advance.
    won :
        ((head s prev.tenant_id).chain_height ≡ prev.chain_height)
        × (head (store.advance s prev hash id now).0 prev.tenant_id
            ≡ record { previous_receipt_hash = hash; chain_height = prev.chain_height + 1 })
        × ((other : Text)
            → prev.tenant_id ≢ other
            → head (store.advance s prev hash id now).0 other ≡ head s other)
    won = laws.advance_ok s prev hash id now st valid known.0 done

    -- A head that another writer holds stays known: it is behind the new one, or of another tenant.
    still-IsKnown :
        (held : ChainState) → IsKnown s held → IsKnown (store.advance s prev hash id now).0 held
    still-IsKnown held k = elim (Text-discrete prev.tenant_id held.tenant_id) [
      | yes same ↦
          let mine : (head s held.tenant_id).chain_height ≡ prev.chain_height =
            subst (λ t. (head s t).chain_height ≡ prev.chain_height) same won.0 in
          let new : (head (store.advance s prev hash id now).0 held.tenant_id).chain_height
              ≡ prev.chain_height + 1 =
            subst
              (λ t.
                (head (store.advance s prev hash id now).0 t).chain_height ≡ prev.chain_height + 1)
              same (ap (λ (h : Head). h.chain_height) won.1) in
          (omega (arith, k.0), λ e. absurd (omega (arith, k.0)))
      | no apart ↦
          subst
            (λ (h : Head).
              (held.chain_height ≤ h.chain_height)
              × (held.chain_height ≡ h.chain_height
                  → held.previous_receipt_hash ≡ h.previous_receipt_hash))
            (sym (won.2 held.tenant_id apart)) k
    ]

    chain_grows :
        (log : List Entry) (t : Text)
        → IsChain t log (head s t)
        → IsChain t
            (logged store (ok st) prev hash log)
            (head (store.advance s prev hash id now).0 t)
    chain_grows log t chain = elim (Text-discrete prev.tenant_id t) [
      | yes same ↦
          subst (IsChain t _)
            (sym (
              subst
                (λ x.
                  head (store.advance s prev hash id now).0 x
                  ≡ record { previous_receipt_hash = hash; chain_height = prev.chain_height + 1 })
                same won.1))
            (link same (known.1 (sym won.0) ∙ ap (λ x. (head s x).previous_receipt_hash) same)
              (ap (λ (n : ℕ). n + 1) (sym won.0 ∙ ap (λ x. (head s x).chain_height) same)) chain)
      | no apart ↦ subst (IsChain t _) (sym (won.2 t apart)) (other apart chain)
    ]
