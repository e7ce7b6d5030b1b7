-- ===== src/ChainStore/Writers/Runs.antt =====
-- No interleaving of signers forks a chain.
use mathlib.Core.Path.{subst}
use receipts_sdk.Prelude.{ℕ, ◌≡◌, refl, sym, Option, none, some, List, [], ◌∷◌, Text, ok, err}
use receipts_sdk.Errors.{Throws}
use receipts_sdk.Types.{ChainState, genesis_hash}
use receipts_sdk.Signing.{Head}
use receipts_sdk.ChainStore.{ChainStateStore, IsCasStore}
use receipts_sdk.ChainStore.Writers.{
  Action, load, commit, World, update, logged, commit_from, act, run, IsChain, genesis, IsKnown,
  IsSound, update-IsKnown, kept, still-IsKnown, chain_grows,
}

module _ {S : Type 0} {store : ChainStateStore S} {IsValid : S → Type 0} {head : S → Text → Head}
    (laws : IsCasStore store IsValid head) where
  advanced-IsSound :
      (w : World S) (writer : ℕ) (prev : ChainState) (hash id now : Text) (r : Throws ChainState)
      → IsSound laws w
      → IsKnown laws w.store prev
      → (store.advance w.store prev hash id now).1 ≡ r
      → IsSound laws (record {
        store = (store.advance w.store prev hash id now).0;
        loaded = update w.loaded writer none;
        log = logged store r prev hash w.log;
      })
  advanced-IsSound w writer prev hash id now (ok st) sound known e = record {
    valid = laws.advance_valid w.store prev hash id now sound.valid;
    known =
        update-IsKnown laws _ w.loaded writer none
          (λ v held at.
            still-IsKnown laws w.store prev hash id now st sound.valid known e held
              (sound.known v held at))
          (λ held at. absurd (cc));
    chained = λ t.
        chain_grows laws w.store prev hash id now st sound.valid known e w.log t (sound.chained t);
  }
  advanced-IsSound w writer prev hash id now (err x) sound known e =
      let same = laws.advance_err w.store prev hash id now x e in
      record {
        valid = subst IsValid (sym same) sound.valid;
        known =
            update-IsKnown laws _ w.loaded writer none
              (λ v held at. subst (λ s. IsKnown laws s held) (sym same) (sound.known v held at))
              (λ held at. absurd (cc));
        chained = λ t. subst (λ s. IsChain t w.log (head s t)) (sym same) (sound.chained t);
      }

  commit_from-IsSound :
      (w : World S) (writer : ℕ) (hash id now : Text) (o : Option ChainState)
      → w.loaded writer ≡ o
      → IsSound laws w
      → IsSound laws (commit_from store w writer hash id now o)
  commit_from-IsSound w writer hash id now none e sound = sound
  commit_from-IsSound w writer hash id now (some prev) e sound =
      advanced-IsSound w writer prev hash id now _ sound (sound.known writer prev e) refl

  act-IsSound : (w : World S) (a : Action) → IsSound laws w → IsSound laws (act store w a)
  unfolding act
  act-IsSound w (load writer tenant now) sound = record {
    valid = sound.valid;
    known =
        update-IsKnown laws w.store w.loaded writer _ sound.known
          (kept laws w.store tenant now _ sound.valid refl);
    chained = sound.chained;
  }
  act-IsSound w (commit writer hash id now) sound =
      commit_from-IsSound w writer hash id now _ refl sound

  run-IsSound :
      (w : World S) (actions : List Action) → IsSound laws w → IsSound laws (run store w actions)
  unfolding run
  run-IsSound w [] sound = sound
  run-IsSound w (a ∷ actions) sound = run-IsSound (act store w a) actions (act-IsSound w a sound)

-- No writer has loaded a head, and no receipt is on a chain.
abbrev pub start : {S : Type 0} → S → World S
start s = record { store = s; loaded = λ writer. none; log = [] }

-- On a compare-and-set store whose heads are all at genesis, after any interleaving of loads and
-- advances by any writers for any tenants, the receipts that each tenant's writers committed form
-- one chain: every receipt has the next height and links to the receipt before it, and the chain
-- ends at the store's head.
pub run-IsChain :
    {S : Type 0} {store : ChainStateStore S} {IsValid : S → Type 0} {head : S → Text → Head}
    (laws : IsCasStore store IsValid head) (s : S) (actions : List Action) (tenant : Text)
    → IsValid s
    → ((t : Text) → head s t ≡ record { previous_receipt_hash = genesis_hash; chain_height = 0 })
    → IsChain tenant
        (run store (start s) actions).log
        (head (run store (start s) actions).store tenant)
run-IsChain {head} laws s actions tenant valid fresh =
    (run-IsSound laws (start s) actions (record {
      valid = valid;
      known = λ writer prev at. absurd (cc);
      chained = λ t. subst (IsChain t []) (sym (fresh t)) genesis;
    })).chained
      tenant
