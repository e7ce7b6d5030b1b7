-- ===== src/Tests/Stores.antt =====
-- Signing onto the stores.
use receipts_sdk.Prelude.{
  ℕ, ◌≡◌, ◌≢◌, refl, sym, some, none, List, [], ◌∷◌, codes, ok, text_ne, arith,
}
use mathlib.Core.Path.{subst}
use receipts_sdk.Prelude.Maps.{Map, get}
use receipts_sdk.Types.{ChainState, SignedReceipt}
use receipts_sdk.Crypto.{sha256_string}
use receipts_sdk.Chain.{
  path_for, legacy_path_for, in_state_dir, sanitize, load_chain_state, save_chain_state, adopt,
  advance_chain, genesis,
}
use receipts_sdk.Chain.Isolation.{HoldsOwn}
use receipts_sdk.ChainStore.Memory.{memory_store, memory_load, memory_advance, moved, commit}
use receipts_sdk.ChainStore.MemoryLaws.{memory_store-IsCasStore}
use receipts_sdk.ChainStore.Outcomes.{IsKeyed, map_head}
use receipts_sdk.ChainStore.Postgres.{PgPool, select, postgres_store}
use receipts_sdk.Errors.{external}
use receipts_sdk.ChainStore.Writers.{Action, load, World, run, IsChain}
use receipts_sdk.ChainStore.{IsCasStore}
use receipts_sdk.ChainStore.PostgresLaws.{postgres_store-IsCasStore}
use receipts_sdk.ChainStore.Writers as Writers
use receipts_sdk.ChainStore.Writers.Runs.{start}
use receipts_sdk.ChainStore.Forks.{memory_run-IsChain, postgres_run-IsChain}
use receipts_sdk.Signing.Ledger.{
  Round, attempt, after_load, after_build, settled, sign_receipt_with_store, sign_receipt,
  save_built,
}
use receipts_sdk.Signing.Ledger.Commits.{IsFair, IsCommitted, sign_receipt_with_store_commits}
use receipts_sdk.Signing.Ledger.Retries.{IsSignable, sign_receipt_with_store_ends}
use receipts_sdk.Signing.Ledger.Files.{IsExtended, sign_receipt_extends}
use receipts_sdk.Toy.{toy}
use receipts_sdk.Tests.{runs, options, first, built_first}

-- Two writers race for one tenant.
abbrev race : List Action
race =
    load 0 (codes "acme") []
    ∷ load 1 (codes "acme") []
    ∷ Writers.Action.commit 1 (codes "h1") (codes "r1") []
    ∷ Writers.Action.commit 0 (codes "h2") (codes "r2") []
    ∷ []

memory_run-IsChain_example :
    IsChain
      (codes "acme")
      (run memory_store (start []) race).log
      (map_head (run memory_store (start []) race).store (codes "acme"))
memory_run-IsChain_example = memory_run-IsChain race (codes "acme")

-- Nobody else writes.
abbrev rounds : ℕ → Round (Map ChainState)
rounds k = record {
  id = codes "r1";
  loaded_at = [];
  signed_at = codes "2026-01-01T00:00:01Z";
  advanced_at = [];
  others = λ m. m;
}

store_runs : Unit {0}
unfolding sign_receipt_with_store settled attempt after_load after_build memory_load memory_advance
    moved commit runs
store_runs = tt

abbrev after_first : Map ChainState
unfolding store_runs
after_first = (sign_receipt_with_store toy memory_store options 8 rounds []).0

signed_first :
    sign_receipt_with_store toy memory_store options 8 rounds [] ≡ (after_first, ok first.signed)
unfolding store_runs
signed_first = refl

fair : (k : ℕ) → IsFair memory_store-IsCasStore (rounds k)
fair k = record { keeps_valid = λ s h. h; keeps_known = λ s held h. h }

empty_keyed : IsKeyed []
unfolding get
empty_keyed tenant st e = absurd (cc)

sign_receipt_with_store_commits_example :
    (before : Map ChainState) × IsCommitted memory_store-IsCasStore
      (codes "acme")
      before
      after_first
      first.signed
sign_receipt_with_store_commits_example =
    sign_receipt_with_store_commits memory_store-IsCasStore toy options 8 rounds [] after_first
      first.signed fair empty_keyed signed_first

abbrev IsEmpty : Map ChainState → Type 0
IsEmpty m = m ≡ []

signable : IsSignable toy options rounds IsEmpty
unfolding memory_load runs
signable = record {
  keyed = λ m e. subst IsKeyed (sym e) empty_keyed;
  kept = λ k m e. e;
  builds = λ k m e. (first, rw e built_first);
}

sign_receipt_with_store_ends_example :
    (r : SignedReceipt) × (s : Map ChainState) × (sign_receipt_with_store toy memory_store options 8
        rounds []
      ≡ (s, ok r))
sign_receipt_with_store_ends_example =
    sign_receipt_with_store_ends toy options rounds IsEmpty 8 3 [] signable (λ m. refl)
      (omega arith) refl

own_empty : HoldsOwn toy [] (codes "acme")
unfolding get
own_empty state e = absurd (cc)

-- The states of two tenants go to different files.
path_runs : Unit {0}
unfolding path_for legacy_path_for in_state_dir sanitize sha256_string runs
path_runs = tt

apart : path_for toy (codes "acme") ≢ path_for toy (codes "globex")
unfolding path_runs
apart = text_ne _ _ refl

legacy_apart : path_for toy (codes "acme") ≢ legacy_path_for (codes "globex")
unfolding path_runs
legacy_apart = text_ne _ _ refl

abbrev acme : ChainState
acme = advance_chain (genesis (codes "acme") []) (codes "h1") (codes "r1") []

abbrev saved_first : Map ChainState
unfolding sign_receipt save_built load_chain_state save_chain_state adopt advance_chain path_runs
saved_first = (sign_receipt toy [] options (codes "r1") [] (codes "2026-01-01T00:00:01Z") []).0

filed :
    sign_receipt toy [] options (codes "r1") [] (codes "2026-01-01T00:00:01Z") []
    ≡ (saved_first, ok first.signed)
unfolding sign_receipt save_built load_chain_state save_chain_state adopt advance_chain path_runs
filed = refl

sign_receipt_extends_example :
    IsExtended toy [] saved_first (codes "acme") [] first.signed (codes "2026-01-01T00:00:02Z")
sign_receipt_extends_example =
    sign_receipt_extends toy [] saved_first options (codes "r1") [] (codes "2026-01-01T00:00:01Z")
      [] (codes "2026-01-01T00:00:02Z") first.signed own_empty filed

-- A database that fails every statement but reads.
abbrev pool : PgPool
pool = record { fails = λ s t. elim s [ select tenant ↦ none | _ ↦ some (external []) ] }

postgres_run-IsChain_example :
    IsChain
      (codes "acme")
      (run (postgres_store pool) (start []) race).log
      (map_head (run (postgres_store pool) (start []) race).store (codes "acme"))
postgres_run-IsChain_example = postgres_run-IsChain pool race (codes "acme")

postgres_store-IsCasStore_example : IsCasStore (postgres_store pool) IsKeyed map_head
postgres_store-IsCasStore_example = postgres_store-IsCasStore pool
