-- ===== src/Merkle/Tests.antt =====
-- Runs of merkle.ts, and the theorems at concrete batches.
use receipts_sdk.Prelude.{
  ℕ, ◌≡◌, refl, ◌⊎◌, true, false, some, none, List, [], ◌∷◌, codes, get_elem?, ok, text_eq, text_ne,
}
use receipts_sdk.Prelude.Hex.{to_hex, from_hex, lower, hex_digit, pair_byte, lower_unit}
use receipts_sdk.Prelude.Maps.{get, put}
use receipts_sdk.Types.{nat, SignedReceipt}
use receipts_sdk.Crypto.Collisions.{Collision}
use receipts_sdk.Payload.{canonical_signing_payload}
use receipts_sdk.Toy.{toy, toy_laws, receipt, unsigned}
use receipts_sdk.Merkle.{
  InclusionProof, MerkleBatch, build_batch, verify_inclusion, payloads, levels_from, next_level,
  top, audit_path, proofs_from, climb, join, next_sibling,
}
use receipts_sdk.Merkle.Nodes.{hash_leaf, hash_node}
use receipts_sdk.Merkle.Completeness.{HasDistinctIds, build_batch_complete}
use receipts_sdk.Merkle.Soundness.{IsBatched, IsChecked, verify_inclusion_sound}

-- What a run of the module computes with.
runs : Unit {0}
unfolding build_batch verify_inclusion payloads levels_from next_level top audit_path proofs_from
    climb join next_sibling hash_leaf hash_node to_hex from_hex lower hex_digit pair_byte lower_unit
    get put canonical_signing_payload toy text_eq
runs = tt

abbrev second : SignedReceipt
second = unsigned (receipt (codes "b") 2 [] [])

abbrev three : List SignedReceipt
three =
    unsigned (receipt (codes "a") 1 [] []) ∷ second ∷ unsigned (receipt (codes "c") 3 [] []) ∷ []

abbrev batch : MerkleBatch
unfolding runs
batch = elim (build_batch toy three) [
  | ok b ↦ b
  | _ ↦ record { root = []; tree_size = 0; proofs = [] }
]

built : build_batch toy three ≡ ok batch
unfolding runs
built = refl

-- The proof of the second receipt.
abbrev proof : InclusionProof
unfolding runs
proof = elim (get batch.proofs (codes "b")) [
  | some found ↦ found
  | none ↦ record { leaf_index = nat 9; tree_size = nat 9; audit_path = [] }
]

accepted : verify_inclusion toy second proof batch.root ≡ ok true
unfolding runs
accepted = refl

-- Its index read as another position is refused.
refused : verify_inclusion toy second (record proof { leaf_index = nat 5 }) batch.root ≡ ok false
unfolding runs
refused = refl

verify_inclusion_sound_example :
    (i : ℕ) × (proof.leaf_index ≡ nat i)
    × (((s : SignedReceipt) × (get_elem? three i ≡ some s)
          × (canonical_signing_payload toy second.receipt
              ≡ canonical_signing_payload toy s.receipt))
        ⊎ Collision toy (IsBatched toy three) (IsChecked toy second proof))
verify_inclusion_sound_example =
    verify_inclusion_sound toy toy_laws three batch second proof built size accepted
  where
    size : proof.tree_size ≡ nat batch.tree_size
    size = unfold runs in refl

distinct : HasDistinctIds three
unfolding runs
distinct = ((text_ne _ _ refl, (text_ne _ _ refl, tt)), ((text_ne _ _ refl, tt), (tt, tt)))

build_batch_complete_example :
    (found : InclusionProof) × (get batch.proofs (codes "b") ≡ some found)
    × (found.leaf_index ≡ nat 1)
    × (found.tree_size ≡ nat 3)
    × (verify_inclusion toy second found batch.root ≡ ok true)
build_batch_complete_example =
    build_batch_complete toy toy_laws three batch 1 second built distinct refl
