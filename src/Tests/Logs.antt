-- ===== src/Tests/Logs.antt =====
-- A transparency log of three entries with two published heads, its proofs and their verification.
use receipts_sdk.Prelude.{
  ℕ, ◌≡◌, ◌<◌, ok-injective, text_eq_self, refl, ◌⊎◌, true, some, List, [], ◌∷◌, ◌++◌, length,
  get_elem?, All, Bytes, Text, codes, ok, err, arith,
}
use receipts_sdk.Prelude.Hex.{IsDigest, to_hex, lower, lower_unit}
use receipts_sdk.Types.{nat, neg, eddsa}
use receipts_sdk.Crypto.Collisions.{Collision}
use receipts_sdk.Verify.{key_for}
use receipts_sdk.Merkle.{top, levels_from}
use receipts_sdk.Merkle.Nodes.{hash_node}
use receipts_sdk.TransparencyLog.{
  SignedTreeHead, InclusionProof, Signer, TransparencyLog, Submission, new_log, append,
  append_batch, split, doubling, root_from, root_from_leaves, inclusion_path, consistency_path,
  current_root, publish_sth, verify_sth, sth_json, prove_inclusion, prove_consistency, next_node,
  climb, verify_inclusion, by_tenant,
}
use receipts_sdk.TransparencyLog.Auditor.{
  ascend, seeded, both_up, new_up, audited, verify_consistency,
}
use receipts_sdk.TransparencyLog.Appends.{IsLog, IsUpToRefusal, append_batch-IsUpToRefusal}
use receipts_sdk.TransparencyLog.Decoding.{hex_to_bytes, parse_byte, digit_value}
use receipts_sdk.TransparencyLog.Consistency.{IsAuditInput, log_consistency_sound}
use receipts_sdk.TransparencyLog.Heads.{SignerLaws, publish_sth-verify_sth}
use receipts_sdk.TransparencyLog.Histories.{
  Reaches, here, then, batched, published, Extends, Reaches-Extends, Reaches-IsLog,
  published_head_includes,
}
use receipts_sdk.TransparencyLog.Trees.{InRoot}
use receipts_sdk.TransparencyLog.Inclusion.{IsHashed, log_inclusion_sound}
use receipts_sdk.TransparencyLog.Trees.Levels.{root_from_leaves-eq-root}
use receipts_sdk.Toy.{toy, toy_laws, toy_digest, zeros, zeros-AreBytes, keys}
use receipts_sdk.Tests.{runs, trusting, known}

log_runs : Unit {0}
unfolding new_log append append_batch split doubling root_from root_from_leaves inclusion_path
    consistency_path current_root publish_sth verify_sth sth_json prove_inclusion prove_consistency
    next_node climb verify_inclusion by_tenant ascend seeded both_up new_up audited
    verify_consistency hex_to_bytes parse_byte digit_value top levels_from hash_node lower
    lower_unit runs
log_runs = tt

abbrev leaf : ℕ → Bytes
leaf n = n ∷ zeros 31

abbrev signer : Signer
signer = record {
  kid = codes "k1";
  algorithm = eddsa;
  sign = λ payload. ok (toy_digest payload ++ 7 ∷ zeros 31);
}

abbrev submission : ℕ → Submission
submission n = record {
  leaf_hash = to_hex (leaf n);
  receipt_id = codes "r";
  tenant_id = codes "acme";
  now = codes "t";
}

abbrev empty : TransparencyLog
empty = new_log (codes "log") signer

-- Two entries, a head, and a batch of two of which the second is refused.
abbrev two : TransparencyLog
two = (append_batch empty (submission 1 ∷ submission 2 ∷ [])).0

abbrev marked : TransparencyLog
marked = (publish_sth toy two (codes "t")).0

abbrev short : Submission
short = record (submission 4) { leaf_hash = codes "04" }

abbrev three : TransparencyLog
three = (append_batch marked (submission 3 ∷ short ∷ submission 5 ∷ [])).0

three_reached : Reaches toy empty three
three_reached =
    then
      (then (then here (batched empty (submission 1 ∷ submission 2 ∷ [])))
        (published two (codes "t")))
      (batched marked (submission 3 ∷ short ∷ submission 5 ∷ []))

three_leaves : three.leaf_hashes ≡ leaf 1 ∷ leaf 2 ∷ leaf 3 ∷ []
unfolding log_runs
three_leaves = refl

leaf-IsDigest : (n : ℕ) → n < 256 → IsDigest (leaf n)
leaf-IsDigest n small = record { size = refl; bytes = (small, zeros-AreBytes 31) }

digests : All IsDigest (leaf 1 ∷ leaf 2 ∷ leaf 3 ∷ [])
digests = (
  leaf-IsDigest 1 (omega arith),
  (leaf-IsDigest 2 (omega arith), (leaf-IsDigest 3 (omega arith), tt)),
)

signs : SignerLaws toy signer keys.public_key
unfolding log_runs
signs = record {
  scheme = refl;
  verifies = λ payload sig e.
      rw (← ok-injective _ refl e) (text_eq_self (toy_digest payload ++ 7 ∷ zeros 31));
}

abbrev head : SignedTreeHead
unfolding log_runs
head = elim (publish_sth toy two (codes "t")).1 [
  | ok sth ↦ sth
  | err e ↦ record {
    tree_size = 0;
    root_hash = [];
    timestamp = [];
    log_id = [];
    signature = record { alg = []; kid = []; sig = [] };
  }
]

head_published : (publish_sth toy two (codes "t")).1 ≡ ok head
unfolding log_runs
head_published = refl

publish_sth-verify_sth_example :
    (verify_sth toy head trusting.public_keys ≡ ok true)
    × ((publish_sth toy two (codes "t")).0.sth_history ≡ two.sth_history ++ head ∷ [])
    × (head.tree_size ≡ length two.entries)
    × (head.root_hash ≡ current_root toy two)
    × (head.log_id ≡ two.log_id)
publish_sth-verify_sth_example =
    publish_sth-verify_sth toy two (codes "t") keys.public_key trusting.public_keys head two_signs
      two_known head_published
  where
    two_known : key_for trusting.public_keys two.signer.kid ≡ some keys.public_key
    two_known = unfold log_runs in known

    two_signs : SignerLaws toy two.signer keys.public_key
    two_signs = unfold log_runs in signs

abbrev proof : InclusionProof
unfolding log_runs
proof = elim (prove_inclusion toy three 1 2) [
  | ok made ↦ made
  | err e ↦ record { log_index = neg 1; tree_size = neg 1; audit_path = [] }
]

proved : prove_inclusion toy three 1 2 ≡ ok proof
unfolding log_runs
proved = refl

published_head_includes_example : verify_inclusion toy (to_hex (leaf 2)) proof head.root_hash ≡ true
published_head_includes_example =
    published_head_includes toy toy_laws (codes "log") signer 0 1 head (leaf 2) proof three_reached
      marked_first found sized
  where
    marked_first : get_elem? three.sth_history 0 ≡ some head
    marked_first = unfold log_runs in refl

    sized : prove_inclusion toy three 1 head.tree_size ≡ ok proof
    sized = unfold log_runs head proof in refl

    found : get_elem? three.leaf_hashes 1 ≡ some (leaf 2)
    found = unfold log_runs in refl

log_inclusion_sound_example :
    (i : ℕ) × (proof.log_index ≡ nat i)
    × ((get_elem? (leaf 1 ∷ leaf 2 ∷ []) i ≡ some (hex_to_bytes (to_hex (leaf 2))))
        ⊎ Collision toy (IsHashed toy (to_hex (leaf 2)) proof) (InRoot toy (leaf 1 ∷ leaf 2 ∷ [])))
log_inclusion_sound_example =
    log_inclusion_sound toy toy_laws (leaf 1 ∷ leaf 2 ∷ []) (to_hex (leaf 2)) proof
      (digests.0, (digests.1.0, tt)) size accepted
  where
    size : proof.tree_size ≡ nat 2
    size = unfold log_runs in refl

    accepted :
        verify_inclusion toy
          (to_hex (leaf 2))
          proof
          (to_hex (root_from_leaves toy (leaf 1 ∷ leaf 2 ∷ [])))
        ≡ true
    accepted = unfold log_runs in refl

abbrev extension : List Text
unfolding log_runs
extension = elim (prove_consistency toy three 2 3) [ ok made ↦ made.proof | err e ↦ [] ]

extends :
    verify_consistency toy 2
      (to_hex (root_from_leaves toy (leaf 1 ∷ leaf 2 ∷ [])))
      3
      (to_hex (root_from_leaves toy (leaf 1 ∷ leaf 2 ∷ leaf 3 ∷ [])))
      extension
    ≡ true
unfolding log_runs
extends = refl

log_consistency_sound_example :
    (leaf 1 ∷ leaf 2 ∷ [] ≡ leaf 1 ∷ leaf 2 ∷ [])
    ⊎ Collision toy
        (IsAuditInput toy (leaf 1 ∷ leaf 2 ∷ []) (leaf 1 ∷ leaf 2 ∷ leaf 3 ∷ []) extension)
        (IsAuditInput toy (leaf 1 ∷ leaf 2 ∷ []) (leaf 1 ∷ leaf 2 ∷ leaf 3 ∷ []) extension)
log_consistency_sound_example =
    log_consistency_sound toy toy_laws (leaf 1 ∷ leaf 2 ∷ []) (leaf 1 ∷ leaf 2 ∷ leaf 3 ∷ [])
      extension (digests.0, (digests.1.0, tt)) digests extends

Reaches-Extends_example : Extends empty three
Reaches-Extends_example = Reaches-Extends toy three_reached

Reaches-IsLog_example : IsLog toy three
Reaches-IsLog_example = Reaches-IsLog toy (codes "log") signer three_reached

append_batch-IsUpToRefusal_example : IsUpToRefusal marked (submission 3 ∷ short ∷ submission 5 ∷ [])
append_batch-IsUpToRefusal_example =
    append_batch-IsUpToRefusal marked (submission 3 ∷ short ∷ submission 5 ∷ [])

root_from_leaves-eq-root_example :
    root_from_leaves toy (leaf 1 ∷ leaf 2 ∷ leaf 3 ∷ [])
    ≡ top (levels_from toy 3 (leaf 1 ∷ leaf 2 ∷ leaf 3 ∷ []))
root_from_leaves-eq-root_example =
    root_from_leaves-eq-root toy (leaf 1 ∷ leaf 2 ∷ leaf 3 ∷ []) (omega arith)
