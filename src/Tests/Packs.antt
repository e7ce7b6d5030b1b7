-- ===== src/Tests/Packs.antt =====
-- Evidence packs of two receipts.
use receipts_sdk.Prelude.{
  ◌≤◌, ◌≡◌, ◌≢◌, refl, true, false, some, none, List, [], ◌∷◌, Bytes, codes, ok, text_ne, All,
}
use receipts_sdk.Prelude.Hex.{from_hex, lower, pair_byte, lower_unit}
use receipts_sdk.Prelude.Maps.{get}
use receipts_sdk.Types.{nat, SignedReceipt}
use receipts_sdk.Crypto.{canonicalize_bytes, sha256}
use receipts_sdk.Signing.{Built, max_safe_integer}
use receipts_sdk.Signing.Bounds.{build_signed_receipt-height}
use receipts_sdk.Merkle.{
  InclusionProof, verify_inclusion, build_batch, payloads, batch_of, levels_from, next_level, top,
  audit_path, proofs_from, climb, join, next_sibling,
}
use receipts_sdk.Merkle.Nodes.{hash_leaf, hash_node}
use receipts_sdk.Verify.{verify_receipt}
use receipts_sdk.Verify.Shapes.{envelope_of}
use receipts_sdk.Verify.Evidence.{IsEvidence}
use receipts_sdk.EvidencePack.{
  Fractions, PackVerification, build_evidence_pack, verify_evidence_pack, pack_hash_of,
  verify_pack_integrity, climb_pack, climb_all, join_at, is_included, inclusion, not_included_of,
  unverified, pack_verdict, verify_with_keys,
}
use receipts_sdk.EvidencePack.Shapes.{EvidencePackMeta, EvidencePack}
use receipts_sdk.EvidencePack.Encode.{contents_json}
use receipts_sdk.EvidencePack.Verified.{under, IsIncluded, verify_evidence_pack_sound}
use receipts_sdk.EvidencePack.Built.{build_evidence_pack_verifies}
use receipts_sdk.Toy.{toy, toy_laws, keys}
use receipts_sdk.Tests.{runs, options, start, build, first, built_first, trusting, accepted}

abbrev second : Built
unfolding runs
second =
    build (record { previous_receipt_hash = first.receipt_hash; chain_height = 1 }) (codes "r2")

accepted_alone : (verify_receipt toy (envelope_of second.signed) trusting).valid ≡ true
unfolding runs
accepted_alone = refl

abbrev fractions : Fractions
fractions = record { floor_half = λ t. nat 0; ceil_half = λ t. nat 1; above_one = λ t. true }

abbrev meta : EvidencePackMeta
meta = record {
  title = codes "Pack";
  tenant_id = codes "acme";
  purpose = codes "audit";
  period_from = codes "2026-01-01";
  period_to = codes "2026-02-01";
  built_by = codes "op";
  built_at = codes "2026-02-02";
}

-- What a run of the packs computes with.
packs : Unit {0}
unfolding runs verify_inclusion build_batch payloads batch_of levels_from next_level top audit_path
    proofs_from climb join next_sibling hash_leaf hash_node from_hex lower pair_byte lower_unit
    build_evidence_pack verify_evidence_pack pack_hash_of verify_pack_integrity climb_pack climb_all
    join_at is_included inclusion not_included_of unverified pack_verdict verify_with_keys
    contents_json
packs = tt

abbrev no_pack : EvidencePack
no_pack = record {
  contents = record {
    context = [];
    kind = [];
    meta = meta;
    trusted_keys = [];
    merkle = record { root = []; tree_size = 0; proofs = [] };
    receipts = [];
    verification_instructions = [];
  };
  receipts_count = 0;
  pack_hash = [];
}

abbrev both : List SignedReceipt
both = first.signed ∷ second.signed ∷ []

abbrev pack : EvidencePack
unfolding packs
pack = elim (build_evidence_pack toy meta both [] []) [ ok made ↦ made | _ ↦ no_pack ]

built : build_evidence_pack toy meta both [] [] ≡ ok pack
unfolding packs
built = refl

apart : first.signed.receipt.receipt_id ≢ second.signed.receipt.receipt_id
unfolding runs
apart = text_ne (codes "r1") (codes "r2") refl

build_evidence_pack_verifies_example :
    (v : PackVerification) × (verify_evidence_pack toy fractions trusting.public_keys pack ≡ ok v)
    × (v.valid ≡ true)
    × (v.errors ≡ [])
build_evidence_pack_verifies_example =
    build_evidence_pack_verifies toy fractions toy_laws meta both [] []
      (codes "k1", keys.public_key) [] built ((apart, tt), (tt, tt))
      (accepted, (accepted_alone, tt))

abbrev verdict : PackVerification
unfolding packs
verdict = pack_verdict true [] []

passed : verify_evidence_pack toy fractions trusting.public_keys pack ≡ ok verdict
unfolding packs
passed = refl

valid : verdict.valid ≡ true
unfolding packs
valid = refl

verify_evidence_pack_sound_example :
    (b : Bytes) × (canonicalize_bytes toy (contents_json pack.contents) ≡ ok b)
    × (sha256 toy b ≡ pack.pack_hash)
    × All (IsEvidence toy (under trusting.public_keys)) pack.contents.receipts
    × All (IsIncluded toy fractions pack.contents.merkle) pack.contents.receipts
verify_evidence_pack_sound_example =
    verify_evidence_pack_sound toy fractions trusting.public_keys pack passed valid

build_signed_receipt-height_example :
    (first.signed.receipt.integrity.chain_height ≡ nat 1) × (1 ≤ max_safe_integer)
build_signed_receipt-height_example =
    build_signed_receipt-height toy options start (codes "r1") (codes "2026-01-01T00:00:01Z")
      built_first

-- A pack accepts the proof of the first receipt with the index 0 read as 2, which merkle.ts
-- refuses: the tree has two leaves.
abbrev aliased : InclusionProof
unfolding packs
aliased = elim (get pack.contents.merkle.proofs (codes "r1")) [
  | some found ↦ record found { leaf_index = nat 2 }
  | none ↦ record { leaf_index = nat 9; tree_size = nat 9; audit_path = [] }
]

accepted_in_pack :
    inclusion toy fractions
      (record pack.contents.merkle { proofs = (codes "r1", aliased) ∷ [] })
      first.signed
    ≡ ok true
unfolding packs
accepted_in_pack = refl

refused_in_merkle : verify_inclusion toy first.signed aliased pack.contents.merkle.root ≡ ok false
unfolding packs
refused_in_merkle = refl

-- The pack hash does not cover the count of the receipts.
miscounted :
    verify_evidence_pack toy fractions trusting.public_keys (record pack { receipts_count = 9 })
    ≡ ok verdict
unfolding packs
miscounted = refl
