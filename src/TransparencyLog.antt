-- ===== src/TransparencyLog.antt =====
-- transparency-log/log.ts and types.ts: an append-only log of receipts, its signed tree heads, and
-- the verifiers of its proofs. A slice of the leaves is the list that it is, and a position in it
-- counts from its start.
pub mod Decoding
pub mod Auditor
pub mod Trees
pub mod Inclusion
pub mod Histories
pub mod Consistency
pub mod Appends
pub mod Heads
use receipts_sdk.Prelude.{
  ℕ, zero, suc, ◌+◌, ◌-◌, ◌*◌, ◌/◌, ◌%◌, Bool, true, false, not, ◌&&◌, ◌||◌, Option, none, some,
  List, [], ◌∷◌, ◌++◌, map, Bytes, Text, codes, text_eq, length, take, drop, ltb, leb, ◌==◌, every,
  keep, if◌then◌else◌, Result, ok, err, ◌>>=◌,
}
use receipts_sdk.Prelude.Hex.{to_hex, lower}
use receipts_sdk.Prelude.Maps.{Map}
use receipts_sdk.Errors.{Throws, bad_leaf_length, bad_inclusion_request, bad_consistency_request}
use receipts_sdk.Types.{
  Number, nat, neg, other, Json, num, str, obj, Fields, end, field, Signature, eddsa,
}
use receipts_sdk.Crypto.{Platform, canonicalize_bytes, verify}
use receipts_sdk.Verify.{key_for}
use receipts_sdk.Merkle.{is_root}
use receipts_sdk.Merkle.Nodes.{hash_node}
use Decoding.{hex_to_bytes}

pub record LogEntry : Type 0 where
  pub log_index : ℕ
  pub leaf_hash : Text
  pub tenant_id : Text
  pub receipt_id : Text
  pub integrated_time : Text

pub record SignedTreeHead : Type 0 where
  pub tree_size : ℕ
  pub root_hash : Text
  pub timestamp : Text
  pub log_id : Text
  pub signature : Signature

pub record InclusionProof : Type 0 where
  pub log_index : Number
  pub tree_size : Number
  pub audit_path : List Text

pub record ConsistencyProof : Type 0 where
  pub first_size : ℕ
  pub second_size : ℕ
  pub proof : List Text

-- `interface SigningProvider`, of signing-provider.ts: what the log asks of its signer.
pub record Signer : Type 0 where
  pub kid : Text
  pub algorithm : Text
  pub sign : Bytes → Throws Text

pub record TransparencyLog : Type 0 where
  pub log_id : Text
  pub signer : Signer
  pub entries : List LogEntry
  pub leaf_hashes : List Bytes
  pub sth_history : List SignedTreeHead

unfoldable pub new_log : Text → Signer → TransparencyLog
new_log log_id signer = record {
  log_id = log_id;
  signer = signer;
  entries = [];
  leaf_hashes = [];
  sth_history = [];
}

-- `let k = 1; while (k * 2 < n) k *= 2`, with fuel
unfoldable pub doubling : ℕ → ℕ → ℕ → ℕ
doubling zero n k = k
doubling (suc f) n k = let more = doubling f n (k * 2) in if ltb (k * 2) n then more else k

-- The size of the left subtree; `k` doubles, so `n` rounds are enough.
unfoldable pub split : ℕ → ℕ
split n = doubling n n 1

unfoldable pub size : TransparencyLog → ℕ
size log = length log.entries

unfoldable pub sths : TransparencyLog → List SignedTreeHead
sths log = log.sth_history

unfoldable pub by_tenant : TransparencyLog → Text → List LogEntry
by_tenant log tenant_id = keep (λ e. text_eq e.tenant_id tenant_id) log.entries

unfoldable pub append :
    TransparencyLog → Text → Text → Text → Text → TransparencyLog × Throws LogEntry
append log leaf_hash receipt_id tenant_id now =
    let leaf = hex_to_bytes leaf_hash in
    let entry : LogEntry = record {
      log_index = length log.entries;
      leaf_hash = leaf_hash;
      tenant_id = tenant_id;
      receipt_id = receipt_id;
      integrated_time = now;
    } in
    if not (length leaf == 32) then (log, err (bad_leaf_length (length leaf))) else (
      record log {
        entries = log.entries ++ entry ∷ [];
        leaf_hashes = log.leaf_hashes ++ leaf ∷ [];
      },
      ok entry,
    )

-- A submission: leaf hash, receipt id, tenant and the clock's reading.
pub record Submission : Type 0 where
  pub leaf_hash : Text
  pub receipt_id : Text
  pub tenant_id : Text
  pub now : Text

abbrev pub prepend :
    LogEntry → TransparencyLog × Throws (List LogEntry) → TransparencyLog × Throws (List LogEntry)
prepend e (log, err x) = (log, err x)
prepend e (log, ok out) = (log, ok (e ∷ out))

-- A submission that is refused ends the batch; those before it stay in the log.
unfoldable pub append_batch :
    TransparencyLog → List Submission → TransparencyLog × Throws (List LogEntry)
append_batch log [] = (log, ok [])
append_batch log (e ∷ es) =
    let (log', one) = append log e.leaf_hash e.receipt_id e.tenant_id e.now in
    let rest = append_batch log' es in
    elim one [ err x ↦ (log', err x) | ok entry ↦ prepend entry rest ]

-- `sthSigningBytes`
unfoldable pub sth_json : ℕ → Text → Text → Text → Json
sth_json tree_size root_hash timestamp log_id = obj (
    field (codes "tree_size") (num (nat tree_size)) (
      field (codes "root_hash") (str root_hash)
        (field (codes "timestamp") (str timestamp) (field (codes "log_id") (str log_id) end))))

abbrev pub signed_head :
    TransparencyLog → Text → Text → Throws Text → TransparencyLog × Throws SignedTreeHead
signed_head log root now (err e) = (log, err e)
signed_head log root now (ok sig) =
    let sth : SignedTreeHead = record {
      tree_size = length log.entries;
      root_hash = root;
      timestamp = now;
      log_id = log.log_id;
      signature = record { alg = log.signer.algorithm; kid = log.signer.kid; sig = sig };
    } in
    (record log { sth_history = log.sth_history ++ sth ∷ [] }, ok sth)

-- The next entry of a path: 32 bytes, and the rest of the path.
abbrev pub sized : Bytes → List Text → Option (Bytes × List Text)
sized b rest = if length b == 32 then some (b, rest) else none

unfoldable pub next_node : List Text → Option (Bytes × List Text)
next_node [] = none
next_node (s ∷ rest) = sized (hex_to_bytes s) rest

abbrev pub with_sibling :
    (Bytes → Bytes → Bytes) → Option (Bytes × List Text) → Option (Bytes × List Text)
with_sibling join none = none
with_sibling join (some (h, path)) = elim (next_node path) [
  | none ↦ none
  | some (sib, rest) ↦ some (join h sib, rest)
]

module _ (p : Platform) where
  -- With the number of leaves as fuel.
  unfoldable pub root_from : ℕ → List Bytes → Bytes
  root_from f [] = p.digest []
  root_from f (x ∷ []) = x
  root_from zero (x ∷ y ∷ r) = []
  root_from (suc f) (x ∷ y ∷ r) =
      let k = split (length (x ∷ y ∷ r)) in
      hash_node p (root_from f (take k (x ∷ y ∷ r))) (root_from f (drop k (x ∷ y ∷ r)))

  unfoldable pub root_from_leaves : List Bytes → Bytes
  root_from_leaves leaves = root_from (length leaves) leaves

  -- `inner` of `proveInclusion`: the path of the leaf at an index of a slice.
  unfoldable pub inclusion_path : ℕ → List Bytes → ℕ → List Text
  inclusion_path zero xs i = []
  inclusion_path (suc f) xs i =
      let k = split (length xs) in
      let left = inclusion_path f (take k xs) i ++ to_hex (root_from_leaves (drop k xs)) ∷ [] in
      let right =
        inclusion_path f (drop k xs) (i - k) ++ to_hex (root_from_leaves (take k xs)) ∷ [] in
      if leb (length xs) 1 then [] else if ltb i k then left else right

  -- `inner` of `proveConsistency`, for the first `m` leaves of a slice; `b` while the slice starts
  -- at the first leaf.
  unfoldable pub consistency_path : ℕ → List Bytes → ℕ → Bool → List Text
  consistency_path zero xs m b = []
  consistency_path (suc f) xs m b =
      let k = split (length xs) in
      let left = consistency_path f (take k xs) m b ++ to_hex (root_from_leaves (drop k xs)) ∷ [] in
      let right =
        consistency_path f (drop k xs) (m - k) false
        ++ to_hex (root_from_leaves (take k xs)) ∷ [] in
      if m == length xs
      then (if b then [] else to_hex (root_from_leaves xs) ∷ [])
      else if leb m k
      then left
      else right

  unfoldable pub current_root : TransparencyLog → Text
  current_root log = to_hex (root_from_leaves log.leaf_hashes)

  unfoldable pub publish_sth : TransparencyLog → Text → TransparencyLog × Throws SignedTreeHead
  publish_sth log now = signed_head log (current_root log) now (do
    payload ← canonicalize_bytes p (sth_json (length log.entries) (current_root log) now log.log_id)
    log.signer.sign payload)

  -- Before the `try`, canonicalization may throw.
  unfoldable pub verify_sth : SignedTreeHead → Map Text → Throws Bool
  verify_sth sth keys =
      if not (text_eq sth.signature.alg eddsa)
      then ok false
      else elim (key_for keys sth.signature.kid) [
        | none ↦ ok false
        | some key ↦ do
          payload ←
              canonicalize_bytes p (sth_json sth.tree_size sth.root_hash sth.timestamp sth.log_id)
          ok (verify p payload sth.signature.sig key)
      ]

  unfoldable pub prove_inclusion : TransparencyLog → ℕ → ℕ → Throws InclusionProof
  prove_inclusion log i n =
      if leb n i || ltb (length log.leaf_hashes) n
      then err bad_inclusion_request
      else ok (record {
        log_index = nat i;
        tree_size = nat n;
        audit_path = inclusion_path n (take n log.leaf_hashes) i;
      })

  unfoldable pub prove_consistency : TransparencyLog → ℕ → ℕ → Throws ConsistencyProof
  prove_consistency log m n =
      if ltb n m || ltb (length log.leaf_hashes) n
      then err bad_consistency_request
      else if (m == 0) || (m == n)
      then ok (record { first_size = m; second_size = n; proof = [] })
      else ok (record {
        first_size = m;
        second_size = n;
        proof = consistency_path n (take n log.leaf_hashes) m true;
      })

  -- `climb` of `verifyInclusion`: the hash that it reaches and the rest of the path.
  unfoldable pub climb : ℕ → Bytes → ℕ → ℕ → List Text → Option (Bytes × List Text)
  climb zero leaf n i path = none
  climb (suc f) leaf n i path =
      let k = split n in
      let left = with_sibling (λ h sib. hash_node p h sib) (climb f leaf k i path) in
      let right = with_sibling (λ h sib. hash_node p sib h) (climb f leaf (n - k) (i - k) path) in
      if leb n 1 then some (leaf, path) else if ltb i k then left else right

  abbrev pub checked_climb : Bytes → Number → Number → List Text → Text → Bool
  checked_climb leaf (nat i) (nat n) path root =
      if ltb i n then is_root root (climb n leaf n i path) else false
  checked_climb leaf _ _ path root = false

  -- A tree size below 1 is refused with the index, which is below the size.
  unfoldable pub verify_inclusion : Text → InclusionProof → Text → Bool
  verify_inclusion leaf_hash proof root =
      let leaf = hex_to_bytes leaf_hash in
      if length leaf == 32
      then checked_climb leaf proof.log_index proof.tree_size proof.audit_path root
      else false
