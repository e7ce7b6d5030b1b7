-- ===== src/TransparencyLog/Histories.antt =====
-- The logs that the operations of log.ts lead to, from one log.
use mathlib.Core.Path.{subst}
use mathlib.Core.List.{append_assoc, append-nil}
use receipts_sdk.Prelude.{
  ℕ, ◌≡◌, refl, sym, ap, ◌∙◌, inl, inr, true, some, List, [], ◌∷◌, ◌++◌, Bytes, Text, All-get_elem?,
  get_elem?, ok,
}
use receipts_sdk.Prelude.Hex.{to_hex}
use receipts_sdk.Crypto.{Platform, DigestLaws}
use receipts_sdk.TransparencyLog.{
  LogEntry, SignedTreeHead, InclusionProof, Signer, TransparencyLog, Submission, new_log, append,
  append_batch, publish_sth, prove_inclusion, verify_inclusion,
}
use receipts_sdk.TransparencyLog.Appends.{
  IsHead, IsLog, new_log-IsLog, append-IsLog, append_batch-IsLog, append_cases,
  append_batch-IsUpToRefusal, with_entry, with_entries,
}
use receipts_sdk.TransparencyLog.Heads.{publish_sth-IsLog, publish_sth_cases}
use receipts_sdk.TransparencyLog.Inclusion.Complete.{prove_inclusion-verify_inclusion}

-- One operation.
pub data Step (p : Platform) : TransparencyLog → TransparencyLog → Type 0 where
  appended :
      (log : TransparencyLog) (s : Submission)
      → Step p log (append log s.leaf_hash s.receipt_id s.tenant_id s.now).0
  batched : (log : TransparencyLog) (all : List Submission) → Step p log (append_batch log all).0
  published : (log : TransparencyLog) (now : Text) → Step p log (publish_sth p log now).0

-- Any number of operations, refused ones included.
pub data Reaches (p : Platform) (start : TransparencyLog) : TransparencyLog → Type 0 where
  here : Reaches p start start
  then : {log next : TransparencyLog} → Reaches p start log → Step p log next → Reaches p start next

-- One log holds what another held, in the same places, and has the same identity.
pub record Extends (old new : TransparencyLog) : Type 0 where
  pub new_entries : List LogEntry
  pub new_leaves : List Bytes
  pub new_heads : List SignedTreeHead
  pub entries : new.entries ≡ old.entries ++ new_entries
  pub leaves : new.leaf_hashes ≡ old.leaf_hashes ++ new_leaves
  pub heads : new.sth_history ≡ old.sth_history ++ new_heads
  pub identity : (new.log_id ≡ old.log_id) × (new.signer ≡ old.signer)

same-Extends : (log : TransparencyLog) → Extends log log
same-Extends log = record {
  new_entries = [];
  new_leaves = [];
  new_heads = [];
  entries = sym (append-nil log.entries);
  leaves = sym (append-nil log.leaf_hashes);
  heads = sym (append-nil log.sth_history);
  identity = (refl, refl);
}

-- Two extensions, one after the other.
twice-Extends : (a b c : TransparencyLog) → Extends a b → Extends b c → Extends a c
twice-Extends a b c x y = record {
  new_entries = x.new_entries ++ y.new_entries;
  new_leaves = x.new_leaves ++ y.new_leaves;
  new_heads = x.new_heads ++ y.new_heads;
  entries =
      y.entries
      ∙ ap (λ l. l ++ y.new_entries) x.entries
      ∙ append_assoc a.entries x.new_entries y.new_entries;
  leaves =
      y.leaves
      ∙ ap (λ l. l ++ y.new_leaves) x.leaves
      ∙ append_assoc a.leaf_hashes x.new_leaves y.new_leaves;
  heads =
      y.heads
      ∙ ap (λ l. l ++ y.new_heads) x.heads
      ∙ append_assoc a.sth_history x.new_heads y.new_heads;
  identity = (y.identity.0 ∙ x.identity.0, y.identity.1 ∙ x.identity.1);
}

with_entries-Extends :
    (log : TransparencyLog) (all : List Submission) → Extends log (with_entries log all)
with_entries-Extends log [] = same-Extends log
with_entries-Extends log (s ∷ rest) =
    twice-Extends log _ _
      (record {
        new_entries = _;
        new_leaves = _;
        new_heads = [];
        entries = refl;
        leaves = refl;
        heads = sym (append-nil log.sth_history);
        identity = (refl, refl);
      })
      (with_entries-Extends (with_entry log s) rest)

module _ (p : Platform) where
  append-Extends :
      (log : TransparencyLog) (s : Submission)
      → Extends log (append log s.leaf_hash s.receipt_id s.tenant_id s.now).0
  append-Extends log s = elim (append_cases log s) [
    | inl (_, made) ↦ subst (λ r. Extends log r.0) (sym made) (with_entries-Extends log (s ∷ []))
    | inr (_, refused) ↦ subst (λ r. Extends log r.0) (sym refused) (same-Extends log)
  ]

  append_batch-Extends :
      (log : TransparencyLog) (all : List Submission) → Extends log (append_batch log all).0
  append_batch-Extends log all =
      let r = append_batch-IsUpToRefusal log all in
      let grown = with_entries-Extends log r.accepted in
      elim r.result [
        | inl (_, done) ↦ subst (λ r. Extends log r.0) (sym done) grown
        | inr (_, _, _, _, done) ↦ subst (λ r. Extends log r.0) (sym done) grown
      ]

  publish_sth-Extends : (log : TransparencyLog) (now : Text) → Extends log (publish_sth p log now).0
  publish_sth-Extends log now = elim (publish_sth_cases p log now) [
    | inl (e, done) ↦ subst (λ r. Extends log r.0) (sym done) (same-Extends log)
    | inr (_, _, _, _, done) ↦
        subst (λ r. Extends log r.0) (sym done)
          (record {
            new_entries = [];
            new_leaves = [];
            new_heads = _;
            entries = sym (append-nil log.entries);
            leaves = sym (append-nil log.leaf_hashes);
            heads = refl;
            identity = (refl, refl);
          })
  ]

  Step-Extends : {log next : TransparencyLog} → Step p log next → Extends log next
  Step-Extends (appended log s) = append-Extends log s
  Step-Extends (batched log all) = append_batch-Extends log all
  Step-Extends (published log now) = publish_sth-Extends log now

  Step-IsLog : {log next : TransparencyLog} → Step p log next → IsLog p log → IsLog p next
  Step-IsLog (appended log s) h = append-IsLog p log s h
  Step-IsLog (batched log all) h = append_batch-IsLog p log all h
  Step-IsLog (published log now) h = publish_sth-IsLog p log now h

-- Whatever operations follow, refused ones included, the log keeps its entries, leaves and heads in
-- their places, its identity and its signer: it only grows at the end.
pub Reaches-Extends :
    (p : Platform) {start log : TransparencyLog} → Reaches p start log → Extends start log
Reaches-Extends p {start} here = same-Extends start
Reaches-Extends p (then before step) =
    twice-Extends _ _ _ (Reaches-Extends p before) (Step-Extends p step)

-- In every log that operations lead to from a new one, the leaves are the decoded leaf hashes of the
-- entries, 32 bytes each, the entry at a position has that position as its index, and every head of
-- the history holds the root of the first leaves of the log, as many as its tree size says, under
-- the log's identity.
pub Reaches-IsLog :
    (p : Platform) (log_id : Text) (signer : Signer) {log : TransparencyLog}
    → Reaches p (new_log log_id signer) log
    → IsLog p log
Reaches-IsLog p log_id signer here = new_log-IsLog p log_id signer
Reaches-IsLog p log_id signer (then before step) =
    Step-IsLog p step (Reaches-IsLog p log_id signer before)

-- In every log that operations lead to from a new one, an inclusion proof that the log gives for a
-- leaf and the tree size of one of its published heads is accepted against that head's root hash.
pub published_head_includes :
    (p : Platform)
    → DigestLaws p
    → (log_id : Text) (signer : Signer) {log : TransparencyLog} (k i : ℕ) (sth : SignedTreeHead)
      (leaf : Bytes) (proof : InclusionProof)
    → Reaches p (new_log log_id signer) log
    → get_elem? log.sth_history k ≡ some sth
    → get_elem? log.leaf_hashes i ≡ some leaf
    → prove_inclusion p log i sth.tree_size ≡ ok proof
    → verify_inclusion p (to_hex leaf) proof sth.root_hash ≡ true
published_head_includes p laws log_id signer {log} k i sth leaf proof reached head found given =
    let h = Reaches-IsLog p log_id signer reached in
    let published =
      All-get_elem? (IsHead p log.log_id log.leaf_hashes) log.sth_history k h.heads head in
    subst (λ r. verify_inclusion p (to_hex leaf) proof r ≡ true) (sym published.rooted)
      (prove_inclusion-verify_inclusion p laws log i sth.tree_size leaf proof h.digests found given)
