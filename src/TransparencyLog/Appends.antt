-- ===== src/TransparencyLog/Appends.antt =====
-- What `append`, `appendBatch` and `publishSTH` of log.ts make of a log.
use mathlib.Core.Path.{subst}
use receipts_sdk.Prelude.{
  ℕ, suc, ◌+◌, ◌≤◌, ◌≡◌, ◌≢◌, refl, sym, ap, ◌∙◌, ◌⊎◌, inl, inr, Bool-cases, List, [], ◌∷◌, ◌++◌,
  map, Bytes, Text, All, All-append, All-mono, length, length-append, length-map, take, take-append,
  map-snoc, ◌==◌, ok, err, arith,
}
use receipts_sdk.Prelude.Hex.{IsDigest, to_hex}
use receipts_sdk.Crypto.{Platform}
use receipts_sdk.Errors.{Throws, Error, bad_leaf_length}
use receipts_sdk.TransparencyLog.{
  LogEntry, SignedTreeHead, Signer, TransparencyLog, Submission, new_log, append, append_batch,
  prepend, root_from_leaves,
}
use receipts_sdk.TransparencyLog.Decoding.{hex_to_bytes, hex_to_bytes-AreBytes}

-- The entry that a submission makes.
abbrev pub entry_of : TransparencyLog → Submission → LogEntry
entry_of log s = record {
  log_index = length log.entries;
  leaf_hash = s.leaf_hash;
  tenant_id = s.tenant_id;
  receipt_id = s.receipt_id;
  integrated_time = s.now;
}

-- The log with one more entry.
abbrev pub with_entry : TransparencyLog → Submission → TransparencyLog
with_entry log s = record log {
  entries = log.entries ++ entry_of log s ∷ [];
  leaf_hashes = log.leaf_hashes ++ hex_to_bytes s.leaf_hash ∷ [];
}

-- A leaf hash of 32 bytes is appended; any other is refused, and the log stays as it was.
pub append_cases :
    (log : TransparencyLog) (s : Submission)
    → ((length (hex_to_bytes s.leaf_hash) ≡ 32)
        × (append log s.leaf_hash s.receipt_id s.tenant_id s.now
            ≡ (with_entry log s, ok (entry_of log s))))
      ⊎ ((length (hex_to_bytes s.leaf_hash) ≢ 32)
          × (append log s.leaf_hash s.receipt_id s.tenant_id s.now
              ≡ (log, err (bad_leaf_length (length (hex_to_bytes s.leaf_hash))))))
unfolding append
append_cases log s = elim (Bool-cases (length (hex_to_bytes s.leaf_hash) == 32)) [
  | inl full ↦ inl (ground (arith, full), rw full refl)
  | inr short ↦ inr (ground (arith, short), rw short refl)
]

-- The entries' indices count from `i`.
abbrev pub IsIndexed : ℕ → List LogEntry → Type 0
IsIndexed i [] = Unit
IsIndexed i (e ∷ rest) = (e.log_index ≡ i) × IsIndexed (suc i) rest

IsIndexed-snoc :
    (i : ℕ) (entries : List LogEntry) (e : LogEntry)
    → IsIndexed i entries
    → e.log_index ≡ length entries + i
    → IsIndexed i (entries ++ e ∷ [])
IsIndexed-snoc i [] e h at = (omega (arith, at), tt)
IsIndexed-snoc i (x ∷ rest) e (one, h) at =
    (one, IsIndexed-snoc (suc i) rest e h (omega (arith, at)))

module _ (p : Platform) where
  -- A head of the log: the root of as many leaves as it says, under the log's identity.
  pub record IsHead (log_id : Text) (leaves : List Bytes) (sth : SignedTreeHead) : Type 0 where
    pub within : sth.tree_size ≤ length leaves
    pub rooted : sth.root_hash ≡ to_hex (root_from_leaves p (take sth.tree_size leaves))
    pub named : sth.log_id ≡ log_id

  -- A log as its operations keep it.
  pub record IsLog (log : TransparencyLog) : Type 0 where
    pub leaves : log.leaf_hashes ≡ map (λ e. hex_to_bytes e.leaf_hash) log.entries
    pub digests : All IsDigest log.leaf_hashes
    pub indexed : IsIndexed 0 log.entries
    pub heads : All (IsHead log.log_id log.leaf_hashes) log.sth_history

  -- There are as many leaves as entries.
  pub IsLog-length :
      (log : TransparencyLog) → IsLog log → length log.leaf_hashes ≡ length log.entries
  IsLog-length log h = ap length h.leaves ∙ length-map log.entries _

  pub new_log-IsLog : (log_id : Text) (signer : Signer) → IsLog (new_log log_id signer)
  unfolding new_log
  new_log-IsLog log_id signer = record { leaves = refl; digests = tt; indexed = tt; heads = tt }

  -- More leaves leave a head as it was.
  grown-IsHead :
      (log_id : Text) (leaves more : List Bytes) (sth : SignedTreeHead)
      → IsHead log_id leaves sth
      → IsHead log_id (leaves ++ more) sth
  grown-IsHead log_id leaves more sth h = record {
    within = omega (arith, h.within, length-append leaves more);
    rooted =
        h.rooted
        ∙ ap (λ l. to_hex (root_from_leaves p l))
            (sym (take-append sth.tree_size leaves more h.within));
    named = h.named;
  }

  with_entry-IsLog :
      (log : TransparencyLog) (s : Submission)
      → IsLog log
      → length (hex_to_bytes s.leaf_hash) ≡ 32
      → IsLog (with_entry log s)
  with_entry-IsLog log s h full = record {
    leaves =
        ap (λ l. l ++ hex_to_bytes s.leaf_hash ∷ []) h.leaves
        ∙ sym (map-snoc (λ e. hex_to_bytes e.leaf_hash) log.entries (entry_of log s));
    digests =
        All-append IsDigest log.leaf_hashes (hex_to_bytes s.leaf_hash ∷ []) h.digests
          (record { size = full; bytes = hex_to_bytes-AreBytes s.leaf_hash }, tt);
    indexed = IsIndexed-snoc 0 log.entries (entry_of log s) h.indexed (omega arith);
    heads =
        All-mono (IsHead log.log_id log.leaf_hashes)
          (IsHead log.log_id (with_entry log s).leaf_hashes)
          (grown-IsHead log.log_id log.leaf_hashes _) log.sth_history h.heads;
  }

  pub append-IsLog :
      (log : TransparencyLog) (s : Submission)
      → IsLog log
      → IsLog (append log s.leaf_hash s.receipt_id s.tenant_id s.now).0
  append-IsLog log s h = elim (append_cases log s) [
    | inl (full, made) ↦ subst (λ r. IsLog r.0) (sym made) (with_entry-IsLog log s h full)
    | inr (short, refused) ↦ subst (λ r. IsLog r.0) (sym refused) h
  ]

-- The log with these submissions, one after the other.
abbrev pub with_entries : TransparencyLog → List Submission → TransparencyLog
with_entries log [] = log
with_entries log (s ∷ rest) = with_entries (with_entry log s) rest

-- The entries that they make.
abbrev pub entries_of : TransparencyLog → List Submission → List LogEntry
entries_of log [] = []
entries_of log (s ∷ rest) = entry_of log s ∷ entries_of (with_entry log s) rest

abbrev pub IsWhole : Submission → Type 0
IsWhole s = length (hex_to_bytes s.leaf_hash) ≡ 32

batch_with :
    List Submission → TransparencyLog × Throws LogEntry → TransparencyLog × Throws (List LogEntry)
batch_with rest r = elim (r.1) [
  | err x ↦ (r.0, err x)
  | ok entry ↦ prepend entry (append_batch r.0 rest)
]

batch_accepted :
    (log : TransparencyLog) (s : Submission) (rest : List Submission)
    → append log s.leaf_hash s.receipt_id s.tenant_id s.now
      ≡ (with_entry log s, ok (entry_of log s))
    → append_batch log (s ∷ rest) ≡ prepend (entry_of log s) (append_batch (with_entry log s) rest)
unfolding append_batch batch_with
batch_accepted log s rest made = ap (batch_with rest) made

batch_refused :
    (log : TransparencyLog) (s : Submission) (rest : List Submission) (e : Error)
    → append log s.leaf_hash s.receipt_id s.tenant_id s.now ≡ (log, err e)
    → append_batch log (s ∷ rest) ≡ (log, err e)
unfolding append_batch batch_with
batch_refused log s rest e refused = ap (batch_with rest) refused

-- What a batch comes to: its submissions up to the first that is refused.
pub record IsUpToRefusal (log : TransparencyLog) (all : List Submission) : Type 0 where
  pub accepted : List Submission
  pub left : List Submission
  pub parts : all ≡ accepted ++ left
  pub whole : All IsWhole accepted
  pub result :
      ((left ≡ [])
        × (append_batch log all ≡ (with_entries log accepted, ok (entries_of log accepted))))
      ⊎ ((s : Submission) × (more : List Submission) × (left ≡ s ∷ more)
          × (¬ IsWhole s)
          × (append_batch log all ≡ (
            with_entries log accepted,
            err (bad_leaf_length (length (hex_to_bytes s.leaf_hash))),
          )))

-- A batch appends its submissions in order up to the first whose leaf hash is not 32 bytes, and
-- keeps those: its answer is their entries if none was refused, else the error of the first refused.
pub append_batch-IsUpToRefusal :
    (log : TransparencyLog) (all : List Submission) → IsUpToRefusal log all
unfolding append_batch
append_batch-IsUpToRefusal log [] = record {
  accepted = [];
  left = [];
  parts = refl;
  whole = tt;
  result = inl (refl, refl);
}
append_batch-IsUpToRefusal log (s ∷ rest) = elim (append_cases log s) [
  | inl (full, made) ↦
      let r = append_batch-IsUpToRefusal (with_entry log s) rest in
      let step = batch_accepted log s rest made in
      record {
        accepted = s ∷ r.accepted;
        left = r.left;
        parts = ap (λ l. s ∷ l) r.parts;
        whole = (full, r.whole);
        result = elim r.result [
          | inl (none_left, done) ↦ inl (none_left, step ∙ ap (prepend (entry_of log s)) done)
          | inr (bad, more, at, short, done) ↦
              inr (bad, more, at, short, step ∙ ap (prepend (entry_of log s)) done)
        ];
      }
  | inr (short, refused) ↦ record {
    accepted = [];
    left = s ∷ rest;
    parts = refl;
    whole = tt;
    result = inr (s, rest, refl, short, batch_refused log s rest _ refused);
  }
]

module _ (p : Platform) where
  pub with_entries-IsLog :
      (log : TransparencyLog) (all : List Submission)
      → IsLog p log
      → All IsWhole all
      → IsLog p (with_entries log all)
  with_entries-IsLog log [] h whole = h
  with_entries-IsLog log (s ∷ rest) h (one, whole) =
      with_entries-IsLog (with_entry log s) rest (with_entry-IsLog p log s h one) whole

  pub append_batch-IsLog :
      (log : TransparencyLog) (all : List Submission)
      → IsLog p log
      → IsLog p (append_batch log all).0
  append_batch-IsLog log all h =
      let r = append_batch-IsUpToRefusal log all in
      let kept = with_entries-IsLog log r.accepted h r.whole in
      elim r.result [
        | inl (_, done) ↦ subst (λ r. IsLog p r.0) (sym done) kept
        | inr (_, _, _, _, done) ↦ subst (λ r. IsLog p r.0) (sym done) kept
      ]
