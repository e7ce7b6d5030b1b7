-- ===== src/Lib.antt =====
-- Receipts SDK: signed, hash-chained receipts of decisions that software makes.
--
-- A receipt records an event and the decision on it. It carries the SHA-256 of its canonical JSON,
-- an Ed25519 signature, and the hash and height of the receipt before it, so each tenant's receipts
-- form one chain. Stores hold the head of every chain; verifiers check single receipts and whole
-- chains; Merkle batches prove that a receipt is in a set, and a transparency log that it was
-- logged and that the log only grew; a reviewer's signed verdict gates an action before it runs;
-- workflows lead an event to a stored receipt, and a graph ties the receipts of one run together.
-- An evidence pack bundles receipts with a Merkle batch for an inspector, and a cache per tenant
-- saves calls of a model.
-- The model follows src/*.ts, with a function per function:
--
--   Types            src/types.ts: the records, and in Types/Encode the JSON that they are
--   Crypto           src/canonicalize.ts, src/crypto.ts: canonicalize, sha256, sign, verify,
--                    generateKeyPair over the record Platform of the libraries they call
--   Payload          src/receipt.ts: canonicalSigningPayload, canonicalHashingPayload
--   Validate         src/validate.ts: validateEvent, and in Validate/Keys validateKeyPair
--   Signing          src/receipt.ts: buildSignedReceipt (build_signed_receipt) and the safe-number
--                    check; Signing/Ledger: signReceipt and signReceiptWithStore
--   Chain            src/chain.ts: the files of the tenants' chain states
--   ChainStore       src/chain-store.ts: the store interface and its laws; in its children the
--                    memory, file and Postgres stores, and writers that interleave on a store
--   Timestamp        src/timestamp.ts: imprints and the verdicts on tokens
--   Verify           src/verify.ts: verifyReceipt; Verify/Shapes: the shape guard envelopeError;
--                    Verify/Ledger: verifyChain
--   Merkle           src/merkle.ts: buildBatch and verifyInclusion
--   Guardian         src/guardian.ts: signPreVerdict, verifyPreVerdict, assertActionCleared;
--                    Guardian/Reviews: reviewNofM
--   Keys             src/key-management.ts: KeyRegistry
--   Workflow         src/workflows/state-machine.ts: StateMachine; Workflow/Approvals:
--                    src/workflows/approval.ts, ApprovalWorkflow (submit, expire);
--                    Workflow/Pipelines: src/workflows/receipt-pipeline.ts, runPipeline
--   TransparencyLog  src/transparency-log/log.ts: TransparencyLog (append, appendBatch, publishSth,
--                    proveInclusion, proveConsistency) and verifySth, verifyInclusion; in its
--                    children, Decoding is hexToBytes and Auditor verifyConsistency
--   Assurance        src/assurance.ts: assuranceLevel
--   WorkflowGraph    src/workflow-graph.ts: reconstructWorkflow, with the loop of Kahn's algorithm in
--                    WorkflowGraph/Kahn; WorkflowGraph/Verification: verifyWorkflow
--   EvidencePack     src/evidence/evidence-pack.ts: buildEvidencePack, verifyPackIntegrity,
--                    verifyAllReceiptsInPack and verifyEvidencePack; EvidencePack/Encode: the JSON
--                    that the pack hash covers
--   Cost             Cost/Dedup: src/cost/dedup-cache.ts, InMemoryDedup (get, put, stats) and hashKey
--   Errors           the errors that these files throw
--   Prelude          shared types, tests, lists, texts, maps, hex and results
--   Toy, Tests       a small platform that meets the assumptions, and runs on it
--
-- State is passed explicitly: a function that writes a store, a directory or a registry takes its
-- contents and returns the new ones beside its result. A function that may throw returns a Result.
-- A method's random bytes, new ids and clock readings are arguments. What other writers do between
-- the awaits of signReceiptWithStore is a function of each round, and ChainStore/Writers has every
-- sequence of loads and advances of any number of writers.
--
-- Libraries are parameters. Platform has the hash, the signatures, the canonicalize package, base64
-- and UTF-8; DigestLaws and SigningLaws say what their documents promise. Theorems on tampering end
-- in a collision that is named: of two given byte strings, or of two that are hashed while the
-- trees are built and the proof at hand is verified (Crypto/Collisions). None assumes that there is
-- no collision, and none ends in one that has nothing to do with its input. The Postgres table
-- answers the statements that the store sends, as PostgreSQL documents them, and may fail any of
-- them. Date.parse and the order of finite JavaScript numbers are functions.
--
-- Loops that are not over a list run on fuel: the levels of a Merkle tree on the number of leaves,
-- the climb of an inclusion proof on the tree size plus one, since each step halves the width and
-- stops at 1; the theorem on complete batches shows that this is enough. The trees and proofs of the
-- log run on the number of leaves of the slice they split, which gets smaller with each split, and
-- the doubling that finds the split on the size; the loops of verifyConsistency halve a node index
-- and run on it. Kahn's loop runs on twice the number of receipts, since each round takes an id from
-- what is ready or still waits to become so. A pack's verifier climbs on the tree size plus one, as
-- merkle.ts does; a size that is not an integer is one step away from an integer, or infinite, and
-- then the path runs out. The retry loop recurses on the retries that are left.
--
-- Texts are lists of code units. A JavaScript number is a natural number, a negative integer, or
-- some other number with its text. The link check of verify.ts adds as JavaScript does (plus_one),
-- rounding from 2 ^ 53 on, and takes the sum of another number from the platform. Other sums are
-- exact: the heights that stores hold are read as natural numbers below 2 ^ 53. Fields that a
-- verifier reads from an envelope before it has checked them may hold any value (Dynamic); the
-- fields of a well-formed receipt have their static types. Messages of errors are data, or left out
-- where a verdict lists them beside its checks. The log's proofs are read with `log_index` and
-- sizes as natural numbers where the log makes them, and as any number where a verifier gets an
-- inclusion proof. A call of an approval gate is its parts between awaits, and the parts of several
-- calls, and the transitions of the machine's queue, come in any order (Event); that the calls that
-- await are resumed at all is not modelled. What the clients of a pipeline throw has a text for a
-- message, or no message, or no properties. In a pack, the text of the recipe is an argument, and
-- the halves of numbers that are no integers are a parameter (Fractions); receipt ids that name a
-- property of Object.prototype are left out. The cache's clock counts milliseconds, and its hit
-- rate is the fraction of its two counters.
--
-- Not modelled: telemetry, faults of the file system, and the printing of receipts; the rules of
-- assurance.ts (checkRules), which compare JavaScript numbers; prices, budgets and savings, which add
-- doubles; the other reports and scores, adapters,
-- exporters, signing providers and time-stamp clients, whose answers are parameters here, the command
-- line and the applications.
pub mod Prelude
pub mod Errors
pub mod Types
pub mod Crypto
pub mod Payload
pub mod Merkle
pub mod Chain
pub mod ChainStore
pub mod Timestamp
pub mod Verify
pub mod Validate
pub mod Signing
pub mod Guardian
pub mod Keys
pub mod Cost
pub mod EvidencePack
pub mod Workflow
pub mod Assurance
pub mod WorkflowGraph
pub mod TransparencyLog
pub mod Toy
pub mod Tests
