-- ===== src/Guardian.antt =====
-- guardian.ts: the verdict of an independent reviewer, bound to one action, and the gate on it. The
-- texts of `errors` are left out.
pub mod Gate
pub mod Approvals
pub mod Reviews
use receipts_sdk.Prelude.{
  ℕ, zero, suc, ◌+◌, ◌≡◌, Bool, true, false, not, ◌&&◌, ◌||◌, Option, none, some, is_some, or_else,
  List, [], ◌∷◌, ◌++◌, map, Text, Bytes, codes, text_eq, ◌==◌, leb, ltb, length, if◌then◌else◌,
  Result, ok, err, guard, ◌>>=◌, ◌>>◌,
}
use receipts_sdk.Prelude.Maps.{Map, get, put}
use receipts_sdk.Errors.{Throws, Error, reviewer_is_actor, action_blocked, verdict_blocks}
use receipts_sdk.Types.{
  Number, nat, neg, other, Json, null, str, Fields, end, field, obj, KeyPair, EvidenceRef,
  Signature, eddsa,
}
use receipts_sdk.Types.Encode.{items, list_of}
use receipts_sdk.Crypto.{Platform, canonicalize_bytes, sha256, sign, verify}
use receipts_sdk.Verify.{key_for}

pub data Verdict : Type 0 where
  approve concerns reject : Verdict

pub record ProposedAction : Type 0 where
  pub tenant_id : Text
  pub action_type : Text
  pub payload : Json
  pub actor : Option Text

pub record ReviewDecision : Type 0 where
  pub verdict : Verdict
  pub reviewer : Text
  pub reasons : Option (List Text)

pub record PreVerdict : Type 0 where
  pub tenant_id : Text
  pub action_type : Text
  pub action_hash : Text
  pub verdict : Verdict
  pub reviewer : Text
  pub independent_of : Option Text
  pub reasons : List Text
  pub reviewed_at : Text
  pub expires_at : Option Text

pub record SignedPreVerdict : Type 0 where
  pub pre_verdict : PreVerdict
  pub hash : Text
  pub signature : Signature

abbrev pub verdict_text : Verdict → Text
verdict_text approve = codes "approve"
verdict_text concerns = codes "concerns"
verdict_text reject = codes "reject"

-- `v ?? null`
abbrev pub or_null : Option Text → Json
or_null none = null
or_null (some t) = str t

unfoldable pub action_json : ProposedAction → Json
action_json a = obj (
    field (codes "tenant_id") (str a.tenant_id) (
      field (codes "action_type") (str a.action_type)
        (field (codes "actor") (or_null a.actor) (field (codes "payload") a.payload end))))

unfoldable pub pre_verdict_json : PreVerdict → Json
pre_verdict_json v = obj (
    field (codes "schema_version") (str (codes "1.0")) (
      field (codes "kind") (str (codes "askledger.preverdict")) (
        field (codes "tenant_id") (str v.tenant_id) (
          field (codes "action_type") (str v.action_type) (
            field (codes "action_hash") (str v.action_hash) (
              field (codes "verdict") (str (verdict_text v.verdict)) (
                field (codes "reviewer") (str v.reviewer) (
                  field (codes "independent_of") (or_null v.independent_of) (
                    field (codes "reasons") (list_of str v.reasons) (
                      field (codes "reviewed_at") (str v.reviewed_at)
                        (field (codes "expires_at") (or_null v.expires_at) end)))))))))))

-- `actor && name === actor`: an empty actor is no actor.
abbrev pub is_actor : Option Text → Text → Bool
is_actor none name = false
is_actor (some actor) name = ltb 0 (length actor) && text_eq name actor

unfoldable pub reviewer_independent : PreVerdict → ProposedAction → Bool
reviewer_independent v a = not (is_actor a.actor v.reviewer || is_actor v.independent_of v.reviewer)

pub record GateOptions : Type 0 where
  pub public_keys : Map Text
  pub now : Text

pub record GateChecks : Type 0 where
  pub signature_valid : Bool
  pub hash_matches : Bool
  pub binds_to_action : Bool
  pub not_expired : Bool
  pub reviewer_independent : Bool

pub record PreVerdictVerification : Type 0 where
  pub valid : Bool
  pub verdict : Option Verdict
  pub checks : GateChecks

-- `Date.parse`, in milliseconds, with `none` for NaN. Times before 1970 are below zero: the order is
-- all that the code uses, so the count may start anywhere.
module _ (p : Platform) (parse_date : Text → Option ℕ) where
  unfoldable pub action_hash : ProposedAction → Throws Text
  action_hash a = do bytes ← canonicalize_bytes p (action_json a); ok (sha256 p bytes)

  unfoldable pub sign_pre_verdict :
      ProposedAction → ReviewDecision → KeyPair → Text → Option Text → Throws SignedPreVerdict
  sign_pre_verdict a review keypair reviewed_at expires_at = do
    guard (not (is_actor a.actor review.reviewer)) (reviewer_is_actor review.reviewer)
    bound ← action_hash a
    let v : PreVerdict = record {
      tenant_id = a.tenant_id;
      action_type = a.action_type;
      action_hash = bound;
      verdict = review.verdict;
      reviewer = review.reviewer;
      independent_of = a.actor;
      reasons = or_else review.reasons [];
      reviewed_at = reviewed_at;
      expires_at = expires_at;
    }
    bytes ← canonicalize_bytes p (pre_verdict_json v)
    sig ← sign p bytes keypair
    ok (record {
      pre_verdict = v;
      hash = sha256 p bytes;
      signature = record { alg = eddsa; kid = keypair.kid; sig = sig };
    })

  abbrev pub in_time : Option ℕ → Option ℕ → Bool
  in_time (some now) (some end_) = leb now end_
  in_time _ _ = false

  abbrev pub unexpired : Option Text → Text → Bool
  unexpired none now = true
  unexpired (some t) now = in_time (parse_date now) (parse_date t)

  abbrev pub valid_under : Option Text → Bytes → Text → Bool
  valid_under none bytes sig = false
  valid_under (some key) bytes sig = verify p bytes sig key

  unfoldable pub signed_by_key : Map Text → Bytes → Signature → Bool
  signed_by_key keys bytes s =
      if not (text_eq s.alg eddsa) then false else valid_under (key_for keys s.kid) bytes s.sig

  abbrev pub only_if : Bool → Verdict → Option Verdict
  only_if true v = some v
  only_if false v = none

  unfoldable pub verify_pre_verdict :
      SignedPreVerdict → ProposedAction → GateOptions → Throws PreVerdictVerification
  verify_pre_verdict signed a opts = do
    bytes ← canonicalize_bytes p (pre_verdict_json signed.pre_verdict)
    bound ← action_hash a
    let matches = text_eq (sha256 p bytes) signed.hash
    let signs = signed_by_key opts.public_keys bytes signed.signature
    let binds = text_eq signed.pre_verdict.action_hash bound
    let fresh = unexpired signed.pre_verdict.expires_at opts.now
    let apart = reviewer_independent signed.pre_verdict a
    let valid = matches && signs && binds && fresh && apart
    ok (record {
      valid = valid;
      verdict = only_if valid signed.pre_verdict.verdict;
      checks = record {
        signature_valid = signs;
        hash_matches = matches;
        binds_to_action = binds;
        not_expired = fresh;
        reviewer_independent = apart;
      };
    })

  abbrev pub cleared_by : Bool → Option Verdict → Bool
  cleared_by allow_concerns (some approve) = true
  cleared_by allow_concerns (some concerns) = allow_concerns
  cleared_by allow_concerns (some reject) = false
  cleared_by allow_concerns none = false

  unfoldable pub assert_action_cleared :
      SignedPreVerdict → ProposedAction → GateOptions → Bool → Throws (Unit {0})
  assert_action_cleared signed a opts allow_concerns = do
    v ← verify_pre_verdict signed a opts
    guard v.valid action_blocked
    guard (cleared_by allow_concerns v.verdict) verdict_blocks

unfoldable pub pre_verdict_evidence_ref : SignedPreVerdict → EvidenceRef
pre_verdict_evidence_ref signed = record {
  kind = codes "pre_execution_verdict";
  hash = signed.hash;
  alg = some (codes "sha256");
  uri = none;
  status = some (verdict_text signed.pre_verdict.verdict);
  mathematical_value = none;
  proof_type = some (codes "guardian_verdict");
}
