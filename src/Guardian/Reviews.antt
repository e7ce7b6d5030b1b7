-- ===== src/Guardian/Reviews.antt =====
-- guardian.ts: reviewNofM, the gate that asks for several approvals.
pub mod Thresholds
pub mod Vetoes
use receipts_sdk.Prelude.{
  ℕ, zero, suc, ◌+◌, ◌==◌, Bool, true, false, ◌&&◌, ◌||◌, ltb, Option, none, some, List, [], ◌∷◌,
  map, length, leb, Text, if◌then◌else◌, Result, ok, err, ◌>>=◌,
}
use receipts_sdk.Prelude.Maps.{Map, get, put}
use receipts_sdk.Errors.{Throws}
use receipts_sdk.Types.{Number, nat, neg, other}
use receipts_sdk.Crypto.{Platform}
use receipts_sdk.Guardian.{
  Verdict, approve, concerns, reject, ProposedAction, SignedPreVerdict, GateOptions,
  verify_pre_verdict,
}

pub record MultiReviewResult : Type 0 where
  pub cleared : Bool
  pub approvals : ℕ
  pub rejects : ℕ
  pub reviewers : List Text
  pub threshold : Number

-- `[...].sort()` on texts: by their code units
unfoldable pub text_leb : Text → Text → Bool
text_leb [] t = true
text_leb (a ∷ s) [] = false
text_leb (a ∷ s) (b ∷ t) = ltb a b || ((a == b) && text_leb s t)

unfoldable pub insert_text : Text → List Text → List Text
insert_text s [] = s ∷ []
insert_text s (t ∷ ts) =
    let rest = insert_text s ts in if text_leb s t then s ∷ t ∷ ts else t ∷ rest

unfoldable pub sorted : List Text → List Text
sorted [] = []
sorted (t ∷ ts) = insert_text t (sorted ts)

-- `approversByKid`, and the rejections so far.
pub record Tally : Type 0 where
  pub approvers : Map Text
  pub rejects : ℕ

-- A key counts once, under the first name it signed with.
abbrev pub unless_seen : Option Text → Tally → Text → Text → Tally
unless_seen (some seen) t kid name = t
unless_seen none t kid name = record t { approvers = put t.approvers kid name }

unfoldable pub approved : Tally → SignedPreVerdict → Tally
approved t v =
    unless_seen (get t.approvers v.signature.kid) t v.signature.kid v.pre_verdict.reviewer

abbrev pub counted : Bool → SignedPreVerdict → Option Verdict → Tally → Tally
counted allow_concerns v (some reject) t = record t { rejects = t.rejects + 1 }
counted allow_concerns v (some approve) t = approved t v
counted true v (some concerns) t = approved t v
counted false v (some concerns) t = t
counted allow_concerns v none t = t

unfoldable pub tally_one : Bool → SignedPreVerdict → Bool → Option Verdict → Tally → Tally
unfolding approved
tally_one allow_concerns v false verdict t = t
tally_one allow_concerns v true verdict t = counted allow_concerns v verdict t

module _ (p : Platform) (parse_date : Text → Option ℕ) (a : ProposedAction) (opts : GateOptions)
    (allow_concerns : Bool) where
  unfoldable pub tally : Tally → List SignedPreVerdict → Throws Tally
  tally t [] = ok t
  tally t (v ∷ vs) = do
    res ← verify_pre_verdict p parse_date v a opts
    tally (tally_one allow_concerns v res.valid res.verdict t) vs

  abbrev pub no_review : Number → MultiReviewResult
  no_review threshold = record {
    cleared = false;
    approvals = 0;
    rejects = 0;
    reviewers = [];
    threshold = threshold;
  }

  unfoldable pub review_of : ℕ → Tally → MultiReviewResult
  review_of threshold t = record {
    cleared = (t.rejects == 0) && leb threshold (length t.approvers);
    approvals = length t.approvers;
    rejects = t.rejects;
    reviewers = sorted (map (λ e. e.1) t.approvers);
    threshold = nat threshold;
  }

  -- The threshold must be an integer of at least 1.
  unfoldable pub review_n_of_m : List SignedPreVerdict → Number → Throws MultiReviewResult
  unfolding tally review_of
  review_n_of_m verdicts (nat zero) = ok (no_review (nat zero))
  review_n_of_m verdicts (nat (suc n)) = do
    t ← tally (record { approvers = []; rejects = 0 }) verdicts
    ok (review_of (suc n) t)
  review_n_of_m verdicts (neg n) = ok (no_review (neg n))
  review_n_of_m verdicts (other t) = ok (no_review (other t))
