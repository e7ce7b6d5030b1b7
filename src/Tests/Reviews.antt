-- ===== src/Tests/Reviews.antt =====
-- The gate on an action, and a review of it by two keys' worth of approvals.
use receipts_sdk.Prelude.{
  ℕ, ◌≡◌, ◌≤◌, suc, ◌⊎◌, refl, true, false, Option, some, none, List, [], ◌∷◌, length, All, Text,
  codes, ok,
}
use receipts_sdk.Types.{nat, undefined}
use receipts_sdk.Guardian.{
  approve, concerns, ProposedAction, ReviewDecision, SignedPreVerdict, GateOptions, action_json,
  pre_verdict_json, action_hash, sign_pre_verdict, signed_by_key, verify_pre_verdict,
  reviewer_independent, assert_action_cleared,
}
use receipts_sdk.Guardian.Gate.{IsInForce, assert_action_cleared_sound}
use receipts_sdk.Guardian.Approvals.{sign_pre_verdict_cleared}
use receipts_sdk.Guardian.Reviews.{
  MultiReviewResult, tally, tally_one, approved, review_of, review_n_of_m, sorted, insert_text,
  text_leb,
}
use receipts_sdk.Guardian.Reviews.Thresholds.{AreDistinct, IsBacked, IsListed, review_n_of_m_sound}
use receipts_sdk.Guardian.Reviews.Vetoes.{IsVeto, review_n_of_m_unvetoed}
use receipts_sdk.Toy.{toy, keys}
use receipts_sdk.Tests.{runs, trusting, toy_signing, matched, known}

review_runs : Unit {0}
unfolding action_json pre_verdict_json action_hash sign_pre_verdict signed_by_key verify_pre_verdict
    reviewer_independent assert_action_cleared tally tally_one approved review_of review_n_of_m
    sorted insert_text text_leb runs
review_runs = tt

abbrev wire : ProposedAction
wire = record {
  tenant_id = codes "acme";
  action_type = codes "wire.transfer";
  payload = undefined;
  actor = some (codes "agent");
}

abbrev approval : ReviewDecision
approval = record { verdict = approve; reviewer = codes "desk"; reasons = none }

abbrev parse_date : Text → Option ℕ
parse_date t = some (length t)

abbrev gate : GateOptions
gate = record { public_keys = trusting.public_keys; now = codes "t" }

abbrev signed : SignedPreVerdict
unfolding review_runs
signed =
    elim (sign_pre_verdict toy parse_date wire approval keys (codes "t") (some (codes "ttt"))) [
      | ok s ↦ s
      | _ ↦ record {
        pre_verdict = record {
          tenant_id = [];
          action_type = [];
          action_hash = [];
          verdict = concerns;
          reviewer = [];
          independent_of = none;
          reasons = [];
          reviewed_at = [];
          expires_at = none;
        };
        hash = [];
        signature = record { alg = []; kid = []; sig = [] };
      }
    ]

made :
    sign_pre_verdict toy parse_date wire approval keys (codes "t") (some (codes "ttt")) ≡ ok signed
unfolding review_runs
made = refl

sign_pre_verdict_cleared_example :
    assert_action_cleared toy parse_date signed wire gate false ≡ ok tt
sign_pre_verdict_cleared_example =
    sign_pre_verdict_cleared toy parse_date toy_signing wire approval keys (codes "t")
      (some (codes "ttt")) gate false signed made refl matched known refl

cleared : assert_action_cleared toy parse_date signed wire gate false ≡ ok tt
cleared =
    sign_pre_verdict_cleared toy parse_date toy_signing wire approval keys (codes "t")
      (some (codes "ttt")) gate false signed made refl matched known refl

assert_action_cleared_sound_example :
    IsInForce toy parse_date signed wire gate
    × ((signed.pre_verdict.verdict ≡ approve)
        ⊎ ((signed.pre_verdict.verdict ≡ concerns) × (false ≡ true)))
assert_action_cleared_sound_example =
    assert_action_cleared_sound toy parse_date signed wire gate false cleared

-- The same key twice counts once.
abbrev result : MultiReviewResult
result = record {
  cleared = true;
  approvals = 1;
  rejects = 0;
  reviewers = codes "desk" ∷ [];
  threshold = nat 1;
}

reviewed : review_n_of_m toy parse_date wire gate false (signed ∷ signed ∷ []) (nat 1) ≡ ok result
unfolding review_runs
reviewed = refl

review_n_of_m_sound_example :
    (n : ℕ) × (kids : List Text) × (nat 1 ≡ nat (suc n))
    × (suc n ≤ length kids)
    × AreDistinct kids
    × All (IsBacked toy parse_date wire gate false (IsListed (signed ∷ signed ∷ []))) kids
review_n_of_m_sound_example =
    review_n_of_m_sound toy parse_date wire gate false (signed ∷ signed ∷ []) (nat 1) result
      reviewed refl

review_n_of_m_unvetoed_example : ¬ IsVeto toy parse_date wire gate false signed
review_n_of_m_unvetoed_example =
    review_n_of_m_unvetoed toy parse_date wire gate false (signed ∷ signed ∷ []) (nat 1) result 0
      signed reviewed refl refl
