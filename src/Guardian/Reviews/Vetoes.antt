-- ===== src/Guardian/Reviews/Vetoes.antt =====
-- A rejection vetoes an N-of-M review.
use receipts_sdk.Prelude.{
  ℕ, zero, suc, ◌+◌, ◌≡◌, ◌≤◌, refl, sym, ap, ◌∙◌, inl, inr, Bool, true, false, &&-eq-true, Option,
  none, some, Option-cases, List, [], ◌∷◌, Text, leb, ◌==◌, length, get_elem?, arith, ok, >>=-eq-ok,
  ok-injective,
}
use receipts_sdk.Prelude.Maps.{get}
use receipts_sdk.Types.{Number, nat, neg, other}
use receipts_sdk.Crypto.{Platform}
use receipts_sdk.Guardian.{
  Verdict, approve, concerns, reject, ProposedAction, SignedPreVerdict, GateOptions,
  PreVerdictVerification, verify_pre_verdict,
}
use receipts_sdk.Guardian.Reviews.{
  MultiReviewResult, Tally, approved, counted, tally_one, tally, review_of, review_n_of_m,
}

module _ (p : Platform) (parse_date : Text → Option ℕ) (a : ProposedAction) (opts : GateOptions)
    (allow : Bool) where
  -- A verdict that verifies, and rejects the action.
  abbrev pub IsVeto : SignedPreVerdict → Type 0
  IsVeto v =
      (r : PreVerdictVerification) × (verify_pre_verdict p parse_date v a opts ≡ ok r)
      × (r.valid ≡ true)
      × (r.verdict ≡ some reject)

  -- The count of rejections never falls, and a veto raises it.
  approved-rejects : (t : Tally) (v : SignedPreVerdict) → (approved t v).rejects ≡ t.rejects
  unfolding approved
  approved-rejects t v = elim (Option-cases (get t.approvers v.signature.kid)) [
    | inl absent ↦ rw absent refl
    | inr (seen, present) ↦ rw present refl
  ]

  counted-rejects :
      (b : Bool) (t : Tally) (v : SignedPreVerdict) (w : Option Verdict)
      → t.rejects ≤ (counted b v w t).rejects
  counted-rejects b t v none = omega arith
  counted-rejects b t v (some approve) = omega (arith, approved-rejects t v)
  counted-rejects true t v (some concerns) = omega (arith, approved-rejects t v)
  counted-rejects false t v (some concerns) = omega arith
  counted-rejects b t v (some reject) = omega arith

  tally_one-rejects :
      (b : Bool) (t : Tally) (v : SignedPreVerdict) (valid : Bool) (w : Option Verdict)
      → t.rejects ≤ (tally_one b v valid w t).rejects
  unfolding tally_one
  tally_one-rejects b t v false w = omega arith
  tally_one-rejects b t v true w = counted-rejects b t v w

  tally-rejects :
      (t t' : Tally) (vs : List SignedPreVerdict)
      → tally p parse_date a opts allow t vs ≡ ok t'
      → t.rejects ≤ t'.rejects
  unfolding tally
  tally-rejects t t' [] h =
      omega (arith, ap (λ (t : Tally). t.rejects) (ok-injective (ok t) refl h))
  tally-rejects t t' (v ∷ vs) h =
      let (r, e, rest) = >>=-eq-ok (verify_pre_verdict p parse_date v a opts) _ h in
      omega (
        arith,
        tally_one-rejects allow t v r.valid r.verdict,
        tally-rejects (tally_one allow v r.valid r.verdict t) t' vs rest,
      )

  tally_one-veto :
      (t : Tally) (v : SignedPreVerdict) (r : PreVerdictVerification)
      → r.valid ≡ true
      → r.verdict ≡ some reject
      → (tally_one allow v r.valid r.verdict t).rejects ≡ t.rejects + 1
  unfolding tally_one
  tally_one-veto t v r valid veto = rw (valid, veto) refl

  tally-veto :
      (t t' : Tally) (vs : List SignedPreVerdict) (i : ℕ) (v : SignedPreVerdict)
      → tally p parse_date a opts allow t vs ≡ ok t'
      → get_elem? vs i ≡ some v
      → IsVeto v
      → 1 ≤ t'.rejects
  unfolding tally
  tally-veto t t' [] i v h at veto = absurd (cc)
  tally-veto t t' (x ∷ vs) (suc i) v h at veto =
      let (r, e, rest) = >>=-eq-ok (verify_pre_verdict p parse_date x a opts) _ h in
      tally-veto (tally_one allow x r.valid r.verdict t) t' vs i v rest at veto
  tally-veto t t' (x ∷ vs) zero v h at (r', e', valid, reject_) =
      let (r, e, rest) = >>=-eq-ok (verify_pre_verdict p parse_date x a opts) _ h in
      let same : x ≡ v = ground (arith, at) in
      let result : r' ≡ r =
        ok-injective (verify_pre_verdict p parse_date v a opts) e'
          (ap (λ z. verify_pre_verdict p parse_date z a opts) (sym same) ∙ e) in
      omega (
        arith,
        tally_one-veto t x r (ap (λ (r : PreVerdictVerification). r.valid) (sym result) ∙ valid)
            (ap (λ (r : PreVerdictVerification). r.verdict) (sym result) ∙ reject_),
        tally-rejects (tally_one allow x r.valid r.verdict t) t' vs rest,
      )

-- A review that clears an action has no verdict in its list that verifies and rejects the action.
pub review_n_of_m_unvetoed :
    (p : Platform) (parse_date : Text → Option ℕ) (a : ProposedAction) (opts : GateOptions)
    (allow : Bool) (verdicts : List SignedPreVerdict) (threshold : Number) (r : MultiReviewResult)
    (i : ℕ) (v : SignedPreVerdict)
    → review_n_of_m p parse_date a opts allow verdicts threshold ≡ ok r
    → r.cleared ≡ true
    → get_elem? verdicts i ≡ some v
    → ¬ IsVeto p parse_date a opts allow v
unfolding review_n_of_m review_of
review_n_of_m_unvetoed p parse_date a opts allow verdicts (nat zero) r i v h cleared at veto =
    ground (arith, ok-injective (ok _) refl h, cleared)
review_n_of_m_unvetoed p parse_date a opts allow verdicts (neg n) r i v h cleared at veto =
    ground (arith, ok-injective (ok _) refl h, cleared)
review_n_of_m_unvetoed p parse_date a opts allow verdicts (other t) r i v h cleared at veto =
    ground (arith, ok-injective (ok _) refl h, cleared)
review_n_of_m_unvetoed p parse_date a opts allow verdicts (nat (suc n)) r i v h cleared at veto =
    let (t, counted, made) =
      >>=-eq-ok (tally p parse_date a opts allow (record { approvers = []; rejects = 0 }) verdicts)
        _ h in
    let (none_rejects, enough) =
      &&-eq-true (t.rejects == 0) (leb (suc n) (length t.approvers))
        (ap (λ (r : MultiReviewResult). r.cleared) (ok-injective (ok _) refl made) ∙ cleared) in
    ground (
      arith,
      none_rejects,
      tally-veto p parse_date a opts allow (record { approvers = []; rejects = 0 }) t verdicts i v
          counted at veto,
    )
