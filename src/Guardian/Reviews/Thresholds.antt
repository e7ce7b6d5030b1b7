-- ===== src/Guardian/Reviews/Thresholds.antt =====
-- What an N-of-M review that clears an action has behind it.
use mathlib.Core.Path.{subst}
use receipts_sdk.Prelude.{
  ℕ, zero, suc, ◌≡◌, ◌≢◌, ◌≤◌, refl, ap, ◌∙◌, ◌⊎◌, inl, inr, Bool, true, false, &&-eq-true,
  Bool-cases, Option, none, some, Option-cases, List, [], ◌∷◌, map, Text, text_eq, text_eq_iff, leb,
  ◌==◌, length, length-map, get_elem?, All, arith, ok, >>=-eq-ok, ok-injective,
}
use receipts_sdk.Prelude.Maps.{Map, get, put}
use receipts_sdk.Types.{Number, nat, neg, other}
use receipts_sdk.Crypto.{Platform}
use receipts_sdk.Guardian.{
  Verdict, approve, concerns, reject, ProposedAction, SignedPreVerdict, GateOptions,
  PreVerdictVerification, verify_pre_verdict,
}
use receipts_sdk.Guardian.Gate.{IsInForce, verify_pre_verdict-IsInForce}
use receipts_sdk.Guardian.Reviews.{
  MultiReviewResult, Tally, approved, counted, tally_one, tally, review_of, review_n_of_m,
}

abbrev pub AreDistinct : List Text → Type 0
AreDistinct [] = Unit
AreDistinct (k ∷ ks) = All (λ j. k ≢ j) ks × AreDistinct ks

abbrev pub kids : Map Text → List Text
kids m = map (λ e. e.0) m

-- A key that is absent goes to the end.
module _ (holds : Text → Type 0) (kid name : Text) where
  put-All :
      (m : Map Text)
      → get m kid ≡ none
      → All holds (kids m)
      → holds kid
      → All holds (kids (put m kid name))
  unfolding get put
  put-All [] absent all new = (new, tt)
  put-All ((k, v) ∷ m) absent (one, all) new = elim (Bool-cases (text_eq k kid)) [
    | inl same ↦ absurd (ground (arith, same, absent))
    | inr apart ↦ rw (apart, All) (one, put-All m (rw (apart, get) at absent) all new)
  ]

module _ (kid name : Text) where
  put-AreDistinct :
      (m : Map Text) → get m kid ≡ none → AreDistinct (kids m) → AreDistinct (kids (put m kid name))
  unfolding get put
  put-AreDistinct [] absent distinct = (tt, tt)
  put-AreDistinct ((k, v) ∷ m) absent (one, rest) = elim (Bool-cases (text_eq k kid)) [
    | inl same ↦ absurd (ground (arith, same, absent))
    | inr apart ↦
        let differ : k ≢ kid = λ e. ground (arith, apart, text_eq_iff k kid) in
        rw (apart, AreDistinct, All)
          (
            put-All (λ j. k ≢ j) kid name m (rw (apart, get) at absent) one differ,
            put-AreDistinct m (rw (apart, get) at absent) rest,
          )
  ]

module _ (p : Platform) (parse_date : Text → Option ℕ) (a : ProposedAction) (opts : GateOptions)
    (allow : Bool) where
  -- A verdict that counts as an approval of the action.
  abbrev pub IsApproval : SignedPreVerdict → Type 0
  IsApproval v =
      IsInForce p parse_date v a opts
      × ((v.pre_verdict.verdict ≡ approve) ⊎ ((v.pre_verdict.verdict ≡ concerns) × (allow ≡ true)))

  module _ (listed : SignedPreVerdict → Type 0) where
    abbrev pub IsBacked : Text → Type 0
    IsBacked kid = (v : SignedPreVerdict) × listed v × (v.signature.kid ≡ kid) × IsApproval v

    pub record IsTallied (t : Tally) : Type 0 where
      pub distinct : AreDistinct (kids t.approvers)
      pub backed : All IsBacked (kids t.approvers)

    approved-IsTallied :
        (t : Tally) (v : SignedPreVerdict)
        → IsTallied t
        → listed v
        → IsApproval v
        → IsTallied (approved t v)
    unfolding approved
    approved-IsTallied t v tallied here approval =
        elim (Option-cases (get t.approvers v.signature.kid)) [
          | inl absent ↦ rw absent (record {
            distinct =
                put-AreDistinct v.signature.kid v.pre_verdict.reviewer t.approvers absent
                  tallied.distinct;
            backed =
                put-All IsBacked v.signature.kid v.pre_verdict.reviewer t.approvers absent
                  tallied.backed (v, here, refl, approval);
          })
          | inr (seen, present) ↦ rw present tallied
        ]

    concerns-IsTallied :
        (b : Bool) (t : Tally) (v : SignedPreVerdict)
        → IsTallied t
        → (b ≡ true → IsTallied (approved t v))
        → IsTallied (counted b v (some concerns) t)
    concerns-IsTallied true t v tallied approves = approves refl
    concerns-IsTallied false t v tallied approves = tallied

    counted-IsTallied :
        (t : Tally) (v : SignedPreVerdict) (w : Option Verdict)
        → IsTallied t
        → listed v
        → IsInForce p parse_date v a opts
        → w ≡ some v.pre_verdict.verdict
        → IsTallied (counted allow v w t)
    counted-IsTallied t v none tallied here force e = tallied
    counted-IsTallied t v (some approve) tallied here force e =
        approved-IsTallied t v tallied here (force, inl (ground (arith, e)))
    counted-IsTallied t v (some reject) tallied here force e = record {
      distinct = tallied.distinct;
      backed = tallied.backed;
    }
    counted-IsTallied t v (some concerns) tallied here force e =
        concerns-IsTallied allow t v tallied
          (λ allows. approved-IsTallied t v tallied here (force, inr (ground (arith, e), allows)))

    tally_one-IsTallied :
        (t : Tally) (v : SignedPreVerdict) (r : PreVerdictVerification) (b : Bool)
        → IsTallied t
        → listed v
        → verify_pre_verdict p parse_date v a opts ≡ ok r
        → r.valid ≡ b
        → IsTallied (tally_one allow v b r.verdict t)
    unfolding tally_one
    tally_one-IsTallied t v r false tallied here e valid = tallied
    tally_one-IsTallied t v r true tallied here e valid =
        let (force, verdict) = verify_pre_verdict-IsInForce p parse_date v a opts r e valid in
        counted-IsTallied t v r.verdict tallied here force verdict

    tally-IsTallied :
        (t t' : Tally) (vs : List SignedPreVerdict)
        → IsTallied t
        → All listed vs
        → tally p parse_date a opts allow t vs ≡ ok t'
        → IsTallied t'
    unfolding tally
    tally-IsTallied t t' [] tallied all h = subst IsTallied (ok-injective (ok t) refl h) tallied
    tally-IsTallied t t' (v ∷ vs) tallied (here, all) h =
        let (r, e, rest) = >>=-eq-ok (verify_pre_verdict p parse_date v a opts) _ h in
        tally-IsTallied (tally_one allow v r.valid r.verdict t) t' vs
          (tally_one-IsTallied t v r r.valid tallied here e refl) all rest

abbrev pub IsListed : List SignedPreVerdict → SignedPreVerdict → Type 0
IsListed verdicts v = (i : ℕ) × (get_elem? verdicts i ≡ some v)

IsListed-behind :
    (front : List SignedPreVerdict) (x : SignedPreVerdict) (vs : List SignedPreVerdict)
    → All (IsListed front) vs
    → All (IsListed (x ∷ front)) vs
IsListed-behind front x [] all = tt
IsListed-behind front x (v ∷ vs) ((i, at), all) = ((suc i, at), IsListed-behind front x vs all)

All-IsListed : (vs : List SignedPreVerdict) → All (IsListed vs) vs
All-IsListed [] = tt
All-IsListed (v ∷ vs) = ((zero, refl), IsListed-behind vs v vs (All-IsListed vs))

-- A review that clears an action has a whole threshold of at least 1, that many approvals by
-- distinct key ids, each a verdict of the list that is in force for the action and approves it, or
-- has concerns where the caller allows them.
pub review_n_of_m_sound :
    (p : Platform) (parse_date : Text → Option ℕ) (a : ProposedAction) (opts : GateOptions)
    (allow : Bool) (verdicts : List SignedPreVerdict) (threshold : Number) (r : MultiReviewResult)
    → review_n_of_m p parse_date a opts allow verdicts threshold ≡ ok r
    → r.cleared ≡ true
    → (n : ℕ) × (keys : List Text) × (threshold ≡ nat (suc n))
      × (suc n ≤ length keys)
      × AreDistinct keys
      × All (IsBacked p parse_date a opts allow (IsListed verdicts)) keys
unfolding review_n_of_m review_of
review_n_of_m_sound p parse_date a opts allow verdicts (nat zero) r h cleared =
    absurd (ground (arith, ok-injective (ok _) refl h, cleared))
review_n_of_m_sound p parse_date a opts allow verdicts (neg n) r h cleared =
    absurd (ground (arith, ok-injective (ok _) refl h, cleared))
review_n_of_m_sound p parse_date a opts allow verdicts (other t) r h cleared =
    absurd (ground (arith, ok-injective (ok _) refl h, cleared))
review_n_of_m_sound p parse_date a opts allow verdicts (nat (suc n)) r h cleared =
    let (t, counted, made) =
      >>=-eq-ok (tally p parse_date a opts allow (record { approvers = []; rejects = 0 }) verdicts)
        _ h in
    let (none_rejects, enough) =
      &&-eq-true (t.rejects == 0) (leb (suc n) (length t.approvers))
        (ap (λ (r : MultiReviewResult). r.cleared) (ok-injective (ok _) refl made) ∙ cleared) in
    let tallied =
      tally-IsTallied p parse_date a opts allow (IsListed verdicts)
        (record { approvers = []; rejects = 0 }) t verdicts (record { distinct = tt; backed = tt })
        (All-IsListed verdicts) counted in
    (
      n,
      kids t.approvers,
      refl,
      ground (arith, length-map t.approvers (λ (e : Text × Text). e.0), enough),
      tallied.distinct,
      tallied.backed,
    )
