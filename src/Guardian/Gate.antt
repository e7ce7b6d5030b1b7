-- ===== src/Guardian/Gate.antt =====
-- What an action that the gate clears has behind it.
use receipts_sdk.Prelude.{
  ℕ, ◌≡◌, refl, sym, ap, ◌∙◌, ◌⊎◌, inl, inr, Bool, true, false, &&-eq-true, Bool-cases, Option,
  none, some, Bytes, Text, text_eq, text_eq_iff, arith, ok, guard, >>=-eq-ok, ok-injective, length,
  ◌≤◌, ◌||◌, not,
}
use receipts_sdk.Prelude.Maps.{Map}
use receipts_sdk.Errors.{Error, action_blocked, verdict_blocks}
use receipts_sdk.Types.{Signature, eddsa}
use receipts_sdk.Crypto.{Platform, DigestLaws, canonicalize_bytes, sha256, verify}
use receipts_sdk.Crypto.Collisions.{IsCollision, sha256_eq}
use receipts_sdk.Verify.{key_for}
use receipts_sdk.Verify.Evidence.{IsSignedBy}
use receipts_sdk.Guardian.{
  Verdict, approve, concerns, reject, ProposedAction, SignedPreVerdict, GateOptions,
  PreVerdictVerification, action_json, pre_verdict_json, reviewer_independent, action_hash,
  unexpired, valid_under, signed_by_key, only_if, verify_pre_verdict, cleared_by,
  assert_action_cleared, is_actor, in_time,
}

-- The name is that of the actor, if one is given.
abbrev pub IsActor : Option Text → Text → Type 0
IsActor none name = ⊥
IsActor (some actor) name = (1 ≤ length actor) × (name ≡ actor)

is_actor-IsActor :
    (actor : Option Text) (name : Text) → is_actor actor name ≡ false → ¬ IsActor actor name
is_actor-IsActor none name h none_given = none_given
is_actor-IsActor (some actor) name h (given, same) =
    ground (arith, h, given, text_eq_iff name actor, same)

or-false : (a b : Bool) → not (a || b) ≡ true → (a ≡ false) × (b ≡ false)
or-false false false h = (refl, refl)
or-false false true h = absurd (cc)
or-false true b h = absurd (cc)

module _ (p : Platform) (parse_date : Text → Option ℕ) where
  -- No expiry, or a readable time that is not past an expiry that can be read.
  abbrev pub IsFresh : Option Text → Text → Type 0
  IsFresh none now = Unit
  IsFresh (some end_) now =
      (n : ℕ) × (e : ℕ) × (parse_date now ≡ some n) × (parse_date end_ ≡ some e) × (n ≤ e)

  in_time-inversion :
      (a b : Option ℕ)
      → in_time p parse_date a b ≡ true
      → (n : ℕ) × (e : ℕ) × (a ≡ some n) × (b ≡ some e) × (n ≤ e)
  in_time-inversion (some n) (some e) h = (n, e, refl, refl, ground (arith, h))
  in_time-inversion none b h = absurd (cc)
  in_time-inversion (some n) none h = absurd (cc)

  unexpired-IsFresh :
      (o : Option Text) (now : Text) → unexpired p parse_date o now ≡ true → IsFresh o now
  unexpired-IsFresh none now h = tt
  unexpired-IsFresh (some t) now h = in_time-inversion (parse_date now) (parse_date t) h

  -- A verdict in force for an action: hashed and signed as a whole by a trusted key, bound to the
  -- action's canonical bytes, not past its expiry, and by somebody other than the actor.
  pub record IsInForce (signed : SignedPreVerdict) (a : ProposedAction) (opts : GateOptions)
      : Type 0 where
    pub body : Bytes
    pub body_read : canonicalize_bytes p (pre_verdict_json signed.pre_verdict) ≡ ok body
    pub hashed : sha256 p body ≡ signed.hash
    pub signed_by : IsSignedBy p opts.public_keys body signed.signature
    pub action : Bytes
    pub action_read : canonicalize_bytes p (action_json a) ≡ ok action
    pub bound : signed.pre_verdict.action_hash ≡ sha256 p action
    pub fresh : IsFresh signed.pre_verdict.expires_at opts.now
    pub independent : ¬ IsActor a.actor signed.pre_verdict.reviewer
    pub independent_as_signed :
        ¬ IsActor signed.pre_verdict.independent_of signed.pre_verdict.reviewer

  valid_under-IsSignedBy :
      (k : Option Text) (body : Bytes) (sig : Text)
      → valid_under p parse_date k body sig ≡ true
      → (key : Text) × (k ≡ some key) × (verify p body sig key ≡ true)
  valid_under-IsSignedBy none body sig h = absurd (cc)
  valid_under-IsSignedBy (some key) body sig h = (key, refl, h)

  signed_by_key-IsSignedBy :
      (keys : Map Text) (body : Bytes) (s : Signature)
      → signed_by_key p parse_date keys body s ≡ true
      → IsSignedBy p keys body s
  unfolding signed_by_key
  signed_by_key-IsSignedBy keys body s h = elim (Bool-cases (text_eq s.alg eddsa)) [
    | inl same ↦
        let (key, found, valid) =
          valid_under-IsSignedBy (key_for keys s.kid) body s.sig (rw same at h) in
        (key, (text_eq_iff _ _).0 same, found, valid)
    | inr apart ↦ absurd (ground (arith, apart, h))
  ]

  pub verify_pre_verdict-IsInForce :
      (signed : SignedPreVerdict) (a : ProposedAction) (opts : GateOptions)
      (v : PreVerdictVerification)
      → verify_pre_verdict p parse_date signed a opts ≡ ok v
      → v.valid ≡ true
      → IsInForce signed a opts × (v.verdict ≡ some signed.pre_verdict.verdict)
  unfolding verify_pre_verdict action_hash reviewer_independent
  verify_pre_verdict-IsInForce signed a opts v h valid =
      let (body, read, h1) =
        >>=-eq-ok (canonicalize_bytes p (pre_verdict_json signed.pre_verdict)) _ h in
      let (bound, hashed, h2) = >>=-eq-ok (action_hash p parse_date a) _ h1 in
      let (action, action_read, h3) = >>=-eq-ok (canonicalize_bytes p (action_json a)) _ hashed in
      let same = ok-injective (ok _) refl h2 in
      let all = ap (λ (v : PreVerdictVerification). v.valid) same ∙ valid in
      let (four, apart) = &&-eq-true _ _ all in
      let (three, fresh) = &&-eq-true _ _ four in
      let (two, binds) = &&-eq-true _ _ three in
      let (matches, signs) = &&-eq-true _ _ two in
      let (free, free_as_signed) = or-false _ _ apart in
      (
        record {
          body = body;
          body_read = read;
          hashed = (text_eq_iff _ _).0 matches;
          signed_by = signed_by_key-IsSignedBy opts.public_keys body signed.signature signs;
          action = action;
          action_read = action_read;
          bound = (text_eq_iff _ _).0 binds ∙ sym (ok-injective (ok _) refl h3);
          fresh = unexpired-IsFresh signed.pre_verdict.expires_at opts.now fresh;
          independent = is_actor-IsActor a.actor signed.pre_verdict.reviewer free;
          independent_as_signed =
              is_actor-IsActor signed.pre_verdict.independent_of signed.pre_verdict.reviewer
                free_as_signed;
        },
        ap (λ (v : PreVerdictVerification). v.verdict) (sym same)
            ∙ ap (λ b. only_if p parse_date b signed.pre_verdict.verdict) all,
      )

  pub guard-eq-ok : (b : Bool) (e : Error) → guard b e ≡ ok tt → b ≡ true
  guard-eq-ok true e h = refl
  guard-eq-ok false e h = absurd (cc)

-- The gate lets an action pass only on a verdict that is in force for it and that clears it: an
-- approval, or concerns where the caller allows them.
pub assert_action_cleared_sound :
    (p : Platform) (parse_date : Text → Option ℕ) (signed : SignedPreVerdict) (a : ProposedAction)
    (opts : GateOptions) (allow_concerns : Bool)
    → assert_action_cleared p parse_date signed a opts allow_concerns ≡ ok tt
    → IsInForce p parse_date signed a opts
      × ((signed.pre_verdict.verdict ≡ approve)
          ⊎ ((signed.pre_verdict.verdict ≡ concerns) × (allow_concerns ≡ true)))
unfolding assert_action_cleared
assert_action_cleared_sound p parse_date signed a opts allow_concerns h =
    let (v, verified, h1) = >>=-eq-ok (verify_pre_verdict p parse_date signed a opts) _ h in
    let (_, valid, h2) = >>=-eq-ok (guard v.valid action_blocked) _ h1 in
    let (force, verdict) =
      verify_pre_verdict-IsInForce p parse_date signed a opts v verified
        (guard-eq-ok p parse_date v.valid action_blocked valid) in
    let clears =
      guard-eq-ok p parse_date (cleared_by p parse_date allow_concerns v.verdict) verdict_blocks
        h2 in
    (force, decided signed.pre_verdict.verdict (rw verdict at clears))
  where
    decided :
        (w : Verdict)
        → cleared_by p parse_date allow_concerns (some w) ≡ true
        → (w ≡ approve) ⊎ ((w ≡ concerns) × (allow_concerns ≡ true))
    decided approve e = inl refl
    decided concerns e = inr (refl, e)
    decided reject e = absurd (cc)

-- A verdict that clears two actions was given for one: their canonical bytes, the actor included,
-- are the same, or a collision of SHA-256.
assert_action_cleared_binds :
    (p : Platform) (parse_date : Text → Option ℕ)
    → DigestLaws p
    → (signed : SignedPreVerdict) (a b : ProposedAction) (opts opts' : GateOptions)
      (allow_concerns allow_concerns' : Bool)
    → assert_action_cleared p parse_date signed a opts allow_concerns ≡ ok tt
    → assert_action_cleared p parse_date signed b opts' allow_concerns' ≡ ok tt
    → (x y : Bytes) × (canonicalize_bytes p (action_json a) ≡ ok x)
      × (canonicalize_bytes p (action_json b) ≡ ok y)
      × ((x ≡ y) ⊎ IsCollision p x y)
assert_action_cleared_binds p parse_date laws signed a b opts opts' allow allow' h h' =
    let (f, _) = assert_action_cleared_sound p parse_date signed a opts allow h in
    let (g, _) = assert_action_cleared_sound p parse_date signed b opts' allow' h' in
    (
      f.action,
      g.action,
      f.action_read,
      g.action_read,
      sha256_eq p laws f.action g.action (sym f.bound ∙ g.bound),
    )
