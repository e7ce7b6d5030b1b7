-- ===== src/Keys/Trust.antt =====
-- Which keys the registry hands to the verifier.
use receipts_sdk.Prelude.{
  ℕ, ◌≡◌, refl, sym, ap, ◌∙◌, ◌⊎◌, inl, inr, true, false, Bool-cases, Option, none, some,
  Option-cases, [], ◌∷◌, Text, text_eq, text_eq_iff, arith, ok,
}
use mathlib.Core.Path.{subst}
use receipts_sdk.Prelude.Maps.{Map, get, put, get-put, get-put_self, get-put_ne}
use receipts_sdk.Keys.{
  revoked, KeyRecord, KeyRegistry, revoke, revoke_found, trusted, trusted_from, trusted_keys,
}

-- Every record stands under its own key id, and no id stands twice.
abbrev pub IsRegistry : KeyRegistry → Type 0
IsRegistry [] = Unit
IsRegistry ((kid, r) ∷ reg) = (r.kid ≡ kid) × (get reg kid ≡ none) × IsRegistry reg

module _ (parse_date : Text → Option ℕ) (at : Option ℕ) where
  -- A key that is trusted at the end came from before, or from a trusted record of that id.
  trusted_from-get :
      (reg : KeyRegistry) (out : Map Text) (kid key : Text)
      → IsRegistry reg
      → get (trusted_from parse_date at reg out) kid ≡ some key
      → (get out kid ≡ some key)
        ⊎ ((r : KeyRecord) × (get reg kid ≡ some r)
            × (trusted parse_date at r ≡ true)
            × (r.public_key ≡ key))
  unfolding trusted_from get
  trusted_from-get [] out kid key ok_reg h = inl h
  trusted_from-get ((k, r) ∷ reg) out kid key (own, fresh, ok_reg) h =
      elim (trusted_from-get reg _ kid key ok_reg h) [
        | inr (r', found, trusts, same) ↦
            let differ : text_eq k kid ≡ false = ground (arith, text_eq_iff k kid, fresh, found) in
            inr (r', rw (differ, get) found, trusts, same)
        | inl here ↦ elim (Bool-cases (trusted parse_date at r)) [
          | inr refuses ↦ inl (rw refuses at here)
          | inl trusts ↦ elim (Bool-cases (text_eq k kid)) [
            | inl mine ↦ inr (
              r,
              rw (mine, get) refl,
              trusts,
              ground (
                arith,
                rw trusts at here,
                get-put out r.kid kid r.public_key,
                text_eq_iff k kid,
                text_eq_iff r.kid kid,
                own,
                mine,
              ),
            )
            | inr theirs ↦ inl (
                ground (
                  arith,
                  rw trusts at here,
                  get-put out r.kid kid r.public_key,
                  text_eq_iff k kid,
                  text_eq_iff r.kid kid,
                  own,
                  theirs,
                ))
          ]
        ]
      ]

put-IsRegistry :
    (reg : KeyRegistry) (kid : Text) (r : KeyRecord)
    → r.kid ≡ kid
    → IsRegistry reg
    → IsRegistry (put reg kid r)
unfolding get put
put-IsRegistry [] kid r own ok_reg = (own, refl, tt)
put-IsRegistry ((k, x) ∷ reg) kid r own (mine, fresh, ok_reg) = elim (Bool-cases (text_eq k kid)) [
  | inl same ↦
      let here : get reg kid ≡ none = ground (arith, text_eq_iff k kid, fresh, same) in
      rw (same, IsRegistry) (own, here, ok_reg)
  | inr apart ↦
      let still : get (put reg kid r) k ≡ none =
        get-put_ne reg kid k r (λ e. ground (arith, text_eq_iff k kid, apart, e)) ∙ fresh in
      rw (apart, IsRegistry) (mine, still, put-IsRegistry reg kid r own ok_reg)
]

get-own :
    (reg : KeyRegistry) (kid : Text) (r : KeyRecord)
    → IsRegistry reg
    → get reg kid ≡ some r
    → r.kid ≡ kid
unfolding get
get-own [] kid r ok_reg found = absurd (cc)
get-own ((k, x) ∷ reg) kid r (mine, fresh, ok_reg) found = elim (Bool-cases (text_eq k kid)) [
  | inl same ↦ ground (arith, text_eq_iff k kid, mine, same, rw (same, get) at found)
  | inr apart ↦ get-own reg kid r ok_reg (rw (apart, get) at found)
]

-- A key that the registry hands to the verifier is the one that is recorded under the id, and its
-- record is trusted at the given time: active, or retired no earlier than that time.
trusted_keys_sound :
    (parse_date : Text → Option ℕ) (at : Option ℕ) (reg : KeyRegistry) (kid key : Text)
    → IsRegistry reg
    → get (trusted_keys parse_date at reg) kid ≡ some key
    → (r : KeyRecord) × (get reg kid ≡ some r)
      × (trusted parse_date at r ≡ true)
      × (r.public_key ≡ key)
unfolding trusted_keys get
trusted_keys_sound parse_date at reg kid key ok_reg h =
    elim (trusted_from-get parse_date at reg [] kid key ok_reg h) [
      | inl nothing ↦ absurd (cc)
      | inr found ↦ found
    ]

one_record : {a b : KeyRecord} (o : Option KeyRecord) → o ≡ some a → o ≡ some b → a ≡ b
one_record o h k = cc

revoked_after :
    (reg reg' : KeyRegistry) (kid reason when : Text) (o : Option KeyRecord) (r : KeyRecord)
    → revoke_found reg kid reason when o ≡ (reg', ok r)
    → (old : KeyRecord) × (o ≡ some old)
      × (reg'
          ≡ put reg kid (record old {
            status = revoked;
            revoked_at = some when;
            revocation_reason = some reason;
          }))
revoked_after reg reg' kid reason when none r h = absurd (cc)
revoked_after reg reg' kid reason when (some old) r h = (old, refl, sym (ap (λ x. x.0) h))

-- Once a key is revoked, the verifier gets no key under its id, for any time.
pub revoke_untrusts :
    (parse_date : Text → Option ℕ) (at : Option ℕ) (reg reg' : KeyRegistry) (kid reason when : Text)
    (r : KeyRecord)
    → IsRegistry reg
    → revoke reg kid reason when ≡ (reg', ok r)
    → get (trusted_keys parse_date at reg') kid ≡ none
unfolding revoke trusted
revoke_untrusts parse_date at reg reg' kid reason when r ok_reg h =
    let (old, was, now) = revoked_after reg reg' kid reason when (get reg kid) r h in
    let new : KeyRecord = record old {
      status = revoked;
      revoked_at = some when;
      revocation_reason = some reason;
    } in
    let here : get reg' kid ≡ some new = ap (λ m. get m kid) now ∙ get-put_self reg kid new in
    let ok_reg' : IsRegistry reg' =
      subst IsRegistry (sym now)
        (put-IsRegistry reg kid new (get-own reg kid old ok_reg was) ok_reg) in
    elim (Option-cases (get (trusted_keys parse_date at reg') kid)) [
      | inl missing ↦ missing
      | inr (key, handed) ↦
          let (x, found, trusts, _) =
            trusted_keys_sound parse_date at reg' kid key ok_reg' handed in
          let same : x ≡ new = one_record (get reg' kid) found here in
          absurd (subst (λ x. trusted parse_date at x ≡ true → ⊥) (sym same) (λ e. cc) trusts)
    ]
