-- ===== src/Workflow/Trails.antt =====
-- The audit history of a state machine.
use mathlib.Core.Path.{subst}
use receipts_sdk.Prelude.{
  ℕ, zero, suc, ◌≡◌, ◌≢◌, refl, sym, ap, ap₂, ◌∙◌, ◌⊎◌, inl, inr, Bool, true, false, Bool-cases,
  Option, none, some, List, [], ◌∷◌, ◌++◌, Text, text_eq, text_eq_iff, text_ne, arith, All,
  All-get_elem?, get_elem?, guard, ok, err, >>=-eq-ok, ok-injective,
}
use receipts_sdk.Prelude.Maps.{Map, get, put, get-put_self, get-put_ne}
use receipts_sdk.Errors.{Throws, Error, guard_failed}
use receipts_sdk.Workflow.{
  Transition, StateChangeRecord, StateMachine, Request, key_of, table_of, new_machine, found,
  allowed_by, permit, settle, apply_transition, run_queue,
}

-- A text without ">".
abbrev pub IsPlain : Text → Type 0
IsPlain t = All (λ u. u ≢ 62) t

abbrev second : Text → ℕ
second [] = 0
second (x ∷ []) = 0
second (x ∷ y ∷ t) = y

-- The key of a change tells its two states apart, where the first is plain.
key_of-injective :
    (a b c d : Text) → IsPlain a → IsPlain b → key_of a c ≡ key_of b d → (a ≡ b) × (c ≡ d)
key_of-injective [] [] c d pa pb e = (refl, cc)
key_of-injective [] (y ∷ []) c d pa pb e =
    let apart : 62 ≡ 61 = ap second e in absurd (omega (arith, apart))
key_of-injective [] (y ∷ y' ∷ b) c d pa (py, (py', pb)) e = absurd (py' (sym (ap second e)))
key_of-injective (x ∷ []) [] c d pa pb e =
    let apart : 61 ≡ 62 = ap second e in absurd (omega (arith, apart))
key_of-injective (x ∷ x' ∷ a) [] c d (px, (px', pa)) pb e = absurd (px' (ap second e))
key_of-injective (x ∷ a) (y ∷ b) c d (px, pa) (py, pb) e =
    let rest : key_of a c ≡ key_of b d = cc in
    let (same, after) = key_of-injective a b c d pa pb rest in
    let heads : x ≡ y = cc in (ap₂ (λ u us. u ∷ us) heads same, after)

module _ {C : Type 0} where
  -- The changes lead from one state to another, each from where the one before it ended, and each
  -- is that of a transition of the list, whose guard allowed it.
  pub data IsTrail (ts : List (Transition C)) (initial : Text)
      : List StateChangeRecord → Text → Type 0 where
    start : IsTrail ts initial [] initial
    step :
        {log : List StateChangeRecord} {state : Text}
        → IsTrail ts initial log state
        → (i : ℕ) (t : Transition C) (change : StateChangeRecord) (context : C)
        → get_elem? ts i ≡ some t
        → change.from ≡ state
        → t.from ≡ change.from
        → t.to ≡ change.to
        → allowed_by t.guarded_by context ≡ ok true
        → IsTrail ts initial (log ++ change ∷ []) change.to

  -- Both states of every transition are plain.
  abbrev pub ArePlain : List (Transition C) → Type 0
  ArePlain ts = All (λ t. IsPlain t.from × IsPlain t.to) ts

  -- What stands in the table under a key is a transition with that key.
  table_of-get :
      (ts : List (Transition C)) (table : Map (Transition C)) (k : Text) {t : Transition C}
      → get (table_of ts table) k ≡ some t
      → ((i : ℕ) × (get_elem? ts i ≡ some t) × (key_of t.from t.to ≡ k)) ⊎ (get table k ≡ some t)
  unfolding table_of
  table_of-get [] table k e = inr e
  table_of-get (x ∷ ts) table k {t} e =
      elim (table_of-get ts (put table (key_of x.from x.to) x) k e) [
        | inl (i, there, keyed) ↦ inl (suc i, there, keyed)
        | inr there ↦ elim (Bool-cases (text_eq (key_of x.from x.to) k)) [
          | inl same ↦
              let key : key_of x.from x.to ≡ k = (text_eq_iff _ _).0 same in
              let this : get (put table (key_of x.from x.to) x) k ≡ some x =
                rw (← key) (get-put_self table (key_of x.from x.to) x) in
              let one : x ≡ t = cc (this, there) in
              inl (zero, ap (λ t. some t) one, subst (λ t. key_of t.from t.to ≡ k) one key)
          | inr apart ↦
              inr (sym (get-put_ne table (key_of x.from x.to) k x (text_ne _ _ apart)) ∙ there)
        ]
      ]

  found-eq-ok :
      (o : Option (Transition C)) (from to : Text) (t : Transition C)
      → found o from to ≡ ok t
      → o ≡ some t
  found-eq-ok none from to t h = absurd (cc)
  found-eq-ok (some x) from to t h = ap (λ x. some x) (ok-injective (ok x) refl h)

  -- What was found before the state changed.
  permit-inversion :
      (m : StateMachine C) (r : Request C)
      → permit m r ≡ ok tt
      → (t : Transition C) × (get m.transitions (key_of m.state r.to) ≡ some t)
        × (allowed_by t.guarded_by r.context ≡ ok true)
  unfolding permit
  permit-inversion m r h =
      let (t, here, rest) =
        >>=-eq-ok (found (get m.transitions (key_of m.state r.to)) m.state r.to) _ h in
      let (allows, answer, acts) = >>=-eq-ok (allowed_by t.guarded_by r.context) _ rest in
      let (u, passes, _) = >>=-eq-ok (guard allows (guard_failed m.state r.to)) _ acts in
      (
        t,
        found-eq-ok (get m.transitions (key_of m.state r.to)) m.state r.to t here,
        answer ∙ ap (λ b. ok b) (guarded allows passes),
      )
    where
      guarded : (b : Bool) → guard b (guard_failed m.state r.to) ≡ ok tt → b ≡ true
      guarded true e = refl
      guarded false e = absurd (cc)

  module _ (initial : Text) (ts : List (Transition C)) (plain : ArePlain ts) where
    record IsAudited (m : StateMachine C) : Type 0 where
      table : m.transitions ≡ table_of ts []
      plain_state : IsPlain m.state
      trail : IsTrail ts initial m.history m.state

    nothing : (k : Text) {t : Transition C} → get {V = Transition C} [] k ≡ some t → ⊥
    unfolding get
    nothing k e = absurd (cc)

    settle-IsAudited :
        (m : StateMachine C) (r : Request C) (u : Throws (Unit {0}))
        → IsAudited m
        → permit m r ≡ u
        → IsAudited (settle m r u).0
    settle-IsAudited m r (err e) audited h = audited
    settle-IsAudited m r (ok tt) audited h =
        let (t, here, allowed) = permit-inversion m r h in
        elim (table_of-get ts [] (key_of m.state r.to) (rw audited.table at here)) [
          | inl (i, listed, keyed) ↦
              let both = All-get_elem? (λ t. IsPlain t.from × IsPlain t.to) ts i plain listed in
              let (from, to) =
                key_of-injective t.from m.state t.to r.to both.0 audited.plain_state keyed in
              record {
                table = audited.table;
                plain_state = subst IsPlain to both.1;
                trail =
                    step audited.trail i t
                      (record {
                        from = m.state;
                        to = r.to;
                        at = r.now;
                        actor = r.actor;
                        metadata = r.metadata;
                      })
                      r.context listed refl from to allowed;
              }
          | inr nowhere ↦ absurd (nothing (key_of m.state r.to) nowhere)
        ]

    run_queue-IsAudited :
        (m : StateMachine C) (rs : List (Request C)) → IsAudited m → IsAudited (run_queue m rs)
    unfolding run_queue apply_transition
    run_queue-IsAudited m [] audited = audited
    run_queue-IsAudited m (r ∷ rs) audited =
        run_queue-IsAudited (settle m r (permit m r)).0 rs
          (settle-IsAudited m r (permit m r) audited refl)

-- If no state of the table, nor the initial one, contains ">", then after any queue of requests,
-- whatever guards and actions do, the history of a machine leads from its initial state to its
-- current one, and each change is from the one state to the other of a transition that the machine
-- was given, whose guard, if it has one, allowed it.
pub run_queue-IsTrail :
    {C : Type 0} (initial : Text) (ts : List (Transition C)) (rs : List (Request C))
    → IsPlain initial
    → ArePlain ts
    → IsTrail ts initial
        (run_queue (new_machine initial ts) rs).history
        (run_queue (new_machine initial ts) rs).state
unfolding new_machine
run_queue-IsTrail initial ts rs plain_state plain =
    (run_queue-IsAudited initial ts plain (new_machine initial ts) rs
      (record { table = refl; plain_state = plain_state; trail = start })).trail

settle-err :
    {C : Type 0} (m : StateMachine C) (r : Request C) (u : Throws (Unit {0})) (e : Error)
    → (settle m r u).1 ≡ err e
    → (settle m r u).0 ≡ m
settle-err m r (err x) e h = refl
settle-err m r (ok v) e h = absurd (cc)

-- A transition that throws changes neither the state nor the history.
apply_transition-err :
    {C : Type 0} (m : StateMachine C) (r : Request C) (e : Error)
    → (apply_transition m r).1 ≡ err e
    → (apply_transition m r).0 ≡ m
unfolding apply_transition
apply_transition-err m r e h = settle-err m r (permit m r) e h
