-- ===== src/WorkflowGraph/Orders.antt =====
-- Lists of ids: membership, distinct entries, and orders in which every parent comes first.
use receipts_sdk.Prelude.{
  ℕ, ◌+◌, ◌≤◌, ◌≡◌, refl, inl, inr, Bool, true, false, Bool-cases, ◌||◌, List, [], ◌∷◌, ◌++◌, Text,
  text_eq, text_eq_iff, text_eq_self, includes, keep, length, if◌then◌else◌, arith,
}

abbrev pub IsDistinct : List Text → Type 0
IsDistinct [] = Unit
IsDistinct (x ∷ xs) = (includes xs x ≡ false) × IsDistinct xs

-- Each id is new, and each of its parents comes before it.
pub data IsTopological (parents : Text → List Text) : List Text → Type 0 where
  none_yet : IsTopological parents []
  then_id :
      {order : List Text} (id : Text)
      → IsTopological parents order
      → includes order id ≡ false
      → ((q : Text) → includes (parents id) q ≡ true → includes order q ≡ true)
      → IsTopological parents (order ++ id ∷ [])

pub includes-cons :
    (x : Text) (xs : List Text) (y : Text) → includes (x ∷ xs) y ≡ (text_eq x y || includes xs y)
unfolding includes
includes-cons x xs y = elim (Bool-cases (text_eq x y)) [
  | inl same ↦ rw (includes, same) refl
  | inr apart ↦ rw (includes, apart) refl
]

pub includes-append :
    (xs ys : List Text) (y : Text) → includes (xs ++ ys) y ≡ (includes xs y || includes ys y)
unfolding includes
includes-append [] ys y = refl
includes-append (x ∷ xs) ys y = elim (Bool-cases (text_eq x y)) [
  | inl same ↦ rw (includes, same) refl
  | inr apart ↦ rw (includes, apart) (includes-append xs ys y)
]

pub includes-snoc :
    (xs : List Text) (x y : Text) → includes (xs ++ x ∷ []) y ≡ (includes xs y || text_eq x y)
unfolding includes
includes-snoc xs x y = ground (arith, includes-append xs (x ∷ []) y)

pub includes-keep :
    (test : Text → Bool) (xs : List Text) (y : Text)
    → includes (keep test xs) y ≡ true
    → (includes xs y ≡ true) × (test y ≡ true)
unfolding includes keep
includes-keep test [] y e = cc
includes-keep test (x ∷ xs) y e = elim (Bool-cases (test x)) [
  | inl holds ↦
      ground (arith, holds, e, includes-cons x xs y, includes-keep test xs y, text_eq_iff x y)
  | inr fails ↦ ground (arith, fails, e, includes-cons x xs y, includes-keep test xs y)
]

pub keep-IsDistinct :
    (test : Text → Bool) (xs : List Text) → IsDistinct xs → IsDistinct (keep test xs)
unfolding keep
keep-IsDistinct test [] d = tt
keep-IsDistinct test (x ∷ xs) (new, d) = elim (Bool-cases (test x)) [
  | inl holds ↦
      rw (keep, holds) (ground (arith, new, includes-keep test xs x), keep-IsDistinct test xs d)
  | inr fails ↦ rw (keep, fails) (keep-IsDistinct test xs d)
]

pub snoc-IsDistinct :
    (xs : List Text) (y : Text) → includes xs y ≡ false → IsDistinct xs → IsDistinct (xs ++ y ∷ [])
snoc-IsDistinct [] y new d = (new, tt)
snoc-IsDistinct (x ∷ xs) y new (x_new, d) = (
  ground (
    arith,
    new,
    x_new,
    includes-snoc xs y x,
    includes-cons x xs y,
    text_eq_iff x y,
    text_eq_iff y x,
  ),
  snoc-IsDistinct xs y (ground (arith, new, includes-cons x xs y)) d,
)

-- How many entries of a list are not in the order.
abbrev pub unmet : List Text → List Text → ℕ
unmet order [] = 0
unmet order (q ∷ qs) = (if includes order q then 0 else 1) + unmet order qs

pub unmet_start : (qs : List Text) → unmet [] qs ≡ length qs
unfolding includes
unmet_start [] = refl
unmet_start (q ∷ qs) = omega (arith, unmet_start qs)

pub unmet-met :
    (order qs : List Text)
    → unmet order qs ≡ 0
    → (q : Text) → includes qs q ≡ true
    → includes order q ≡ true
unfolding includes
unmet-met order [] none_left q e = cc
unmet-met order (r ∷ qs) none_left q e =
    let rest : unmet order qs ≡ 0 = omega (arith, none_left) in
    ground (arith, none_left, e, includes-cons r qs q, unmet-met order qs rest q, text_eq_iff r q)

pub unmet-snoc : (order qs : List Text) (id : Text) → unmet (order ++ id ∷ []) qs ≤ unmet order qs
unmet-snoc order [] id = omega arith
unmet-snoc order (q ∷ qs) id = ground (arith, includes-snoc order id q, unmet-snoc order qs id)

pub unmet-snoc-lt :
    (order qs : List Text) (id : Text)
    → includes order id ≡ false
    → includes qs id ≡ true
    → unmet (order ++ id ∷ []) qs + 1 ≤ unmet order qs
unfolding includes
unmet-snoc-lt order [] id new e = cc
unmet-snoc-lt order (q ∷ qs) id new e = ground (
  arith,
  new,
  e,
  includes-cons q qs id,
  includes-snoc order id q,
  text_eq_iff q id,
  text_eq_iff id q,
  unmet-snoc order qs id,
  unmet-snoc-lt order qs id new,
)

-- Exactly one less, where the id is one of distinct entries.
pub unmet-snoc-eq :
    (order qs : List Text) (id : Text)
    → includes order id ≡ false
    → IsDistinct qs
    → unmet order qs
      ≡ (if includes qs id then unmet (order ++ id ∷ []) qs + 1 else unmet (order ++ id ∷ []) qs)
unfolding includes
unmet-snoc-eq order [] id new d = refl
unmet-snoc-eq order (q ∷ qs) id new (q_new, d) = ground (
  arith,
  new,
  q_new,
  includes-cons q qs id,
  includes-snoc order id q,
  text_eq_iff q id,
  text_eq_iff id q,
  unmet-snoc-eq order qs id new d,
)

pub unmet_none :
    (order qs : List Text)
    → ((q : Text) → includes qs q ≡ true → includes order q ≡ true)
    → unmet order qs ≡ 0
unmet_none order [] met = refl
unmet_none order (q ∷ qs) met =
    let here : includes order q ≡ true =
      met q (ground (arith, includes-cons q qs q, text_eq_self q)) in
    ground (
      arith,
      here,
      unmet_none order qs (λ r there. met r (ground (arith, there, includes-cons q qs r))),
    )

pub keep-includes :
    (test : Text → Bool) (xs : List Text) (y : Text)
    → includes xs y ≡ true
    → test y ≡ true
    → includes (keep test xs) y ≡ true
unfolding keep includes
keep-includes test [] y e holds = e
keep-includes test (x ∷ xs) y e holds = elim (Bool-cases (test x)) [
  | inl one ↦
      rw (keep, one)
        (ground (
          arith,
          e,
          holds,
          includes-cons x xs y,
          includes-cons x (keep test xs) y,
          keep-includes test xs y,
        ))
  | inr other ↦
      rw (keep, other)
        (ground
          (arith, e, holds, other, includes-cons x xs y, keep-includes test xs y, text_eq_iff x y))
]
