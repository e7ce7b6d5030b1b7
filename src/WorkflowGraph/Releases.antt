-- ===== src/WorkflowGraph/Releases.antt =====
-- What one round of Kahn's algorithm does to the children of the id that it takes.
use receipts_sdk.Prelude.{
  ℕ, ◌≡◌, refl, ◌∙◌, inl, inr, Bool, true, false, Bool-cases, ◌&&◌, ◌||◌, Option, or_else, List, [],
  ◌∷◌, ◌++◌, Text, text_eq, text_eq_iff, text_eq_self, includes, if◌then◌else◌, arith,
}
use receipts_sdk.Prelude.Maps.{Map, get, put, get-put}
use receipts_sdk.Types.{Number, SignedReceipt}
use receipts_sdk.WorkflowGraph.Kahn.{
  Degrees, lower_by_one, is_zero, degree, Kahn, by_height, height_of, insert_id, sort_ids, release,
  release_all,
}
use receipts_sdk.WorkflowGraph.Orders.{IsDistinct, includes-cons, includes-snoc, snoc-IsDistinct}

pub degree-put :
    (m : Degrees) (id x : Text) (d : Option ℕ)
    → degree (put m id d) x ≡ (if text_eq id x then d else degree m x)
degree-put m id x d = ground (arith, get-put m id x d)

module _ (rank : Number → Option ℕ) (ids : Map SignedReceipt) (parents : Map (List Text)) where
  abbrev parents_at : Text → List Text
  parents_at x = or_else (get parents x) []

  abbrev is_ahead : Text → Text → Bool
  is_ahead a b =
      by_height rank ids parents (height_of rank ids parents (get ids a))
        (height_of rank ids parents (get ids b)) a b

  includes-insert_id :
      (a : Text) (xs : List Text) (y : Text)
      → includes (insert_id rank ids parents a xs) y ≡ (text_eq a y || includes xs y)
  unfolding insert_id
  includes-insert_id a [] y = includes-cons a [] y
  includes-insert_id a (b ∷ xs) y = elim (Bool-cases (is_ahead a b)) [
    | inl first ↦ rw first (includes-cons a (b ∷ xs) y)
    | inr second ↦ rw second (
        ground (
          arith,
          includes-cons b (insert_id rank ids parents a xs) y,
          includes-cons b xs y,
          includes-insert_id a xs y,
        ))
  ]

  pub includes-sort_ids :
      (xs : List Text) (y : Text) → includes (sort_ids rank ids parents xs) y ≡ includes xs y
  unfolding sort_ids
  includes-sort_ids [] y = refl
  includes-sort_ids (x ∷ xs) y = ground (
    arith,
    includes-insert_id x (sort_ids rank ids parents xs) y,
    includes-sort_ids xs y,
    includes-cons x xs y,
  )

  insert_id-IsDistinct :
      (a : Text) (xs : List Text)
      → includes xs a ≡ false
      → IsDistinct xs
      → IsDistinct (insert_id rank ids parents a xs)
  unfolding insert_id
  insert_id-IsDistinct a [] new d = (new, tt)
  insert_id-IsDistinct a (b ∷ xs) new (b_new, d) = elim (Bool-cases (is_ahead a b)) [
    | inl first ↦ rw first (new, (b_new, d))
    | inr second ↦ rw second (
      ground (
        arith,
        b_new,
        new,
        includes-cons b xs a,
        text_eq_iff a b,
        text_eq_iff b a,
        includes-insert_id a xs b,
      ),
      insert_id-IsDistinct a xs (ground (arith, new, includes-cons b xs a)) d,
    )
  ]

  pub sort_ids-IsDistinct :
      (xs : List Text) → IsDistinct xs → IsDistinct (sort_ids rank ids parents xs)
  unfolding sort_ids
  sort_ids-IsDistinct [] d = tt
  sort_ids-IsDistinct (x ∷ xs) (new, d) =
      insert_id-IsDistinct x (sort_ids rank ids parents xs) (includes-sort_ids xs x ∙ new)
        (sort_ids-IsDistinct xs d)

  release-degree :
      (id : Text) (k : Kahn) (child x : Text)
      → degree (release rank ids parents id k child).degrees x ≡ (
          if text_eq child x && includes (parents_at child) id
          then lower_by_one (degree k.degrees x)
          else degree k.degrees x)
  unfolding release
  release-degree id k child x = elim (Bool-cases (includes (parents_at child) id)) [
    | inl is_child ↦ rw is_child (
        degree-put k.degrees child x (lower_by_one (degree k.degrees child))
        ∙ ground (arith, text_eq_iff child x))
    | inr other ↦ rw other (ground arith)
  ]

  release-order :
      (id : Text) (k : Kahn) (child : Text) → (release rank ids parents id k child).order ≡ k.order
  unfolding release
  release-order id k child = elim (Bool-cases (includes (parents_at child) id)) [
    | inl is_child ↦ rw is_child refl
    | inr other ↦ rw other refl
  ]

  pub release_all-order :
      (id : Text) (todo : List Text) (k : Kahn)
      → (release_all rank ids parents id todo k).order ≡ k.order
  unfolding release_all
  release_all-order id [] k = refl
  release_all-order id (child ∷ todo) k =
      release_all-order id todo (release rank ids parents id k child) ∙ release-order id k child

  -- In a list of distinct ids, the degree of each child falls by one.
  pub release_all-degree :
      (id : Text) (todo : List Text) (k : Kahn) (x : Text)
      → IsDistinct todo
      → degree (release_all rank ids parents id todo k).degrees x ≡ (
          if includes todo x && includes (parents_at x) id
          then lower_by_one (degree k.degrees x)
          else degree k.degrees x)
  unfolding release_all includes
  release_all-degree id [] k x d = refl
  release_all-degree id (child ∷ todo) k x (new, d) =
      let k1 = release rank ids parents id k child in
      release_all-degree id todo k1 x d
      ∙ ground
          (arith, new, release-degree id k child x, includes-cons child todo x, text_eq_iff child x)

  -- Whether a child becomes ready when the id is taken.
  abbrev pub frees : Text → Kahn → Text → Bool
  frees id k x = includes (parents_at x) id && is_zero (lower_by_one (degree k.degrees x))

  release-ready :
      (id : Text) (k : Kahn) (child x : Text)
      → includes (release rank ids parents id k child).ready x
        ≡ (includes k.ready x || (text_eq child x && frees id k x))
  unfolding release
  release-ready id k child x = elim (Bool-cases (includes (parents_at child) id)) [
    | inl is_child ↦ elim (Bool-cases (is_zero (lower_by_one (degree k.degrees child)))) [
      | inl free ↦
          rw (is_child, free)
            (includes-sort_ids (k.ready ++ child ∷ []) x
              ∙ ground (arith, is_child, free, includes-snoc k.ready child x, text_eq_iff child x))
      | inr bound ↦ rw (is_child, bound) (ground (arith, is_child, bound, text_eq_iff child x))
    ]
    | inr other ↦ rw other (ground (arith, other, text_eq_iff child x))
  ]

  pub release_all-ready :
      (id : Text) (todo : List Text) (k : Kahn) (x : Text)
      → IsDistinct todo
      → includes (release_all rank ids parents id todo k).ready x
        ≡ (includes k.ready x || (includes todo x && frees id k x))
  unfolding release_all includes
  release_all-ready id [] k x d = ground arith
  release_all-ready id (child ∷ todo) k x (new, d) =
      let k1 = release rank ids parents id k child in
      release_all-ready id todo k1 x d
      ∙ ground (
        arith,
        new,
        release-ready id k child x,
        release-degree id k child x,
        includes-cons child todo x,
        text_eq_iff child x,
      )

  release-IsDistinct :
      (id : Text) (k : Kahn) (child : Text)
      → IsDistinct k.ready
      → (includes (parents_at child) id ≡ true → includes k.ready child ≡ false)
      → IsDistinct (release rank ids parents id k child).ready
  unfolding release
  release-IsDistinct id k child d apart = elim (Bool-cases (includes (parents_at child) id)) [
    | inl is_child ↦ elim (Bool-cases (is_zero (lower_by_one (degree k.degrees child)))) [
      | inl free ↦
          rw (is_child, free)
            (sort_ids-IsDistinct (k.ready ++ child ∷ [])
              (snoc-IsDistinct k.ready child (apart is_child) d))
      | inr bound ↦ rw (is_child, bound) d
    ]
    | inr other ↦ rw other d
  ]

  pub release_all-IsDistinct :
      (id : Text) (todo : List Text) (k : Kahn)
      → IsDistinct todo
      → IsDistinct k.ready
      → ((x : Text)
          → includes todo x ≡ true
          → includes (parents_at x) id ≡ true
          → includes k.ready x ≡ false)
      → IsDistinct (release_all rank ids parents id todo k).ready
  unfolding release_all
  release_all-IsDistinct id [] k distinct d apart = d
  release_all-IsDistinct id (child ∷ todo) k (new, distinct) d apart =
      let k1 = release rank ids parents id k child in
      release_all-IsDistinct id todo k1 distinct
        (release-IsDistinct id k child d
          (apart child (ground (arith, includes-cons child todo child, text_eq_self child))))
        (λ x in_todo is_child. ground (
          arith,
          new,
          in_todo,
          release-ready id k child x,
          includes-cons child todo x,
          text_eq_iff child x,
          apart x (ground (arith, in_todo, includes-cons child todo x)) is_child,
        ))
