-- ===== src/WorkflowGraph/Rounds.antt =====
-- The loop of Kahn's algorithm ends: what is ready and what is still to become ready grows smaller.
use receipts_sdk.Prelude.{
  ℕ, zero, suc, ◌+◌, ◌≤◌, ◌≡◌, refl, sym, ap, ◌∙◌, inl, inr, Bool, true, false, Bool-cases, Option,
  none, some, or_else, List, [], ◌∷◌, ◌++◌, map, Text, text_eq, length, length-append, length-map,
  keep, includes, if◌then◌else◌, arith,
}
use receipts_sdk.Prelude.Maps.{Map, get, put}
use receipts_sdk.Types.{Number, SignedReceipt}
use receipts_sdk.WorkflowGraph.{id_of, by_id, parents_map}
use receipts_sdk.WorkflowGraph.Kahn.{
  Degrees, lower_by_one, is_zero, degree, Kahn, insert_id, sort_ids, degrees_from, release,
  release_all, start, kahn,
}

abbrev weight : Option ℕ → ℕ
weight none = 0
weight (some zero) = 0
weight (some (suc n)) = 1

-- How many ids may still become ready.
abbrev waiting : Degrees → ℕ
waiting [] = 0
waiting ((id, d) ∷ m) = weight d + waiting m

abbrev freed : Option ℕ → ℕ
freed d = if is_zero d then 1 else 0

weight-lower_by_one : (d : Option ℕ) → weight (lower_by_one d) + freed (lower_by_one d) ≤ weight d
weight-lower_by_one none = omega arith
weight-lower_by_one (some zero) = omega arith
weight-lower_by_one (some (suc zero)) = omega arith
weight-lower_by_one (some (suc (suc n))) = grind arith

degree-here :
    (j id : Text) (d : Option ℕ) (m : Degrees) → text_eq j id ≡ true → degree ((j, d) ∷ m) id ≡ d
unfolding get
degree-here j id d m same = rw (get, same) refl

degree-later :
    (j id : Text) (d : Option ℕ) (m : Degrees)
    → text_eq j id ≡ false
    → degree ((j, d) ∷ m) id ≡ degree m id
unfolding get
degree-later j id d m apart = rw (get, apart) refl

-- An id whose degree falls to 0 waits no more.
waiting-put :
    (m : Degrees) (id : Text) (d : Option ℕ)
    → degree m id ≡ d
    → waiting (put m id (lower_by_one d)) + freed (lower_by_one d) ≤ waiting m
unfolding get put
waiting-put [] id none at = omega arith
waiting-put [] id (some zero) at = omega arith
waiting-put [] id (some (suc n)) at = absurd (ground (arith, at))
waiting-put ((j, c) ∷ m) id d at = elim (Bool-cases (text_eq j id)) [
  | inl same ↦
      let is_c : c ≡ d = sym (degree-here j id c m same) ∙ at in
      rw (put, same) (omega (arith, ap weight is_c, weight-lower_by_one d))
  | inr apart ↦
      rw (put, apart) (omega (arith, waiting-put m id d (sym (degree-later j id c m apart) ∙ at)))
]

waiting-put-some : (m : Degrees) (id : Text) (n : ℕ) → waiting (put m id (some n)) ≤ waiting m + 1
unfolding put
waiting-put-some [] id zero = omega arith
waiting-put-some [] id (suc n) = omega arith
waiting-put-some ((j, d) ∷ m) id n = elim (Bool-cases (text_eq j id)) [
  | inl same ↦ rw (put, same) (omega (arith, weight-some n))
  | inr apart ↦ rw (put, apart) (omega (arith, waiting-put-some m id n))
]
  where
    weight-some : (n : ℕ) → weight (some n) ≤ 1
    weight-some zero = omega arith
    weight-some (suc n) = omega arith

keep-length : (test : Text → Bool) (xs : List Text) → length (keep test xs) ≤ length xs
unfolding keep
keep-length test [] = omega arith
keep-length test (x ∷ xs) = elim (Bool-cases (test x)) [
  | inl holds ↦ rw (keep, holds) (omega (arith, keep-length test xs))
  | inr fails ↦ rw (keep, fails) (omega (arith, keep-length test xs))
]

module _ (rank : Number → Option ℕ) (ids : Map SignedReceipt) (parents : Map (List Text)) where
  length-insert_id :
      (a : Text) (xs : List Text) → length (insert_id rank ids parents a xs) ≡ suc (length xs)
  unfolding insert_id
  length-insert_id a [] = refl
  length-insert_id a (b ∷ xs) = ground (arith, length-insert_id a xs)

  length-sort_ids : (xs : List Text) → length (sort_ids rank ids parents xs) ≡ length xs
  unfolding sort_ids
  length-sort_ids [] = refl
  length-sort_ids (x ∷ xs) =
      length-insert_id x (sort_ids rank ids parents xs) ∙ ap suc (length-sort_ids xs)

  abbrev left : Kahn → ℕ
  left k = length k.ready + waiting k.degrees

  left-release :
      (id : Text) (k : Kahn) (child : Text) → left (release rank ids parents id k child) ≤ left k
  unfolding release
  left-release id k child = elim (Bool-cases (includes (or_else (get parents child) []) id)) [
    | inl is_child ↦
        let down = waiting-put k.degrees child (degree k.degrees child) refl in
        elim (Bool-cases (is_zero (lower_by_one (degree k.degrees child)))) [
          | inl free ↦
              rw (is_child, free)
                (omega (
                  arith,
                  rw free at down,
                  length-sort_ids (k.ready ++ child ∷ []),
                  length-append k.ready (child ∷ []),
                ))
          | inr bound ↦ rw (is_child, bound) (omega (arith, rw bound at down))
        ]
    | inr other ↦ rw other (omega arith)
  ]

  left-release_all :
      (id : Text) (all : List Text) (k : Kahn)
      → left (release_all rank ids parents id all k) ≤ left k
  unfolding release_all
  left-release_all id [] k = omega arith
  left-release_all id (child ∷ rest) k = omega (
    arith,
    left-release_all id rest (release rank ids parents id k child),
    left-release id k child,
  )

  kahn_ends_from :
      (all : List Text) (f : ℕ) (degrees : Degrees) (ready order : List Text)
      → left (record { degrees = degrees; ready = ready; order = order }) ≤ f
      → (kahn rank ids parents all f
          (record { degrees = degrees; ready = ready; order = order })).ready
        ≡ []
  unfolding kahn
  kahn_ends_from all zero degrees [] order fits = refl
  kahn_ends_from all zero degrees (id ∷ rest) order fits = absurd (omega (arith, fits))
  kahn_ends_from all (suc f) degrees [] order fits = refl
  kahn_ends_from all (suc f) degrees (id ∷ rest) order fits =
      let k : Kahn = record { degrees = degrees; ready = rest; order = order ++ id ∷ [] } in
      let next = release_all rank ids parents id all k in
      kahn_ends_from all f next.degrees next.ready next.order
        (omega (arith, fits, left-release_all id all k))

  waiting-degrees_from :
      (all : List Text) (m : Degrees)
      → waiting (degrees_from rank ids parents all m) ≤ waiting m + length all
  unfolding degrees_from
  waiting-degrees_from [] m = omega arith
  waiting-degrees_from (id ∷ all) m =
      let n = length (or_else (get parents id) []) in
      omega (arith, waiting-degrees_from all (put m id (some n)), waiting-put-some m id n)

  start_ends :
      (all : List Text)
      → (kahn rank ids parents all (length all + length all) (start rank ids parents all)).ready
        ≡ []
  unfolding start
  start_ends all =
      let degrees = degrees_from rank ids parents all [] in
      let sources = keep (λ id. is_zero (degree degrees id)) all in
      kahn_ends_from all (length all + length all) degrees (sort_ids rank ids parents sources) [] (
        omega (
          arith,
          length-sort_ids sources,
          keep-length (λ id. is_zero (degree degrees id)) all,
          waiting-degrees_from all [],
        ))

-- The ordering of a run ends: two rounds of the loop for each receipt of the run empty the list of
-- what is ready, also where receipts share an id or name a parent twice.
pub kahn_ends :
    (rank : Number → Option ℕ) (run : List SignedReceipt)
    → (kahn rank
        (by_id run [])
        (parents_map (by_id run []) run [])
        (map id_of run)
        (length run + length run)
        (start rank (by_id run []) (parents_map (by_id run []) run []) (map id_of run))).ready
      ≡ []
kahn_ends rank run =
    rw (← length-map run id_of)
      (start_ends rank (by_id run []) (parents_map (by_id run []) run []) (map id_of run))
