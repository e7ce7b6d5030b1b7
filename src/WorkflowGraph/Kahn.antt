-- ===== src/WorkflowGraph/Kahn.antt =====
-- Kahn's algorithm of workflow-graph.ts, on the ids of a run and their present parents.
use receipts_sdk.Prelude.{
  ℕ, zero, suc, Bool, false, ◌&&◌, ◌||◌, Option, none, some, or_else, List, [], ◌∷◌, ◌++◌, Text,
  length, ltb, ◌==◌, keep, includes, if◌then◌else◌,
}
use receipts_sdk.Prelude.Maps.{Map, get, put}
use receipts_sdk.Types.{Number, SignedReceipt}
use receipts_sdk.Guardian.Reviews.{text_leb}

-- `indeg`: `none` for a number below 0, which never comes back to 0.
abbrev pub Degrees : Type 0
Degrees = Map (Option ℕ)

-- `d - 1`
abbrev pub lower_by_one : Option ℕ → Option ℕ
lower_by_one none = none
lower_by_one (some zero) = none
lower_by_one (some (suc n)) = some n

abbrev pub is_zero : Option ℕ → Bool
is_zero none = false
is_zero (some n) = n == 0

abbrev pub degree : Degrees → Text → Option ℕ
degree m id = or_else (get m id) (some 0)

pub record Kahn : Type 0 where
  pub degrees : Degrees
  pub ready : List Text
  pub order : List Text

module _ (rank : Number → Option ℕ) (ids : Map SignedReceipt) (parents : Map (List Text)) where
  abbrev pub height_of : Option SignedReceipt → Option ℕ
  height_of none = none
  height_of (some r) = rank r.receipt.integrity.chain_height

  -- `ra - rb || (a < b ? -1 : a > b ? 1 : 0)` is not above 0. A difference that is not a number
  -- leaves the texts to decide.
  abbrev pub by_height : Option ℕ → Option ℕ → Text → Text → Bool
  by_height (some i) (some j) a b = ltb i j || ((i == j) && text_leb a b)
  by_height _ _ a b = text_leb a b

  unfoldable pub insert_id : Text → List Text → List Text
  insert_id a [] = a ∷ []
  insert_id a (b ∷ rest) =
      let more = insert_id a rest in
      if by_height (height_of (get ids a)) (height_of (get ids b)) a b
      then a ∷ b ∷ rest
      else b ∷ more

  -- `sort(cmp)`
  unfoldable pub sort_ids : List Text → List Text
  sort_ids [] = []
  sort_ids (a ∷ rest) = insert_id a (sort_ids rest)

  unfoldable pub degrees_from : List Text → Degrees → Degrees
  degrees_from [] m = m
  degrees_from (id ∷ rest) m =
      degrees_from rest (put m id (some (length (or_else (get parents id) []))))

  -- One child of the id that was taken.
  unfoldable pub release : Text → Kahn → Text → Kahn
  release id k child =
      let d = lower_by_one (degree k.degrees child) in
      if includes (or_else (get parents child) []) id
      then record k {
        degrees = put k.degrees child d;
        ready = if is_zero d then sort_ids (k.ready ++ child ∷ []) else k.ready;
      }
      else k

  unfoldable pub release_all : Text → List Text → Kahn → Kahn
  release_all id [] k = k
  release_all id (child ∷ rest) k = release_all id rest (release id k child)

  module _ (all : List Text) where
    unfoldable pub start : Kahn
    start =
        let degrees = degrees_from all [] in
        record {
          degrees = degrees;
          ready = sort_ids (keep (λ id. is_zero (degree degrees id)) all);
          order = [];
        }

    -- `while (ready.length)`: with two rounds for each member of the run, which are enough.
    unfoldable pub kahn : ℕ → Kahn → Kahn
    kahn zero k = k
    kahn (suc f) k = elim k.ready [
      | [] ↦ k
      | id ∷ rest ↦
          kahn f (release_all id all (record k { ready = rest; order = k.order ++ id ∷ [] }))
    ]
