-- ===== src/WorkflowGraph/Topological.antt =====
-- The order of the steps that reconstructWorkflow gives.
use receipts_sdk.Prelude.{
  ℕ, ◌+◌, ◌≤◌, ◌≡◌, refl, ap, ◌∙◌, inl, inr, true, false, Bool-cases, Option-cases, ◌||◌, Option,
  is_some, List, [], ◌∷◌, map, length-map, Text, text_eq, text_eq_iff, text_eq_self, ==_iff,
  includes, length, All, if◌then◌else◌, arith,
}
use receipts_sdk.Prelude.Maps.{Map, get, put, get-put}
use receipts_sdk.Types.{Number, SignedReceipt}
use receipts_sdk.WorkflowGraph.{
  WorkflowStep, GraphOptions, id_of, by_id, parents_map, parents_of, steps_from, graph_of, run_of,
  target_workflow, else_try, first_tenant, reconstruct_workflow,
}
use receipts_sdk.WorkflowGraph.Kahn.{kahn, start}
use receipts_sdk.WorkflowGraph.Orders.{
  IsDistinct, IsTopological, none_yet, then_id, includes-cons, snoc-IsDistinct,
}
use receipts_sdk.WorkflowGraph.Tracks.Runs.{kahn-IsTopological}

pub without : Text → List Text → List Text
without x [] = []
without x (y ∷ ys) = let rest = without x ys in if text_eq y x then ys else y ∷ rest

pub length-without :
    (x : Text) (ys : List Text) → includes ys x ≡ true → length (without x ys) + 1 ≡ length ys
unfolding without includes
length-without x [] e = absurd (cc)
length-without x (y ∷ ys) e = elim (Bool-cases (text_eq y x)) [
  | inl same ↦ rw same (omega arith)
  | inr apart ↦ rw apart (omega (arith, length-without x ys (rw (includes, apart) at e)))
]

pub includes-without :
    (x : Text) (ys : List Text) (z : Text)
    → includes ys z ≡ true
    → text_eq x z ≡ false
    → includes (without x ys) z ≡ true
unfolding without includes
includes-without x [] z e apart = e
includes-without x (y ∷ ys) z e apart = elim (Bool-cases (text_eq y x)) [
  | inl same ↦ rw same (ground (arith, e, apart, same, includes-cons y ys z, text_eq_iff y x))
  | inr other ↦ rw other (
      ground
        (arith, e, includes-cons y ys z, includes-cons y (without x ys) z, includes-without x ys z))
]

-- Distinct entries that all lie in a list no longer than theirs are all of it.
fills :
    (xs ys : List Text)
    → IsDistinct xs
    → ((w : Text) → includes xs w ≡ true → includes ys w ≡ true)
    → length ys ≤ length xs
    → (z : Text) → includes ys z ≡ true
    → includes xs z ≡ true
fills [] [] d inside short z e = e
fills [] (y ∷ ys) d inside short z e = absurd (omega (arith, short))
fills (x ∷ xs) ys (new, d) inside short z e = elim (Bool-cases (text_eq x z)) [
  | inl same ↦ ground (arith, same, includes-cons x xs z)
  | inr apart ↦
      let has_x : includes ys x ≡ true =
        inside x (ground (arith, includes-cons x xs x, text_eq_self x)) in
      let rest =
        fills xs (without x ys) d
          (λ w there.
            includes-without x ys w (inside w (ground (arith, there, includes-cons x xs w)))
              (ground (arith, new, there, text_eq_iff x w)))
          (omega (arith, length-without x ys has_x, short)) z (includes-without x ys z e apart) in
      ground (arith, rest, includes-cons x xs z)
]

pub IsTopological-IsDistinct :
    {parents : Text → List Text} {order : List Text}
    → IsTopological parents order
    → IsDistinct order
IsTopological-IsDistinct none_yet = tt
IsTopological-IsDistinct (then_id {order} id before new met) =
    snoc-IsDistinct order id new (IsTopological-IsDistinct before)

get-by_id :
    (run : List SignedReceipt) (m : Map SignedReceipt) (x : Text)
    → is_some (get (by_id run m) x) ≡ (includes (map id_of run) x || is_some (get m x))
unfolding by_id includes
get-by_id [] m x = refl
get-by_id (r ∷ run) m x =
    get-by_id run (put m (id_of r) r) x
    ∙ ground (
      arith,
      includes-cons (id_of r) (map id_of run) x,
      get-put m (id_of r) x r,
      text_eq_iff (id_of r) x,
    )

-- Every id of the order gives a step.
map-steps_from :
    (ids : Map SignedReceipt) (parents : Map (List Text)) (i : ℕ) (order : List Text)
    → ((x : Text) → includes order x ≡ true → is_some (get ids x) ≡ true)
    → map (λ (s : WorkflowStep). s.receipt_id) (steps_from ids parents i order) ≡ order
unfolding steps_from
map-steps_from ids parents i [] known = refl
map-steps_from ids parents i (id ∷ order) known =
    let rest =
      map-steps_from ids parents (i + 1) order
        (λ x there. known x (ground (arith, there, includes-cons id order x))) in
    elim (Option-cases (get ids id)) [
      | inl missing ↦ absurd (
          let e : is_some (get ids id) ≡ true =
            known id (ground (arith, includes-cons id order id, text_eq_self id)) in
          let wrong : false ≡ true = rw missing at e in cc)
      | inr (r, found) ↦ rw (steps_from, found) (ap (λ xs. id ∷ xs) rest)
    ]

All-includes :
    {P : Text → Type 0} (xs : List Text) → ((x : Text) → includes xs x ≡ true → P x) → All P xs
All-includes [] each = tt
All-includes (x ∷ xs) each = (
  each x (ground (arith, includes-cons x xs x, text_eq_self x)),
  All-includes xs (λ y there. each y (ground (arith, there, includes-cons x xs y))),
)

-- The receipts of the run, and the present parents of an id in it.
abbrev pub run_in : List SignedReceipt → GraphOptions → List SignedReceipt
run_in rs opts =
    run_of rs (target_workflow rs opts)
      (else_try opts.tenant_id (first_tenant rs (target_workflow rs opts)))

abbrev pub present_in : List SignedReceipt → Text → List Text
present_in run id = parents_of (parents_map (by_id run []) run []) id

module _ (rank : Number → Option ℕ) (wf : Option Text) (run : List SignedReceipt)
    (distinct : IsDistinct (map id_of run)) where
  abbrev pub kahn_order : List Text
  kahn_order =
      (kahn rank (by_id run []) (parents_map (by_id run []) run []) (map id_of run)
        (length run + length run)
        (start rank (by_id run []) (parents_map (by_id run []) run []) (map id_of run))).order

  pub kahn_order-facts :
      IsTopological (present_in run) kahn_order
      × ((x : Text) → includes kahn_order x ≡ true → includes (map id_of run) x ≡ true)
  kahn_order-facts =
      kahn-IsTopological rank (by_id run []) (parents_map (by_id run []) run []) (map id_of run)
        distinct (length run + length run)

  graph_of-order : (graph_of rank wf run).order ≡ kahn_order
  unfolding graph_of
  graph_of-order =
      map-steps_from (by_id run []) (parents_map (by_id run []) run []) 0 kahn_order
        (λ x there. get-by_id run [] x ∙ ground (arith, kahn_order-facts.1 x there))

  graph_of-IsTopological :
      IsTopological (present_in run) (graph_of rank wf run).order
      × All (λ x. includes (map id_of run) x ≡ true) (graph_of rank wf run).order
  graph_of-IsTopological =
      rw graph_of-order (kahn_order-facts.0, All-includes kahn_order kahn_order-facts.1)

  graph_of-whole :
      (graph_of rank wf run).acyclic ≡ true
      → All (λ x. includes (graph_of rank wf run).order x ≡ true) (map id_of run)
  unfolding graph_of
  graph_of-whole acyclic =
      let counts : length kahn_order ≡ length run =
        (==_iff (length kahn_order) (length run)).0 acyclic in
      let all_there : All (λ x. includes kahn_order x ≡ true) (map id_of run) =
        All-includes (map id_of run) (
          fills kahn_order (map id_of run) (IsTopological-IsDistinct kahn_order-facts.0)
            kahn_order-facts.1 (omega (arith, counts, length-map run id_of))) in
      rw graph_of-order all_there

-- In a run whose receipts have distinct ids, the order of the graph has only ids of the run, each at most once and
-- after all its present parents, also where the run has a cycle.
pub reconstruct_workflow-IsTopological :
    (rank : Number → Option ℕ) (rs : List SignedReceipt) (opts : GraphOptions)
    → IsDistinct (map id_of (run_in rs opts))
    → IsTopological (present_in (run_in rs opts)) (reconstruct_workflow rank rs opts).order
      × All
          (λ x. includes (map id_of (run_in rs opts)) x ≡ true)
          (reconstruct_workflow rank rs opts).order
unfolding reconstruct_workflow
reconstruct_workflow-IsTopological rank rs opts distinct =
    graph_of-IsTopological rank (target_workflow rs opts) (run_in rs opts) distinct

-- If the graph is called acyclic as well, its order has every id of the run.
pub reconstruct_workflow_whole :
    (rank : Number → Option ℕ) (rs : List SignedReceipt) (opts : GraphOptions)
    → IsDistinct (map id_of (run_in rs opts))
    → (reconstruct_workflow rank rs opts).acyclic ≡ true
    → All
        (λ x. includes (reconstruct_workflow rank rs opts).order x ≡ true)
        (map id_of (run_in rs opts))
unfolding reconstruct_workflow
reconstruct_workflow_whole rank rs opts distinct acyclic =
    graph_of-whole rank (target_workflow rs opts) (run_in rs opts) distinct acyclic
