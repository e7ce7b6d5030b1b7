-- ===== src/WorkflowGraph/Acyclic.antt =====
-- When reconstructWorkflow calls a run acyclic.
use receipts_sdk.Prelude.{
  ℕ, ◌+◌, ◌≤◌, ◌≡◌, ◌↔◌, inl, inr, true, Bool-cases, Option, or_else, List, [], ◌∷◌, map,
  length-map, Text, text_eq, text_eq_iff, text_eq_self, ==_iff, includes, length, All, arith,
}
use receipts_sdk.Prelude.Maps.{Map, get, put, get-put}
use receipts_sdk.Types.{Number, SignedReceipt}
use receipts_sdk.WorkflowGraph.{
  GraphOptions, id_of, by_id, present_parents, parents_map, recorded_parents, graph_of,
  target_workflow, reconstruct_workflow,
}
use receipts_sdk.WorkflowGraph.Kahn.{kahn, start}
use receipts_sdk.WorkflowGraph.Rounds.{kahn_ends}
use receipts_sdk.WorkflowGraph.Orders.{IsDistinct, IsTopological, includes-cons, keep-IsDistinct}
use receipts_sdk.WorkflowGraph.Tracks.{start-OnTrack}
use receipts_sdk.WorkflowGraph.Tracks.Exact.{start-IsExact, kahn-IsExact, whole}
use receipts_sdk.WorkflowGraph.Topological.{
  without, length-without, includes-without, IsTopological-IsDistinct, run_in, present_in,
  kahn_order, kahn_order-facts, reconstruct_workflow-IsTopological, reconstruct_workflow_whole,
}

-- Distinct entries that all lie in a list are no more than it has.
fits :
    (xs ys : List Text)
    → IsDistinct xs
    → ((w : Text) → includes xs w ≡ true → includes ys w ≡ true)
    → length xs ≤ length ys
fits [] ys d inside = omega arith
fits (x ∷ xs) ys (new, d) inside =
    let has_x : includes ys x ≡ true =
      inside x (ground (arith, includes-cons x xs x, text_eq_self x)) in
    let rest = fits xs (without x ys) d (λ w there.
      includes-without x ys w (inside w (ground (arith, there, includes-cons x xs w)))
        (ground (arith, new, there, text_eq_iff x w))) in
    omega (arith, rest, length-without x ys has_x)

All-at :
    (xs ys : List Text)
    → All (λ y. includes xs y ≡ true) ys
    → (y : Text) → includes ys y ≡ true
    → includes xs y ≡ true
unfolding includes
All-at xs [] each y there = absurd (cc)
All-at xs (z ∷ ys) (one, each) y there =
    ground (arith, one, there, includes-cons z ys y, text_eq_iff z y, All-at xs ys each y)

parents_map-IsDistinct :
    (ids : Map SignedReceipt) (run : List SignedReceipt) (m : Map (List Text))
    → All (λ r. IsDistinct (recorded_parents r)) run
    → ((x : Text) → IsDistinct (or_else (get m x) []))
    → (x : Text) → IsDistinct (or_else (get (parents_map ids run m) x) [])
unfolding parents_map present_parents
parents_map-IsDistinct ids [] m each before x = before x
parents_map-IsDistinct ids (r ∷ run) m (one, each) before x =
    parents_map-IsDistinct ids run (put m (id_of r) (present_parents ids r)) each
      (λ y. elim (Bool-cases (text_eq (id_of r) y)) [
        | inl same ↦
            rw (get-put m (id_of r) y (present_parents ids r), same)
              (keep-IsDistinct _ (recorded_parents r) one)
        | inr apart ↦ rw (get-put m (id_of r) y (present_parents ids r), apart) (before y)
      ])
      x

-- An order of the ids of a run in which every id comes after its present parents.
abbrev pub HasOrder : List SignedReceipt → Type 0
HasOrder run =
    (o : List Text) × IsTopological (present_in run) o
    × All (λ x. includes (map id_of run) x ≡ true) o
    × All (λ x. includes o x ≡ true) (map id_of run)

module _ (rank : Number → Option ℕ) (wf : Option Text) (run : List SignedReceipt)
    (distinct : IsDistinct (map id_of run))
    (once : All (λ r. IsDistinct (recorded_parents r)) run) where
  order_whole :
      HasOrder run
      → (x : Text) → includes (map id_of run) x ≡ true
      → includes (kahn_order rank wf run distinct) x ≡ true
  unfolding get
  order_whole (o, topological, inside, covers) x there =
      let ids = by_id run [] in
      let parents = parents_map ids run [] in
      let named_once = parents_map-IsDistinct ids run [] once (λ y. tt) in
      let first = start rank ids parents (map id_of run) in
      let f = length run + length run in
      let track = start-OnTrack rank ids parents (map id_of run) distinct in
      let exact =
        kahn-IsExact rank ids parents (map id_of run) distinct named_once f first track
          (start-IsExact rank ids parents (map id_of run) distinct named_once) in
      whole rank ids parents (map id_of run) distinct named_once
        (kahn rank ids parents (map id_of run) f first) exact (kahn_ends rank run) topological
        (All-at (map id_of run) o inside) x (All-at o (map id_of run) covers x there)

  graph_of-acyclic : HasOrder run → (graph_of rank wf run).acyclic ≡ true
  unfolding graph_of
  graph_of-acyclic has_order =
      let order = kahn_order rank wf run distinct in
      let (topological, inside) = kahn_order-facts rank wf run distinct in
      let short = fits order (map id_of run) (IsTopological-IsDistinct topological) inside in
      let long = fits (map id_of run) order distinct (order_whole has_order) in
      (==_iff (length order) (length run)).1 (omega (arith, short, long, length-map run id_of))

-- In a run whose receipts have distinct ids and name each parent once, the graph is called acyclic
-- exactly if the ids of the run have an order in which every id comes after its present parents.
pub reconstruct_workflow-HasOrder :
    (rank : Number → Option ℕ) (rs : List SignedReceipt) (opts : GraphOptions)
    → IsDistinct (map id_of (run_in rs opts))
    → All (λ r. IsDistinct (recorded_parents r)) (run_in rs opts)
    → ((reconstruct_workflow rank rs opts).acyclic ≡ true) ↔ HasOrder (run_in rs opts)
reconstruct_workflow-HasOrder rank rs opts distinct once =
    let (topological, inside) = reconstruct_workflow-IsTopological rank rs opts distinct in
    (
      λ acyclic. (
        (reconstruct_workflow rank rs opts).order,
        topological,
        inside,
        reconstruct_workflow_whole rank rs opts distinct acyclic,
      ),
      unfold reconstruct_workflow in
          graph_of-acyclic rank (target_workflow rs opts) (run_in rs opts) distinct once,
    )
