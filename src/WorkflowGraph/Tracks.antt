-- ===== src/WorkflowGraph/Tracks.antt =====
-- What Kahn's algorithm keeps true from round to round, for distinct ids.
pub mod Steps
pub mod Runs
pub mod Exact
use receipts_sdk.Prelude.{
  ℕ, zero, suc, ◌-◌, ◌≤◌, ◌≡◌, refl, sym, ap, ◌∙◌, ◌⊎◌, inl, inr, true, false, Bool-cases, Option,
  some, or_else, List, [], ◌∷◌, ◌++◌, Text, text_eq, text_eq_iff, text_eq_self, ◌==◌, ==_iff,
  includes, length, keep, if◌then◌else◌, arith, &&-eq-true,
}
use receipts_sdk.Prelude.Maps.{Map, get, put}
use receipts_sdk.Types.{Number, SignedReceipt}
use receipts_sdk.WorkflowGraph.Kahn.{
  Degrees, lower_by_one, is_zero, degree, Kahn, degrees_from, release_all, start, kahn,
}
use receipts_sdk.WorkflowGraph.Orders.{
  IsDistinct, IsTopological, none_yet, then_id, includes-cons, includes-snoc, includes-keep,
  keep-IsDistinct, unmet, unmet_start, unmet-met, unmet-snoc, unmet-snoc-lt,
}
use receipts_sdk.WorkflowGraph.Releases.{
  degree-put, includes-sort_ids, sort_ids-IsDistinct, release_all-order, release_all-degree,
  release_all-ready, release_all-IsDistinct, frees,
}

-- In a topological order, the parents of each id are there.
pub IsTopological-met :
    {parents : Text → List Text} {order : List Text}
    → IsTopological parents order
    → (x : Text) → includes order x ≡ true
    → (q : Text) → includes (parents x) q ≡ true
    → includes order q ≡ true
unfolding includes
IsTopological-met none_yet x e q parent = absurd (cc)
IsTopological-met {parents} (then_id {order} id before new met) x e q parent =
    elim (Bool-cases (includes order x)) [
      | inl earlier ↦
          ground (arith, includes-snoc order id q, IsTopological-met before x earlier q parent)
      | inr last ↦
          let same : id ≡ x = ground (arith, last, e, includes-snoc order id x, text_eq_iff id x) in
          let of_id : includes (parents id) q ≡ true =
            ap (λ y. includes (parents y) q) same ∙ parent in
          ground (arith, includes-snoc order id q, met q of_id)
    ]

pub lower_by_one-some : (d : ℕ) → 1 ≤ d → lower_by_one (some d) ≡ some (d - 1)
lower_by_one-some zero le = absurd (omega (arith, le))
lower_by_one-some (suc d) le = ap some (omega arith)

module _ (rank : Number → Option ℕ) (ids : Map SignedReceipt) (parents : Map (List Text))
    (all : List Text) where
  abbrev parents_at : Text → List Text
  parents_at x = or_else (get parents x) []

  -- Degrees count what is unmet at least, and what is ready is new, with all its parents in the order.
  pub record OnTrack (k : Kahn) : Type 0 where
    pub topological : IsTopological parents_at k.order
    pub degrees :
        (x : Text)
        → includes all x ≡ true
        → (d : ℕ) × (degree k.degrees x ≡ some d) × (unmet k.order (parents_at x) ≤ d)
    pub members :
        (x : Text)
        → includes k.ready x ≡ true
        → (includes all x ≡ true)
          × (unmet k.order (parents_at x) ≡ 0)
          × (includes k.order x ≡ false)
    pub ready_distinct : IsDistinct k.ready
    pub within : (x : Text) → includes k.order x ≡ true → includes all x ≡ true

  pub degree-degrees_from :
      (xs : List Text) (m : Degrees) (x : Text)
      → degree (degrees_from rank ids parents xs m) x
        ≡ (if includes xs x then some (length (parents_at x)) else degree m x)
  unfolding degrees_from includes
  degree-degrees_from [] m x = refl
  degree-degrees_from (y ∷ xs) m x =
      let n = length (parents_at y) in
      degree-degrees_from xs (put m y (some n)) x
      ∙ ground (arith, includes-cons y xs x, degree-put m y x (some n), text_eq_iff y x)

  pub start-OnTrack : IsDistinct all → OnTrack (start rank ids parents all)
  unfolding start includes
  start-OnTrack distinct = record {
    topological = none_yet;
    degrees = λ x in_all. (
      length (parents_at x),
      rw (degree-degrees_from all [] x, in_all) refl,
      omega (arith, unmet_start (parents_at x)),
    );
    members = λ x in_ready.
        let sources = keep (λ y. is_zero (degree (degrees_from rank ids parents all []) y)) all in
        let (in_all, zero_degree) =
          includes-keep (λ y. is_zero (degree (degrees_from rank ids parents all []) y)) all x
            (sym (includes-sort_ids rank ids parents sources x) ∙ in_ready) in
        let none_there : (length (parents_at x) == 0) ≡ true =
          rw (degree-degrees_from all [] x, in_all) at zero_degree in
        (
          in_all,
          unmet_start (parents_at x) ∙ (==_iff (length (parents_at x)) 0).0 none_there,
          refl,
        );
    ready_distinct = sort_ids-IsDistinct rank ids parents _ (keep-IsDistinct _ all distinct);
    within = λ x there. absurd (cc);
  }
