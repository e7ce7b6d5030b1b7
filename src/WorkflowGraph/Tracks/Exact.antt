-- ===== src/WorkflowGraph/Tracks/Exact.antt =====
-- The degrees in Kahn's algorithm where every id names each of its parents once.
use receipts_sdk.Prelude.{
  ℕ, zero, suc, ◌+◌, ◌≡◌, refl, sym, ap, ◌∙◌, inl, inr, true, Bool-cases, ◌||◌, Option, some,
  or_else, List, [], ◌∷◌, ◌++◌, Text, text_eq_iff, text_eq_self, includes, keep, arith,
}
use receipts_sdk.Prelude.Maps.{Map, get}
use receipts_sdk.Types.{Number, SignedReceipt}
use receipts_sdk.WorkflowGraph.Kahn.{lower_by_one, is_zero, degree, Kahn, degrees_from, start, kahn}
use receipts_sdk.WorkflowGraph.Orders.{
  IsDistinct, IsTopological, none_yet, then_id, includes-cons, includes-snoc, keep-includes, unmet,
  unmet_start, unmet-snoc-eq, unmet_none,
}
use receipts_sdk.WorkflowGraph.Releases.{includes-sort_ids, release_all-degree, release_all-ready}
use receipts_sdk.WorkflowGraph.Tracks.{lower_by_one-some, OnTrack, degree-degrees_from}
use receipts_sdk.WorkflowGraph.Tracks.Steps.{next, next-OnTrack, head_member, next_order}
use receipts_sdk.WorkflowGraph.Tracks.Runs.{List-cases}

module _ (rank : Number → Option ℕ) (ids : Map SignedReceipt) (parents : Map (List Text))
    (all : List Text) (distinct : IsDistinct all)
    (once : (x : Text) → IsDistinct (or_else (get parents x) [])) where
  abbrev parents_at : Text → List Text
  parents_at x = or_else (get parents x) []

  pub record IsExact (k : Kahn) : Type 0 where
    pub counts :
        (x : Text)
        → includes all x ≡ true
        → degree k.degrees x ≡ some (unmet k.order (parents_at x))
    pub kept :
        (x : Text)
        → includes all x ≡ true
        → unmet k.order (parents_at x) ≡ 0
        → (includes k.ready x || includes k.order x) ≡ true

  pub start-IsExact : IsExact (start rank ids parents all)
  unfolding start
  start-IsExact = record {
    counts = λ x in_all.
        degree-degrees_from rank ids parents all all [] x
        ∙ rw in_all (ap some (sym (unmet_start (parents_at x))));
    kept = λ x in_all free.
        let degrees = degrees_from rank ids parents all [] in
        let at : degree degrees x ≡ some 0 =
          degree-degrees_from rank ids parents all all [] x
          ∙ rw in_all (ap some (sym (unmet_start (parents_at x)) ∙ free)) in
        let nought : is_zero (degree degrees x) ≡ true = rw at refl in
        ground (
          arith,
          includes-sort_ids rank ids parents (keep (λ y. is_zero (degree degrees y)) all) x,
          keep-includes (λ y. is_zero (degree degrees y)) all x in_all nought,
        );
  }

  module _ (k : Kahn) (track : OnTrack rank ids parents all k) (exact : IsExact k) (id : Text)
      (rest : List Text) (at_head : k.ready ≡ id ∷ rest) where
    abbrev k' : Kahn
    k' = next rank ids parents all distinct k track id rest at_head

    counts' :
        (x : Text)
        → includes all x ≡ true
        → degree k'.degrees x ≡ some (unmet (k.order ++ id ∷ []) (parents_at x))
    counts' x in_all =
        let (_, _, new) = head_member rank ids parents all distinct k track id rest at_head in
        let fewer = unmet-snoc-eq k.order (parents_at x) id new (once x) in
        release_all-degree rank ids parents id all
          (record k { ready = rest; order = k.order ++ id ∷ [] }) x distinct
        ∙ elim (Bool-cases (includes (parents_at x) id)) [
          | inl child ↦
              let one : unmet k.order (parents_at x)
                  ≡ unmet (k.order ++ id ∷ []) (parents_at x) + 1 =
                rw child at fewer in
              rw (in_all, child, exact.counts x in_all)
                (lower_by_one-some (unmet k.order (parents_at x)) (omega (arith, one))
                  ∙ ap some (omega (arith, one)))
          | inr other ↦ rw (in_all, other, exact.counts x in_all) (ap some (rw other at fewer))
        ]

    kept' :
        (x : Text)
        → includes all x ≡ true
        → unmet (k.order ++ id ∷ []) (parents_at x) ≡ 0
        → (includes k'.ready x || includes (k.order ++ id ∷ []) x) ≡ true
    kept' x in_all free =
        let (_, _, new) = head_member rank ids parents all distinct k track id rest at_head in
        let fewer = unmet-snoc-eq k.order (parents_at x) id new (once x) in
        let ready' =
          release_all-ready rank ids parents id all
            (record k { ready = rest; order = k.order ++ id ∷ [] }) x distinct in
        elim (Bool-cases (includes (parents_at x) id)) [
          | inl child ↦
              let one : unmet k.order (parents_at x) ≡ 1 =
                (rw child at fewer) ∙ ap (λ n. n + 1) free in
              let at : lower_by_one (degree k.degrees x) ≡ some 0 =
                ap lower_by_one (exact.counts x in_all ∙ ap some one) in
              let nought : is_zero (lower_by_one (degree k.degrees x)) ≡ true = rw at refl in
              ground (arith, ready', in_all, child, nought)
          | inr other ↦
              let was : (includes (id ∷ rest) x || includes k.order x) ≡ true =
                rw at_head at (exact.kept x in_all ((rw other at fewer) ∙ free)) in
              ground (arith, ready', was, includes-cons id rest x, includes-snoc k.order id x)
        ]

    next-IsExact : IsExact k'
    next-IsExact = record {
      counts = λ x in_all.
          rw (next_order rank ids parents all distinct k track id rest at_head) (counts' x in_all);
      kept = λ x in_all free.
          let order' = next_order rank ids parents all distinct k track id rest at_head in
          rw order' (kept' x in_all (rw order' at free));
    }

  pub kahn-IsExact :
      (f : ℕ) (k : Kahn)
      → OnTrack rank ids parents all k
      → IsExact k
      → IsExact (kahn rank ids parents all f k)
  unfolding kahn
  kahn-IsExact zero k track exact = exact
  kahn-IsExact (suc f) k track exact = elim (List-cases k.ready) [
    | inl done ↦ rw (kahn, done) exact
    | inr (parts, more) ↦
        let (id, rest) = parts in
        rw (kahn, more)
          (kahn-IsExact f (next rank ids parents all distinct k track id rest more)
            (next-OnTrack rank ids parents all distinct k track id rest more)
            (next-IsExact k track exact id rest more))
  ]

  -- Where some order of the ids has every parent first, and nothing is ready, no id of it is left out.
  pub whole :
      {o : List Text} (k : Kahn)
      → IsExact k
      → k.ready ≡ []
      → IsTopological parents_at o
      → ((q : Text) → includes o q ≡ true → includes all q ≡ true)
      → (x : Text) → includes o x ≡ true
      → includes k.order x ≡ true
  unfolding includes
  whole k exact ended none_yet inside x in_o = absurd (cc)
  whole k exact ended (then_id {order} id before new met) inside x in_o =
      let earlier : (y : Text) → includes order y ≡ true → includes k.order y ≡ true =
        whole k exact ended before
          (λ q there. inside q (ground (arith, there, includes-snoc order id q))) in
      elim (Bool-cases (includes order x)) [
        | inl there ↦ earlier x there
        | inr last ↦
            let same : id ≡ x =
              ground (arith, last, in_o, includes-snoc order id x, text_eq_iff id x) in
            let in_all : includes all id ≡ true =
              inside id (ground (arith, includes-snoc order id id, text_eq_self id)) in
            let free = unmet_none k.order (parents_at id) (λ q parent. earlier q (met q parent)) in
            let found : (includes [] id || includes k.order id) ≡ true =
              rw ended at (exact.kept id in_all free) in
            rw (← same) found
      ]
