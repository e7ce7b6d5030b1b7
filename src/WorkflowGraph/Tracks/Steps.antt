-- ===== src/WorkflowGraph/Tracks/Steps.antt =====
-- One round of Kahn's algorithm.
use receipts_sdk.Prelude.{
  ℕ, ◌-◌, ◌≤◌, ◌≡◌, ap, ◌∙◌, inl, inr, true, false, Bool-cases, Option, some, or_else, List, [],
  ◌∷◌, ◌++◌, Text, text_eq, text_eq_iff, text_eq_self, ==_iff, includes, arith, &&-eq-true,
}
use receipts_sdk.Prelude.Maps.{Map, get}
use receipts_sdk.Types.{Number, SignedReceipt}
use receipts_sdk.WorkflowGraph.Kahn.{lower_by_one, is_zero, degree, Kahn, release_all}
use receipts_sdk.WorkflowGraph.Orders.{
  IsDistinct, IsTopological, then_id, includes-cons, includes-snoc, unmet, unmet-met, unmet-snoc,
  unmet-snoc-lt,
}
use receipts_sdk.WorkflowGraph.Releases.{
  release_all-order, release_all-degree, release_all-ready, release_all-IsDistinct, frees,
}
use receipts_sdk.WorkflowGraph.Tracks.{IsTopological-met, lower_by_one-some, OnTrack}

module _ (rank : Number → Option ℕ) (ids : Map SignedReceipt) (parents : Map (List Text))
    (all : List Text) (distinct : IsDistinct all) (k : Kahn)
    (track : OnTrack rank ids parents all k) (id : Text) (rest : List Text)
    (at_head : k.ready ≡ id ∷ rest) where
  abbrev parents_at : Text → List Text
  parents_at x = or_else (get parents x) []

  abbrev pub taken : Kahn
  taken = record k { ready = rest; order = k.order ++ id ∷ [] }

  abbrev pub next : Kahn
  next = release_all rank ids parents id all taken

  pub head_member :
      (includes all id ≡ true) × (unmet k.order (parents_at id) ≡ 0) × (includes k.order id ≡ false)
  head_member =
      track.members id (rw at_head (ground (arith, includes-cons id rest id, text_eq_self id)))

  -- An id whose parents are all in the order is no child of the one that is taken.
  no_child :
      (y : Text)
      → ((q : Text) → includes (parents_at y) q ≡ true → includes k.order q ≡ true)
      → includes (parents_at y) id ≡ false
  no_child y met =
      let (_, _, new) = head_member in
      elim (Bool-cases (includes (parents_at y) id)) [
        | inl child ↦ absurd (ground (arith, new, met id child))
        | inr other ↦ other
      ]

  no_child_ready :
      (x : Text)
      → includes rest x ≡ true
      → (includes all x ≡ true)
        × (unmet k.order (parents_at x) ≡ 0)
        × (includes k.order x ≡ false)
        × (includes (parents_at x) id ≡ false)
  no_child_ready x in_rest =
      let (in_all, unmet_none, new) =
        track.members x (rw at_head (ground (arith, in_rest, includes-cons id rest x))) in
      (in_all, unmet_none, new, no_child x (unmet-met k.order (parents_at x) unmet_none))

  pub next_order : next.order ≡ k.order ++ id ∷ []
  next_order = release_all-order rank ids parents id all taken

  next-IsTopological : IsTopological parents_at next.order
  next-IsTopological =
      let (_, unmet_none, new) = head_member in
      rw next_order
        (then_id id track.topological new (unmet-met k.order (parents_at id) unmet_none))

  -- The degree of a child that is not yet in the order was above 0.
  child_degree :
      (x : Text)
      → includes all x ≡ true
      → includes (parents_at x) id ≡ true
      → (d : ℕ) × (lower_by_one (degree k.degrees x) ≡ some d)
        × (unmet (k.order ++ id ∷ []) (parents_at x) ≤ d)
  child_degree x in_all child =
      let (d, at, le) = track.degrees x in_all in
      let (_, _, new) = head_member in
      let fewer = unmet-snoc-lt k.order (parents_at x) id new child in
      (
        d - 1,
        ap lower_by_one at ∙ lower_by_one-some d (omega (arith, fewer, le)),
        omega (arith, fewer, le),
      )

  next_degrees :
      (x : Text)
      → includes all x ≡ true
      → (d : ℕ) × (degree next.degrees x ≡ some d) × (unmet next.order (parents_at x) ≤ d)
  next_degrees x in_all = elim (Bool-cases (includes (parents_at x) id)) [
    | inl child ↦
        let (d, at, le) = child_degree x in_all child in
        (
          d,
          release_all-degree rank ids parents id all taken x distinct ∙ rw (in_all, child) at,
          rw next_order le,
        )
    | inr other ↦
        let (d, at, le) = track.degrees x in_all in
        (
          d,
          release_all-degree rank ids parents id all taken x distinct ∙ rw (in_all, other) at,
          rw next_order (omega (arith, le, unmet-snoc k.order (parents_at x) id)),
        )
  ]

  -- A child that the round frees is new.
  child_new :
      (x : Text)
      → includes (parents_at x) id ≡ true
      → (includes k.order x ≡ false) × (text_eq id x ≡ false)
  child_new x child =
      let (_, unmet_none, new) = head_member in
      let not_own = no_child id (unmet-met k.order (parents_at id) unmet_none) in
      (
        elim (Bool-cases (includes k.order x)) [
          | inl there ↦
              absurd
                (ground (arith, child, no_child x (IsTopological-met track.topological x there)))
          | inr outside ↦ outside
        ],
        elim (Bool-cases (text_eq id x)) [
          | inl same ↦
              let own : includes (parents_at id) id ≡ true =
                ap (λ y. includes (parents_at y) id) ((text_eq_iff id x).0 same) ∙ child in
              absurd (ground (arith, own, not_own))
          | inr apart ↦ apart
        ],
      )

  freed_member :
      (x : Text)
      → includes all x ≡ true
      → frees rank ids parents id taken x ≡ true
      → (unmet next.order (parents_at x) ≡ 0) × (includes next.order x ≡ false)
  freed_member x in_all freed =
      let (child, nought) =
        &&-eq-true (includes (parents_at x) id) (is_zero (lower_by_one (degree k.degrees x)))
          freed in
      let (d, at, le) = child_degree x in_all child in
      let nothing : d ≡ 0 = (==_iff d 0).0 (rw at at nought) in
      let (new, apart) = child_new x child in
      (
        rw next_order (omega (arith, le, nothing)),
        rw next_order (ground (arith, new, apart, includes-snoc k.order id x)),
      )

  next_members :
      (x : Text)
      → includes next.ready x ≡ true
      → (includes all x ≡ true)
        × (unmet next.order (parents_at x) ≡ 0)
        × (includes next.order x ≡ false)
  next_members x in_ready = elim (Bool-cases (includes rest x)) [
    | inl in_rest ↦
        let (in_all, unmet_none, new, other) = no_child_ready x in_rest in
        let (head_new, _) : IsDistinct (id ∷ rest) = rw at_head at track.ready_distinct in
        (
          in_all,
          rw next_order (omega (arith, unmet_none, unmet-snoc k.order (parents_at x) id)),
          rw next_order (
              ground (arith, new, head_new, in_rest, includes-snoc k.order id x, text_eq_iff id x)),
        )
    | inr outside ↦
        let (in_all, freed) = &&-eq-true (includes all x) (frees rank ids parents id taken x) (
          ground (
            arith,
            in_ready,
            outside,
            release_all-ready rank ids parents id all taken x distinct,
          )) in
        let (met, new) = freed_member x in_all freed in (in_all, met, new)
  ]

  next-IsDistinct : IsDistinct next.ready
  next-IsDistinct =
      let (_, d) : IsDistinct (id ∷ rest) = rw at_head at track.ready_distinct in
      release_all-IsDistinct rank ids parents id all taken distinct d (λ x _ child.
        elim (Bool-cases (includes rest x)) [
          | inl in_rest ↦
              let (_, _, _, other) = no_child_ready x in_rest in
              absurd (ground (arith, other, child))
          | inr outside ↦ outside
        ])

  next_within : (x : Text) → includes next.order x ≡ true → includes all x ≡ true
  next_within x there =
      let (in_all, _, _) = head_member in
      ground (
        arith,
        in_all,
        rw next_order at there,
        includes-snoc k.order id x,
        text_eq_iff id x,
        track.within x,
      )

  pub next-OnTrack : OnTrack rank ids parents all next
  next-OnTrack = record {
    topological = next-IsTopological;
    degrees = next_degrees;
    members = next_members;
    ready_distinct = next-IsDistinct;
    within = next_within;
  }
