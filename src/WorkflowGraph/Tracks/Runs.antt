-- ===== src/WorkflowGraph/Tracks/Runs.antt =====
-- All the rounds of Kahn's algorithm.
use receipts_sdk.Prelude.{
  ℕ, zero, suc, ◌≡◌, refl, ◌⊎◌, inl, inr, true, Option, or_else, List, [], ◌∷◌, Text, includes,
}
use receipts_sdk.Prelude.Maps.{Map, get}
use receipts_sdk.Types.{Number, SignedReceipt}
use receipts_sdk.WorkflowGraph.Kahn.{Kahn, start, kahn}
use receipts_sdk.WorkflowGraph.Orders.{IsDistinct, IsTopological}
use receipts_sdk.WorkflowGraph.Tracks.{OnTrack, start-OnTrack}
use receipts_sdk.WorkflowGraph.Tracks.Steps.{next, next-OnTrack}

pub List-cases :
    (xs : List Text) → (xs ≡ []) ⊎ ((parts : Text × List Text) × (xs ≡ parts.0 ∷ parts.1))
List-cases [] = inl refl
List-cases (x ∷ xs) = inr ((x, xs), refl)

module _ (rank : Number → Option ℕ) (ids : Map SignedReceipt) (parents : Map (List Text))
    (all : List Text) where
  abbrev parents_at : Text → List Text
  parents_at x = or_else (get parents x) []

  pub kahn-OnTrack :
      IsDistinct all
      → (f : ℕ) (k : Kahn) → OnTrack rank ids parents all k
      → OnTrack rank ids parents all (kahn rank ids parents all f k)
  unfolding kahn
  kahn-OnTrack distinct zero k track = track
  kahn-OnTrack distinct (suc f) k track = elim (List-cases k.ready) [
    | inl done ↦ rw (kahn, done) track
    | inr (parts, more) ↦
        let (id, rest) = parts in
        rw (kahn, more)
          (kahn-OnTrack distinct f (next rank ids parents all distinct k track id rest more)
            (next-OnTrack rank ids parents all distinct k track id rest more))
  ]

  -- Whatever the fuel.
  pub kahn-IsTopological :
      IsDistinct all
      → (f : ℕ)
      → IsTopological parents_at (kahn rank ids parents all f (start rank ids parents all)).order
        × ((x : Text)
            → includes (kahn rank ids parents all f (start rank ids parents all)).order x ≡ true
            → includes all x ≡ true)
  kahn-IsTopological distinct f =
      let track =
        kahn-OnTrack distinct f (start rank ids parents all)
          (start-OnTrack rank ids parents all distinct) in
      (track.topological, track.within)
