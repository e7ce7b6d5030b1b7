-- ===== src/Verify/Shapes.antt =====
-- verify.ts: the shape guard. An envelope comes from the party that it holds to account, so a field
-- that the guard tests may hold any JavaScript value.
use receipts_sdk.Prelude.{
  ◌≡◌, refl, Option, none, some, List, [], ◌∷◌, map, Result, ok, err, ◌>>=◌, Option-cases, inl, inr,
}
use receipts_sdk.Types.{IntegrityBlock, Receipt, Signature, SignedReceipt, TimestampToken}

-- A JavaScript value where an object, or an array, of the right fields is wanted.
pub data Dynamic (A : Type 0) : Type 0 where
  undefined null falsy truthy : Dynamic A
  object : A → Dynamic A

-- A receipt whose integrity block may be anything; the block of `body` is not used.
pub record AnyReceipt : Type 0 where
  pub body : Receipt
  pub integrity : Dynamic IntegrityBlock

pub record Envelope : Type 0 where
  pub receipt : Dynamic AnyReceipt
  pub signatures : Dynamic (List (Dynamic Signature))
  pub timestamps : Dynamic (List TimestampToken)

pub data ShapeError : Type 0 where
  not_an_object no_receipt no_integrity no_signatures bad_signature bad_timestamps : ShapeError

abbrev pub object_or : {A : Type 0} → ShapeError → Dynamic A → Result ShapeError A
object_or e (object a) = ok a
object_or e undefined = err e
object_or e null = err e
object_or e falsy = err e
object_or e truthy = err e

unfoldable pub all_objects : List (Dynamic Signature) → Result ShapeError (List Signature)
all_objects [] = ok []
all_objects (s ∷ sigs) = do
  one ← object_or bad_signature s
  rest ← all_objects sigs
  ok (one ∷ rest)

-- Absent and null are allowed.
abbrev pub tokens : Dynamic (List TimestampToken) → Result ShapeError (Option (List TimestampToken))
tokens undefined = ok none
tokens null = ok none
tokens (object ts) = ok (some ts)
tokens falsy = err bad_timestamps
tokens truthy = err bad_timestamps

-- `envelopeError`: the first fault, or the envelope with its fields at hand.
unfoldable pub opened : Dynamic Envelope → Result ShapeError SignedReceipt
unfolding all_objects
opened d = do
  e ← object_or not_an_object d
  r ← object_or no_receipt e.receipt
  i ← object_or no_integrity r.integrity
  sigs ← object_or no_signatures e.signatures
  each ← all_objects sigs
  ts ← tokens e.timestamps
  ok (record { receipt = record r.body { integrity = i }; signatures = each; timestamps = ts })

abbrev token_value : Option (List TimestampToken) → Dynamic (List TimestampToken)
token_value none = undefined
token_value (some ts) = object ts

-- A signed receipt as the envelope that it is.
unfoldable pub envelope_of : SignedReceipt → Dynamic Envelope
envelope_of s = object (record {
  receipt = object (record { body = s.receipt; integrity = object s.receipt.integrity });
  signatures = object (map object s.signatures);
  timestamps = token_value s.timestamps;
})

all_objects-map : (sigs : List Signature) → all_objects (map object sigs) ≡ ok sigs
unfolding all_objects
all_objects-map [] = refl
all_objects-map (s ∷ sigs) = rw (all_objects-map sigs)

-- The guard lets a well-formed receipt through, unchanged.
pub opened-envelope_of : (s : SignedReceipt) → opened (envelope_of s) ≡ ok s
unfolding opened envelope_of
opened-envelope_of s =
    rw (all_objects-map s.signatures) (elim (Option-cases s.timestamps) [
      | inl missing ↦ rw missing
      | inr (ts, present) ↦ rw present
    ])
