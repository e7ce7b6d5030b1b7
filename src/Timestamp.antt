-- ===== src/Timestamp.antt =====
-- timestamp.ts: what can be checked of the time-stamp tokens of a receipt.
use receipts_sdk.Prelude.{
  Bool, false, Option, none, some, List, [], ◌∷◌, ◌++◌, map, Bytes, Text, text_eq, or_else, ok,
  ◌>>=◌,
}
use receipts_sdk.Prelude.Hex.{lower}
use receipts_sdk.Errors.{Throws}
use receipts_sdk.Types.{SignedReceipt, TimestampToken}
use receipts_sdk.Crypto.{Platform, sha256}
use receipts_sdk.Payload.{canonical_signing_payload}

pub data TimestampFormat : Type 0 where
  local rfc3161 : TimestampFormat

pub record TimestampVerdict : Type 0 where
  pub tsa : Text
  pub format : TimestampFormat
  pub imprint_matches : Option Bool
  pub authenticated : Bool

module _ (p : Platform) where
  unfoldable pub receipt_timestamp_imprint : SignedReceipt → Throws Text
  receipt_timestamp_imprint r = do
    payload ← canonical_signing_payload p r.receipt
    ok (sha256 p payload)

  -- The client is a parameter; it may throw.
  unfoldable pub timestamp_receipt :
      (Bytes → Throws TimestampToken) → SignedReceipt → Throws SignedReceipt
  timestamp_receipt client r = do
    payload ← canonical_signing_payload p r.receipt
    token ← client payload
    ok (record r { timestamps = some (or_else r.timestamps [] ++ token ∷ []) })

  -- A token whose imprint can be read is local; any other is taken for RFC 3161.
  unfoldable pub verdict_of : Text → Text → Option Text → TimestampVerdict
  verdict_of expected tsa none = record {
    tsa = tsa;
    format = rfc3161;
    imprint_matches = none;
    authenticated = false;
  }
  verdict_of expected tsa (some imprint) = record {
    tsa = tsa;
    format = local;
    imprint_matches = some (text_eq (lower imprint) expected);
    authenticated = false;
  }

  abbrev pub verdict_for : Text → TimestampToken → TimestampVerdict
  unfolding verdict_of
  verdict_for expected t = verdict_of expected t.tsa (p.local_imprint t.timestamp_token)

  unfoldable pub verify_receipt_timestamps : SignedReceipt → Throws (List TimestampVerdict)
  unfolding verdict_for
  verify_receipt_timestamps r = do
    expected ← receipt_timestamp_imprint r
    ok (map (verdict_for expected) (or_else r.timestamps []))
