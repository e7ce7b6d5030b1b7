-- ===== src/Payload.antt =====
-- receipt.ts: the bytes that a receipt's signature and its hash cover.
use receipts_sdk.Prelude.{[], Bytes}
use receipts_sdk.Errors.{Throws}
use receipts_sdk.Types.{Receipt}
use receipts_sdk.Types.Encode.{receipt_json}
use receipts_sdk.Crypto.{Platform, canonicalize_bytes}

-- The receipt with an empty `integrity.receipt_hash`. The copy through JSON changes nothing that
-- canonical JSON writes.
abbrev pub unhashed : Receipt → Receipt
unhashed r = record r { integrity = record r.integrity { receipt_hash = [] } }

module _ (p : Platform) where
  unfoldable pub canonical_signing_payload : Receipt → Throws Bytes
  unfolding canonicalize_bytes receipt_json
  canonical_signing_payload r = canonicalize_bytes p (receipt_json r)

  unfoldable pub canonical_hashing_payload : Receipt → Throws Bytes
  unfolding canonicalize_bytes receipt_json
  canonical_hashing_payload r = canonicalize_bytes p (receipt_json (unhashed r))
