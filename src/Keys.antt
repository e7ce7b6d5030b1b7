-- ===== src/Keys.antt =====
-- key-management.ts: the registry of signing keys, and which of them may verify.
pub mod Trust
use receipts_sdk.Prelude.{
  ℕ, Bool, true, false, not, Option, none, some, List, [], ◌∷◌, Text, or_else, leb, if◌then◌else◌,
  Result, ok, err,
}
use receipts_sdk.Prelude.Maps.{Map, get, put}
use receipts_sdk.Errors.{Throws, unknown_kid, cannot_retire_revoked}

pub data KeyStatus : Type 0 where
  active retired revoked : KeyStatus

-- `algorithm` and `curve` have one value each.
pub record KeyRecord : Type 0 where
  pub kid : Text
  pub public_key : Text
  pub status : KeyStatus
  pub issued_at : Text
  pub retired_at : Option Text
  pub revoked_at : Option Text
  pub revocation_reason : Option Text

-- `records`, from a key id to its record
abbrev pub KeyRegistry : Type 0
KeyRegistry = Map KeyRecord

-- `add`: what the caller gives, without its status and with the time it was issued if that is known.
pub record NewKey : Type 0 where
  pub kid : Text
  pub public_key : Text
  pub issued_at : Option Text
  pub retired_at : Option Text
  pub revoked_at : Option Text
  pub revocation_reason : Option Text

unfoldable pub add : KeyRegistry → NewKey → Text → KeyRegistry × KeyRecord
add reg k now =
    let r : KeyRecord = record {
      kid = k.kid;
      public_key = k.public_key;
      status = active;
      issued_at = or_else k.issued_at now;
      retired_at = k.retired_at;
      revoked_at = k.revoked_at;
      revocation_reason = k.revocation_reason;
    } in
    (put reg r.kid r, r)

-- The record is changed in place; it stays under the key id that it was found by.
abbrev pub retire_record :
    KeyStatus → KeyRegistry → Text → Text → KeyRecord → KeyRegistry × Throws KeyRecord
retire_record revoked reg kid at r = (reg, err (cannot_retire_revoked kid))
retire_record active reg kid at r =
    let r' : KeyRecord = record r { status = retired; retired_at = some at } in
    (put reg kid r', ok r')
retire_record retired reg kid at r =
    let r' : KeyRecord = record r { status = retired; retired_at = some at } in
    (put reg kid r', ok r')

abbrev pub retire_found :
    KeyRegistry → Text → Text → Option KeyRecord → KeyRegistry × Throws KeyRecord
retire_found reg kid at none = (reg, err (unknown_kid kid))
retire_found reg kid at (some r) = retire_record r.status reg kid at r

unfoldable pub retire : KeyRegistry → Text → Text → KeyRegistry × Throws KeyRecord
retire reg kid at = retire_found reg kid at (get reg kid)

abbrev pub revoke_found :
    KeyRegistry → Text → Text → Text → Option KeyRecord → KeyRegistry × Throws KeyRecord
revoke_found reg kid reason at none = (reg, err (unknown_kid kid))
revoke_found reg kid reason at (some r) =
    let r' : KeyRecord = record r {
      status = revoked;
      revoked_at = some at;
      revocation_reason = some reason;
    } in
    (put reg kid r', ok r')

unfoldable pub revoke : KeyRegistry → Text → Text → Text → KeyRegistry × Throws KeyRecord
revoke reg kid reason at = revoke_found reg kid reason at (get reg kid)

-- `Date.parse`, in milliseconds, with `none` for NaN; a `Date` argument is its milliseconds.
module _ (parse_date : Text → Option ℕ) where
  abbrev pub before : ℕ → Option ℕ → Bool
  before at none = false
  before at (some retired_at) = leb at retired_at

  -- A retired key counts only for a time that is known and not after its retirement.
  abbrev pub in_window : Option ℕ → Option Text → Bool
  in_window none retired_at = false
  in_window (some at) retired_at = before at (parse_date (or_else retired_at []))

  abbrev pub status_trusted : KeyStatus → Option ℕ → Option Text → Bool
  status_trusted revoked at retired_at = false
  status_trusted retired at retired_at = in_window at retired_at
  status_trusted active at retired_at = true

  unfoldable pub trusted : Option ℕ → KeyRecord → Bool
  trusted at r = status_trusted r.status at r.retired_at

  unfoldable pub trusted_from : Option ℕ → KeyRegistry → Map Text → Map Text
  trusted_from at [] out = out
  trusted_from at ((kid, r) ∷ reg) out =
      trusted_from at reg (if trusted at r then put out r.kid r.public_key else out)

  unfoldable pub trusted_keys : Option ℕ → KeyRegistry → Map Text
  trusted_keys at reg = trusted_from at reg []
