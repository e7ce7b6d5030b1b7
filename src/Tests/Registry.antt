-- ===== src/Tests/Registry.antt =====
-- The key registry: one key is added and revoked.
use receipts_sdk.Prelude.{ℕ, ◌≡◌, refl, Option, some, none, [], ◌∷◌, Text, codes, ok}
use receipts_sdk.Prelude.Maps.{get}
use receipts_sdk.Keys.{
  KeyRecord, KeyRegistry, revoked, add, revoke, trusted, trusted_from, trusted_keys,
}
use receipts_sdk.Keys.Trust.{IsRegistry, revoke_untrusts}
use receipts_sdk.Toy.{keys}
use receipts_sdk.Tests.{runs}

registry_runs : Unit {0}
unfolding add revoke trusted trusted_from trusted_keys runs
registry_runs = tt

abbrev one : KeyRegistry
unfolding registry_runs
one =
    (add []
      (record {
        kid = codes "k1";
        public_key = keys.public_key;
        issued_at = none;
        retired_at = none;
        revoked_at = none;
        revocation_reason = none;
      })
      (codes "t")).0

one-IsRegistry : IsRegistry one
unfolding registry_runs
one-IsRegistry = (refl, refl, tt)

abbrev parse_date : Text → Option ℕ
parse_date t = none

handed : get (trusted_keys parse_date none one) (codes "k1") ≡ some keys.public_key
unfolding registry_runs
handed = refl

abbrev gone : KeyRecord
gone = record {
  kid = codes "k1";
  public_key = keys.public_key;
  status = revoked;
  issued_at = codes "t";
  retired_at = none;
  revoked_at = some (codes "u");
  revocation_reason = some (codes "stolen");
}

revoking : revoke one (codes "k1") (codes "stolen") (codes "u") ≡ ((codes "k1", gone) ∷ [], ok gone)
unfolding registry_runs
revoking = refl

revoke_untrusts_example :
    get (trusted_keys parse_date none ((codes "k1", gone) ∷ [])) (codes "k1") ≡ none
revoke_untrusts_example =
    revoke_untrusts parse_date none one ((codes "k1", gone) ∷ []) (codes "k1") (codes "stolen")
      (codes "u") gone one-IsRegistry revoking
