-- ===== src/Crypto.antt =====
-- canonicalize.ts and crypto.ts, over the libraries that they call.
pub mod Collisions
use receipts_sdk.Prelude.{
  ℕ, Bool, false, Option, none, some, Bytes, Text, length, ◌==◌, if◌then◌else◌, ok, err, ◌>>=◌,
  ◌++◌, codes,
}
use receipts_sdk.Prelude.Hex.{to_hex, IsDigest}
use receipts_sdk.Types.{Json, undefined, KeyPair}
use receipts_sdk.Errors.{
  Throws, canonicalize_undefined, not_serializable, canonicalize_threw, invalid_private_key_length,
}

-- The code outside the repository's src/ that the components call.
pub record Platform : Type 0 where
  -- `sha256` of @noble/hashes
  pub digest : Bytes → Bytes
  -- `sign(payload, key)`, `verify(signature, payload, key)` and `getPublicKey` of @noble/ed25519;
  -- `none` where `verify` throws
  pub ed_sign : Bytes → Bytes → Bytes
  pub ed_verify : Bytes → Bytes → Bytes → Option Bool
  pub ed_public : Bytes → Bytes
  -- the canonicalize package: `none` where it throws, `some none` where it returns undefined
  pub jcs : Json → Option (Option Text)
  -- a number that is no integer, by its text, plus one: the natural number that the sum is rounded
  -- to, if it is one
  pub sum_with_one : Text → Option ℕ
  -- `TextEncoder.encode`, and `Buffer` from and to base64
  pub utf8 : Text → Bytes
  pub from_base64 : Text → Bytes
  pub to_base64 : Bytes → Text
  -- `JSON.parse` of a time-stamp token's bytes: its `imprint`, if that is a text of an object
  pub local_imprint : Text → Option Text

-- What @noble/hashes documents of SHA-256: 32 bytes.
pub record DigestLaws (p : Platform) : Type 0 where
  pub is_digest : (b : Bytes) → IsDigest (p.digest b)

module _ (p : Platform) where
  checked : Option (Option Text) → Throws Text
  checked none = err canonicalize_threw
  checked (some none) = err not_serializable
  checked (some (some t)) = ok t

  unfoldable pub canonicalize : Json → Throws Text
  unfolding checked
  canonicalize undefined = err canonicalize_undefined
  canonicalize v = checked (p.jcs v)

  unfoldable pub canonicalize_bytes : Json → Throws Bytes
  unfolding canonicalize
  canonicalize_bytes v = do t ← canonicalize v; ok (p.utf8 t)

  unfoldable pub sha256 : Bytes → Text
  sha256 bytes = to_hex (p.digest bytes)

  unfoldable pub sha256_string : Text → Text
  sha256_string s = sha256 (p.utf8 s)

  -- The random bytes and the time are arguments.
  unfoldable pub generate_key_pair : Bytes → Bytes → Text → KeyPair
  generate_key_pair private_bytes kid_bytes now = record {
    kid = codes "dev-" ++ to_hex kid_bytes;
    public_key = p.to_base64 (p.ed_public private_bytes);
    private_key = p.to_base64 private_bytes;
    created_at = now;
  }

  unfoldable pub sign : Bytes → KeyPair → Throws Text
  sign payload keypair =
      let key = p.from_base64 keypair.private_key in
      if length key == 32
      then ok (p.to_base64 (p.ed_sign payload key))
      else err (invalid_private_key_length (length key))

  or_false : Option Bool → Bool
  or_false none = false
  or_false (some b) = b

  -- A wrong length throws inside the `try`, as `ed.verify` may: the answer is false.
  unfoldable pub verify : Bytes → Text → Text → Bool
  unfolding or_false
  verify payload signature_base64 public_key_base64 =
      let signature = p.from_base64 signature_base64 in
      let key = p.from_base64 public_key_base64 in
      if length key == 32
      then if length signature == 64 then or_false (p.ed_verify signature payload key) else false
      else false
