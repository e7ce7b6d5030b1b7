-- ===== src/Validate/Keys.antt =====
-- validate.ts: validateKeyPair.
use receipts_sdk.Prelude.{◌&&◌, codes, length, ltb, ◌==◌, guard, ◌>>◌}
use receipts_sdk.Errors.{Throws, invalid}
use receipts_sdk.Types.{KeyPair}
use receipts_sdk.Crypto.{Platform}

unfoldable pub validate_key_pair : Platform → KeyPair → Throws (Unit {0})
validate_key_pair p k = do
  guard (ltb 0 (length k.kid)) (invalid (codes "keypair.kid"))
  guard (ltb 0 (length k.public_key) && ltb 0 (length k.private_key)) (invalid (codes "keypair"))
  guard (length (p.from_base64 k.public_key) == 32) (invalid (codes "keypair.public_key"))
  guard (length (p.from_base64 k.private_key) == 32) (invalid (codes "keypair.private_key"))
