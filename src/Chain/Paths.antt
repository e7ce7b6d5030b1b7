-- ===== src/Chain/Paths.antt =====
-- Two tenants share a file only if the digests of their ids begin alike.
use receipts_sdk.Prelude.{
  ℕ, ◌+◌, ◌≡◌, List, [], ◌∷◌, ◌++◌, Text, codes, take, length, length-append, length-take, ap, refl,
  sym, ◌∙◌, append-injective, arith,
}
use receipts_sdk.Prelude.Hex.{to_hex}
use receipts_sdk.Crypto.{Platform, DigestLaws, sha256_string, sha256}
use receipts_sdk.Chain.{path_for, in_state_dir, sanitize}

pub length-to_hex : (b : List ℕ) → length (to_hex b) ≡ length b + length b
unfolding to_hex
length-to_hex [] = omega arith
length-to_hex (x ∷ b) = omega (arith, length-to_hex b)

-- Texts with ends of one length.
pub ends : (a b : Text) {c d : Text} → length c ≡ length d → a ++ c ≡ b ++ d → (a ≡ b) × (c ≡ d)
ends a b {c} {d} h e =
    append-injective a b (omega (arith, length-append a c, length-append b d, ap length e)) e

module _ (p : Platform) (laws : DigestLaws p) where
  prefix-length : (t : Text) → length (take 16 (sha256_string p t)) ≡ 16
  unfolding sha256_string sha256
  prefix-length t = omega (
    arith,
    length-take 16 (to_hex (p.digest (p.utf8 t))),
    length-to_hex (p.digest (p.utf8 t)),
    (laws.is_digest (p.utf8 t)).size,
  )

  path_for-injective :
      (a b : Text)
      → path_for p a ≡ path_for p b
      → take 16 (sha256_string p a) ≡ take 16 (sha256_string p b)
  unfolding path_for in_state_dir
  path_for-injective a b e =
      let names = (append-injective (codes ".ledger/chains/") (codes ".ledger/chains/") refl e).1 in
      let stems = (ends _ _ refl names).0 in
      (ends (take 64 (sanitize a) ++ codes "-") (take 64 (sanitize b) ++ codes "-")
        (prefix-length a ∙ sym (prefix-length b)) stems).1
