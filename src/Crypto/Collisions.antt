-- ===== src/Crypto/Collisions.antt =====
-- Two byte strings with one digest. Theorems on tampering name the byte strings that collide, or
-- what was done to compute them, so they rest on no assumption about the hash function.
use receipts_sdk.Prelude.{◌≡◌, ◌≢◌, ◌⊎◌, inl, inr, Bytes, Text-discrete}
use receipts_sdk.Prelude.Hex.{to_hex-injective}
use receipts_sdk.Crypto.{Platform, DigestLaws, sha256}

module _ (p : Platform) where
  -- The two are a collision.
  abbrev pub IsCollision : Bytes → Bytes → Type 0
  IsCollision a b = (a ≢ b) × (p.digest a ≡ p.digest b)

  -- A collision of a byte string that has the one property with one that has the other.
  pub record Collision (U V : Bytes → Type 0) : Type 0 where
    pub left : Bytes
    pub right : Bytes
    pub has_left : U left
    pub has_right : V right
    pub collide : IsCollision left right

  abbrev pub Collision-map :
      {U V U' V' : Bytes → Type 0}
      → ((b : Bytes) → U b → U' b)
      → ((b : Bytes) → V b → V' b)
      → Collision U V
      → Collision U' V'
  Collision-map f g c = record {
    left = c.left;
    right = c.right;
    has_left = f c.left c.has_left;
    has_right = g c.right c.has_right;
    collide = c.collide;
  }

  pub digest_eq : (a b : Bytes) → p.digest a ≡ p.digest b → (a ≡ b) ⊎ IsCollision a b
  digest_eq a b e = elim (Text-discrete a b) [ yes same ↦ inl same | no differ ↦ inr (differ, e) ]

  pub sha256_eq : DigestLaws p → (a b : Bytes) → sha256 p a ≡ sha256 p b → (a ≡ b) ⊎ IsCollision a b
  unfolding sha256
  sha256_eq laws a b e = digest_eq a b (
      to_hex-injective (p.digest a) (p.digest b) (laws.is_digest a).bytes (laws.is_digest b).bytes
        e)
