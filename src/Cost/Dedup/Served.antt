-- ===== src/Cost/Dedup/Served.antt =====
-- What the cache serves, against a description that keeps the whole history of its calls.
use receipts_sdk.Prelude.{
  ℕ, ◌≤◌, ◌≡◌, refl, sym, ap, ◌∙◌, Bool, false, Option, none, some, List, [], ◌∷◌, ◌++◌, Text,
  codes, text_eq, text_eq_iff, ok, err, ◌&&◌, if◌then◌else◌, length, arith, inl, inr, Bool-cases,
  >>=-eq-ok, ok-injective, or_else,
}
use receipts_sdk.Prelude.Maps.{get, get-put}
use receipts_sdk.Errors.{Throws}
use receipts_sdk.Crypto.{Platform, DigestLaws, canonicalize, sha256_string, sha256}
use receipts_sdk.Chain.Paths.{ends, length-to_hex}
use receipts_sdk.Cost.Dedup.{
  PromptKey, CacheEntry, InMemoryDedup, new_dedup, hash_key, prompt_json, entry_key, look_up,
  get_cached, put_cached, get_hashed, put_hashed, with_get,
}
use receipts_sdk.Cost.Dedup.Lookups.{
  Holds, never, stored, Holds-mono, in_force, value_of, look_up-in_force, look_up-Holds,
  look_up-other, look_up-ttl,
}

-- A call of the cache, at a time.
pub data CacheCall (V : Type 0) : Type 0 where
  asks : Text → PromptKey → ℕ → CacheCall V
  stores : Text → PromptKey → V → ℕ → CacheCall V

abbrev pub time_of : {V : Type 0} → CacheCall V → ℕ
time_of (asks t k now) = now
time_of (stores t k v now) = now

-- The calls, the latest first, were made in the order of the clock, before `now`.
abbrev pub InTime : {V : Type 0} → ℕ → List (CacheCall V) → Type 0
InTime now [] = Unit
InTime now (call ∷ before) = (time_of call ≤ now) × InTime (time_of call) before

abbrev pub is_hash : Throws Text → Text → Bool
is_hash (err e) h = false
is_hash (ok h') h = text_eq h' h

module _ {V : Type 0} (p : Platform) where
  -- What a tenant stored last under a hash, and when.
  unfoldable pub latest : List (CacheCall V) → Text → Text → Option (V × ℕ)
  latest [] t h = none
  latest (asks _ _ _ ∷ before) t h = latest before t h
  latest (stores t' k v at ∷ before) t h =
      let rest = latest before t h in
      if text_eq t' t && is_hash (hash_key p k) h then some (v, at) else rest

  unfoldable pub replay : Option ℕ → List (CacheCall V) → InMemoryDedup V
  replay ttl [] = new_dedup ttl
  replay ttl (asks t k now ∷ before) = (get_cached p (replay ttl before) t k now).0
  replay ttl (stores t k v now ∷ before) = (put_cached p (replay ttl before) t k v now).0

-- Two keys are one only where both their parts are, for hashes of one length.
pub entry_key-injective :
    (t t' h h' : Text)
    → length h ≡ length h'
    → entry_key t h ≡ entry_key t' h'
    → (t ≡ t') × (h ≡ h')
unfolding entry_key
entry_key-injective t t' h h' long e =
    let (left, right) = ends (t ++ codes ":") (t' ++ codes ":") long e in
    ((ends t t' refl left).0, right)

text_eq-entry_key :
    (t t' h h' : Text)
    → length h ≡ length h'
    → text_eq (entry_key t h) (entry_key t' h') ≡ (text_eq t t' && text_eq h h')
text_eq-entry_key t t' h h' long = ground (
  arith,
  text_eq_iff t t',
  text_eq_iff h h',
  text_eq_iff (entry_key t h) (entry_key t' h'),
  entry_key-injective t t' h h' long,
)

module _ {V : Type 0} {ttl : ℕ} where
  get_hashed-Holds :
      {now : ℕ} {l : Option (V × ℕ)} (c : InMemoryDedup V) (t : Text) (r : Throws Text) (key : Text)
      → c.ttl_ms ≡ ttl
      → Holds ttl now (get c.store key) l
      → Holds ttl now (get ((get_hashed c t now r).0).store key) l
  unfolding get_hashed
  get_hashed-Holds c t (err e) key same holds = holds
  get_hashed-Holds {now} {l} c t (ok h) key same holds =
      elim (Bool-cases (text_eq (entry_key t h) key)) [
        | inl one ↦
            rw ((text_eq_iff (entry_key t h) key).0 one) (look_up-Holds c key same refl holds)
        | inr two ↦
            rw (look_up-other c (entry_key t h) key now (get c.store (entry_key t h)) two) holds
      ]

  put_hashed-Holds :
      {at : ℕ} {l : Option (V × ℕ)} (c : InMemoryDedup V) (t : Text) (v : V) (r : Throws Text)
      (t' h' : Text)
      → ((h : Text) → r ≡ ok h → length h ≡ length h')
      → Holds ttl at (get c.store (entry_key t' h')) l
      → Holds ttl at
          (get ((put_hashed c t v at r).0).store (entry_key t' h'))
          (if text_eq t t' && is_hash r h' then some (v, at) else l)
  unfolding put_hashed
  put_hashed-Holds c t v (err e) t' h' long holds = elim (Bool-cases (text_eq t t')) [
    | inl one ↦ rw one holds
    | inr two ↦ rw two holds
  ]
  put_hashed-Holds {at} c t v (ok h) t' h' long holds =
      let e : CacheEntry V = record { hash = h; value = v; stored_at = at; hits = 0 } in
      elim (Bool-cases (text_eq t t' && text_eq h h')) [
        | inl one ↦
            rw
              (
                get-put c.store (entry_key t h) (entry_key t' h') e,
                text_eq-entry_key t t' h h' (long h refl),
                one,
              )
              (stored e)
        | inr two ↦
            rw
              (
                get-put c.store (entry_key t h) (entry_key t' h') e,
                text_eq-entry_key t t' h h' (long h refl),
                two,
              )
              holds
      ]

module _ (p : Platform) (laws : DigestLaws p) where
  hash_key-length : (k : PromptKey) {h : Text} → hash_key p k ≡ ok h → length h ≡ 64
  unfolding hash_key sha256_string sha256
  hash_key-length k e =
      let (c, _, made) =
        >>=-eq-ok (canonicalize p (prompt_json k)) (λ c. ok (sha256_string p c)) e in
      omega (
        arith,
        length-to_hex (p.digest (p.utf8 c)),
        (laws.is_digest (p.utf8 c)).size,
        ap length (ok-injective (ok (sha256_string p c)) refl made),
      )

module _ {V : Type 0} where
  get_hashed-ttl :
      (c : InMemoryDedup V) (t : Text) (now : ℕ) (r : Throws Text)
      → ((get_hashed c t now r).0).ttl_ms ≡ c.ttl_ms
  unfolding get_hashed
  get_hashed-ttl c t now (err e) = refl
  get_hashed-ttl c t now (ok h) = look_up-ttl c (entry_key t h) now (get c.store (entry_key t h))

  put_hashed-ttl :
      (c : InMemoryDedup V) (t : Text) (v : V) (now : ℕ) (r : Throws Text)
      → ((put_hashed c t v now r).0).ttl_ms ≡ c.ttl_ms
  unfolding put_hashed
  put_hashed-ttl c t v now (err e) = refl
  put_hashed-ttl c t v now (ok h) = refl

module _ (p : Platform) (laws : DigestLaws p) {V : Type 0} (ttl : Option ℕ) where
  replay-ttl : (calls : List (CacheCall V)) → (replay p ttl calls).ttl_ms ≡ or_else ttl 3600000
  unfolding replay new_dedup get_cached put_cached
  replay-ttl [] = refl
  replay-ttl (asks t k now ∷ before) =
      get_hashed-ttl (with_get (replay p ttl before)) t now (hash_key p k) ∙ replay-ttl before
  replay-ttl (stores t k v now ∷ before) =
      put_hashed-ttl (replay p ttl before) t v now (hash_key p k) ∙ replay-ttl before

  replay-Holds :
      (calls : List (CacheCall V)) (now : ℕ)
      → InTime now calls
      → (t h : Text) → length h ≡ 64
      → Holds
          (or_else ttl 3600000)
          now
          (get (replay p ttl calls).store (entry_key t h))
          (latest p calls t h)
  unfolding replay latest new_dedup get get_cached put_cached
  replay-Holds [] now timely t h long = never
  replay-Holds (asks t' k at ∷ before) now (le, timely) t h long = Holds-mono le (
      get_hashed-Holds (with_get (replay p ttl before)) t' (hash_key p k) (entry_key t h)
        (replay-ttl before) (replay-Holds before at timely t h long))
  replay-Holds (stores t' k v at ∷ before) now (le, timely) t h long = Holds-mono le (
      put_hashed-Holds (replay p ttl before) t' v (hash_key p k) t h
        (λ h' e. hash_key-length p laws k e ∙ sym long) (replay-Holds before at timely t h long))

  -- Whatever calls a new cache had, in the order of the clock, a lookup of a prompt that has a
  -- hash gives what the tenant stored last under that hash, if that is not older than the time to live, and
  -- nothing otherwise.
  pub get_cached-latest :
      (calls : List (CacheCall V)) (now : ℕ)
      → InTime now calls
      → (t : Text) (k : PromptKey) {h : Text} → hash_key p k ≡ ok h
      → (found : Option (CacheEntry V)) × ((get_cached p (replay p ttl calls) t k now).1 ≡ ok found)
        × (value_of found ≡ in_force (or_else ttl 3600000) now (latest p calls t h))
  unfolding get_cached get_hashed
  get_cached-latest calls now timely t k {h} hashed =
      let c = with_get (replay p ttl calls) in
      let key = entry_key t h in
      (
        (look_up c key now (get c.store key)).1,
        rw hashed refl,
        look_up-in_force c key (replay-ttl calls)
            (replay-Holds calls now timely t h (hash_key-length p laws k hashed)),
      )
