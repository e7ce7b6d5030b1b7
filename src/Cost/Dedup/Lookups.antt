-- ===== src/Cost/Dedup/Lookups.antt =====
-- One lookup of the cache, against a description of what was stored last.
use receipts_sdk.Prelude.{
  ℕ, ◌+◌, ◌-◌, ◌≤◌, ◌<◌, ◌≡◌, refl, false, Option, none, some, Text, text_eq, text_eq_self, ltb,
  leb, if◌then◌else◌, arith, inl, inr, Bool-cases,
}
use receipts_sdk.Prelude.Maps.{get, get-put, get-put_self, get-remove}
use receipts_sdk.Cost.Dedup.{CacheEntry, InMemoryDedup, look_up}

-- A value with the time it was stored at counts up to its time to live.
abbrev pub in_force : {V : Type 0} → ℕ → ℕ → Option (V × ℕ) → Option V
in_force ttl now none = none
in_force ttl now (some (v, at)) = if leb now (at + ttl) then some v else none

abbrev pub value_of : {V : Type 0} → Option (CacheEntry V) → Option V
value_of none = none
value_of (some e) = some e.value

-- What the store may hold where `v` was stored last, at `at`: the value, or nothing once it is stale.
pub data Holds {V : Type 0} (ttl now : ℕ) : Option (CacheEntry V) → Option (V × ℕ) → Type 0 where
  never : Holds ttl now none none
  stored : (e : CacheEntry V) → Holds ttl now (some e) (some (e.value, e.stored_at))
  stale : {v : V} {at : ℕ} → at + ttl < now → Holds ttl now none (some (v, at))

module _ {V : Type 0} {ttl : ℕ} where
  pub Holds-mono :
      {now later : ℕ} {e : Option (CacheEntry V)} {l : Option (V × ℕ)}
      → now ≤ later
      → Holds ttl now e l
      → Holds ttl later e l
  Holds-mono le never = never
  Holds-mono le (stored e) = stored e
  Holds-mono le (stale old) = stale (omega (arith, old, le))

  pub look_up-in_force :
      {now : ℕ} {e : Option (CacheEntry V)} {l : Option (V × ℕ)} (c : InMemoryDedup V) (key : Text)
      → c.ttl_ms ≡ ttl
      → Holds ttl now e l
      → value_of ((look_up c key now e).1) ≡ in_force ttl now l
  unfolding look_up
  look_up-in_force c key same never = refl
  look_up-in_force c key same (stored e) = ground (arith, same)
  look_up-in_force c key same (stale old) = ground (arith, old)

  pub look_up-Holds :
      {now : ℕ} {e : Option (CacheEntry V)} {l : Option (V × ℕ)} (c : InMemoryDedup V) (key : Text)
      → c.ttl_ms ≡ ttl
      → get c.store key ≡ e
      → Holds ttl now e l
      → Holds ttl now (get ((look_up c key now e).0).store key) l
  unfolding look_up
  look_up-Holds c key same at never = rw at never
  look_up-Holds {now} c key same at (stored e) =
      elim (Bool-cases (ltb c.ttl_ms (now - e.stored_at))) [
        | inl old ↦
            rw (old, get-remove c.store key key, text_eq_self key)
              (stale (ground (arith, old, same)))
        | inr young ↦
            rw (young, get-put_self c.store key (record e { hits = e.hits + 1 }))
              (stored (record e { hits = e.hits + 1 }))
      ]
  look_up-Holds c key same at (stale old) = rw at (stale old)

module _ {V : Type 0} where
  pub look_up-other :
      (c : InMemoryDedup V) (key j : Text) (now : ℕ) (e : Option (CacheEntry V))
      → text_eq key j ≡ false
      → get ((look_up c key now e).0).store j ≡ get c.store j
  unfolding look_up
  look_up-other c key j now none ne = refl
  look_up-other c key j now (some e) ne = elim (Bool-cases (ltb c.ttl_ms (now - e.stored_at))) [
    | inl old ↦ rw (old, get-remove c.store key j, ne) refl
    | inr young ↦ rw (young, get-put c.store key j (record e { hits = e.hits + 1 }), ne) refl
  ]

  pub look_up-ttl :
      (c : InMemoryDedup V) (key : Text) (now : ℕ) (e : Option (CacheEntry V))
      → ((look_up c key now e).0).ttl_ms ≡ c.ttl_ms
  unfolding look_up
  look_up-ttl c key now none = refl
  look_up-ttl c key now (some e) = elim (Bool-cases (ltb c.ttl_ms (now - e.stored_at))) [
    | inl old ↦ rw old refl
    | inr young ↦ rw young refl
  ]
