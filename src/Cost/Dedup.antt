-- ===== src/Cost/Dedup.antt =====
-- cost/dedup-cache.ts: the cache of answers to prompts, per tenant and with a time to live.
pub mod Served
pub mod Lookups
pub mod Origins
use receipts_sdk.Prelude.{
  ℕ, ◌+◌, ◌-◌, Option, none, some, List, [], ◌∷◌, ◌++◌, Text, codes, ltb, ok, err, ◌>>=◌,
  if◌then◌else◌, length, or_else,
}
use receipts_sdk.Prelude.Maps.{Map, get, put, remove}
use receipts_sdk.Errors.{Throws}
use receipts_sdk.Types.{Json, Number, null, num, str, obj, end, field}
use receipts_sdk.Types.Encode.{list_of}
use receipts_sdk.Crypto.{Platform, canonicalize, sha256_string}

pub record PromptKey : Type 0 where
  pub prompt : Text
  pub model : Text
  pub tools : Option (List Text)
  pub temperature : Option Number

pub record CacheEntry (V : Type 0) : Type 0 where
  pub hash : Text
  pub value : V
  pub stored_at : ℕ
  pub hits : ℕ

abbrev pub number_or_null : Option Number → Json
number_or_null none = null
number_or_null (some n) = num n

-- The object that is hashed: absent tools are no tools, an absent temperature is null.
unfoldable pub prompt_json : PromptKey → Json
unfolding list_of
prompt_json k = obj (
    field (codes "p") (str k.prompt) (
      field (codes "m") (str k.model) (
        field (codes "t") (list_of str (or_else k.tools []))
          (field (codes "temp") (number_or_null k.temperature) end))))

-- `InMemoryDedup`: its map, the counters of `stats`, and the time to live in milliseconds.
pub record InMemoryDedup (V : Type 0) : Type 0 where
  pub store : Map (CacheEntry V)
  pub gets : ℕ
  pub hits : ℕ
  pub ttl_ms : ℕ

-- `key`
unfoldable pub entry_key : Text → Text → Text
entry_key tenant_id hash = tenant_id ++ codes ":" ++ hash

-- The SHA-256 of node:crypto is the platform's.
unfoldable pub hash_key : Platform → PromptKey → Throws Text
hash_key p k = do c ← canonicalize p (prompt_json k); ok (sha256_string p c)

module _ {V : Type 0} where
  -- An hour, unless the caller says otherwise.
  unfoldable pub new_dedup : Option ℕ → InMemoryDedup V
  new_dedup ttl_ms = record { store = []; gets = 0; hits = 0; ttl_ms = or_else ttl_ms 3600000 }

  -- A hit counts on the stored entry and on the cache, and gives the entry.
  hit : InMemoryDedup V → Text → CacheEntry V → InMemoryDedup V × Option (CacheEntry V)
  hit c key e =
      let e = record e { hits = e.hits + 1 } in
      (record c { store = put c.store key e; hits = c.hits + 1 }, some e)

  -- What comes after the lookup: an entry past its time is deleted. Where the clock went back, the
  -- age is negative in the source and 0 here, and neither is above the time to live.
  unfoldable pub look_up :
      InMemoryDedup V → Text → ℕ → Option (CacheEntry V) → InMemoryDedup V × Option (CacheEntry V)
  unfolding hit
  look_up c key now none = (c, none)
  look_up c key now (some e) =
      if ltb c.ttl_ms (now - e.stored_at)
      then (record c { store = remove c.store key }, none)
      else hit c key e

  abbrev pub with_get : InMemoryDedup V → InMemoryDedup V
  with_get c = record c { gets = c.gets + 1 }

  -- `stats`: the hit rate is the fraction of the two counters.
  unfoldable pub stats : InMemoryDedup V → ℕ × (ℕ × ℕ)
  stats c = (length c.store, (c.hits, c.gets))

  -- `get` and `put`, by the outcome of the hash. The time is an argument.
  unfoldable pub get_hashed :
      InMemoryDedup V → Text → ℕ → Throws Text → InMemoryDedup V × Throws (Option (CacheEntry V))
  get_hashed c tenant_id now (err e) = (c, err e)
  get_hashed c tenant_id now (ok hash) =
      let key = entry_key tenant_id hash in
      let (c, found) = look_up c key now (get c.store key) in (c, ok found)

  unfoldable pub put_hashed :
      InMemoryDedup V → Text → V → ℕ → Throws Text → InMemoryDedup V × Throws (CacheEntry V)
  put_hashed c tenant_id value now (err e) = (c, err e)
  put_hashed c tenant_id value now (ok hash) =
      let e : CacheEntry V = record { hash = hash; value = value; stored_at = now; hits = 0 } in
      (record c { store = put c.store (entry_key tenant_id hash) e }, ok e)

module _ (p : Platform) {V : Type 0} where
  unfoldable pub get_cached :
      InMemoryDedup V → Text → PromptKey → ℕ → InMemoryDedup V × Throws (Option (CacheEntry V))
  unfolding get_hashed
  get_cached c tenant_id k now = get_hashed (with_get c) tenant_id now (hash_key p k)

  unfoldable pub put_cached :
      InMemoryDedup V → Text → PromptKey → V → ℕ → InMemoryDedup V × Throws (CacheEntry V)
  unfolding put_hashed
  put_cached c tenant_id k value now = put_hashed c tenant_id value now (hash_key p k)
