-- ===== src/Tests/Caches.antt =====
-- The cache of answers on a few calls.
use receipts_sdk.Prelude.{
  ℕ, ◌≤◌, ◌≡◌, refl, some, none, Option, List, [], ◌∷◌, Text, codes, ok, err, arith,
}
use receipts_sdk.Prelude.Maps.{remove}
use receipts_sdk.Cost.Dedup.{
  PromptKey, CacheEntry, prompt_json, hash_key, entry_key, new_dedup, look_up, get_hashed,
  put_hashed, get_cached, put_cached,
}
use receipts_sdk.Cost.Dedup.Lookups.{in_force, value_of}
use receipts_sdk.Cost.Dedup.Served.{
  CacheCall, asks, stores, InTime, latest, replay, get_cached-latest,
}
use receipts_sdk.Toy.{toy, toy_laws}
use receipts_sdk.Tests.{runs}

abbrev ask : PromptKey
ask = record { prompt = codes "sum"; model = codes "m1"; tools = none; temperature = none }

-- The tenant stores 7, asks once, and stores 8; another tenant stores 9.
abbrev calls : List (CacheCall ℕ)
calls =
    stores (codes "acme") ask 8 50
    ∷ asks (codes "acme") ask 30
    ∷ stores (codes "other") ask 9 20
    ∷ stores (codes "acme") ask 7 10
    ∷ []

caches : Unit {0}
unfolding runs remove prompt_json hash_key entry_key new_dedup look_up get_hashed put_hashed
    get_cached put_cached latest replay
caches = tt

timely : (now : ℕ) → 50 ≤ now → InTime now calls
timely now le = (le, (omega arith, (omega arith, (omega arith, tt))))

abbrev ask_hash : Text
unfolding caches
ask_hash = elim (hash_key toy ask) [ ok h ↦ h | err e ↦ [] ]

hashed : hash_key toy ask ≡ ok ask_hash
unfolding caches
hashed = refl

found :
    (value_of (elim ((get_cached toy (replay toy (some 100) calls) (codes "acme") ask 150).1) [
      | ok e ↦ e
      | err e ↦ none
    ]))
    ≡ some 8
unfolding caches
found = refl

gone : (get_cached toy (replay toy (some 100) calls) (codes "acme") ask 151).1 ≡ ok none
unfolding caches
gone = refl

get_cached-latest_example :
    (e : Option (CacheEntry ℕ)) × ((get_cached toy
        (replay toy (some 100) calls)
        (codes "acme")
        ask
        60).1
      ≡ ok e)
    × (value_of e ≡ in_force 100 60 (latest toy calls (codes "acme") ask_hash))
get_cached-latest_example =
    get_cached-latest toy toy_laws (some 100) calls 60 (timely 60 (omega arith)) (codes "acme") ask
      hashed
