-- ===== src/Hybrid/Cache.antt =====
-- scanner/hybridcache/hybridcache.go: the session cache with its time to live. The background sweep
-- runs at any time between two calls; the state of its channels is not modelled.
pub mod Laws
use pci_dss_mcp.Common.{
  ℕ, ◌+◌, ◌*◌, ◌^◌, Bool, Option, none, some, List, [], ◌∷◌, Text, eq_text, ltb, if◌then◌else◌,
}

-- `SessionTTL`, ten minutes in nanoseconds.
abbrev pub session_ttl : ℕ
session_ttl = 600 * 10 ^ 9

-- An entry, by what it holds; times are nanoseconds of the clock.
pub record Entry (V : Type 0) : Type 0 where
  pub value : V
  pub created_at : ℕ
  pub expires_at : ℕ

-- `sync.Map`, by key; the newest entry of a key stands first.
abbrev pub Cache : Type 0 → Type 0
Cache V = List (Text × Entry V)

module _ {V : Type 0} where
  unfoldable pub load : Text → Cache V → Option (Entry V)
  load sid [] = none
  load sid ((k, e) ∷ cache) = let later = load sid cache in if eq_text k sid then some e else later

  unfoldable pub delete : Text → Cache V → Cache V
  delete sid [] = []
  delete sid ((k, e) ∷ cache) =
      let rest = delete sid cache in if eq_text k sid then rest else (k, e) ∷ rest

  abbrev pub is_expired : ℕ → Entry V → Bool
  is_expired now e = ltb e.expires_at now

  -- `evictExpired`: the range over the map, with `delete` for each expired entry.
  unfoldable pub evict_expired : ℕ → Cache V → Cache V
  evict_expired now [] = []
  evict_expired now ((k, e) ∷ cache) =
      let rest = evict_expired now cache in if is_expired now e then rest else (k, e) ∷ rest

  unfoldable pub put : Text → V → ℕ → Cache V → Cache V
  unfolding delete
  put sid value now cache =
      (sid, record { value = value; created_at = now; expires_at = now + session_ttl })
      ∷ delete sid cache

  fetch : Text → ℕ → Option (Entry V) → Cache V → Option (Entry V) × Cache V
  fetch sid now none cache = (none, cache)
  fetch sid now (some e) cache =
      if is_expired now e then (none, delete sid cache) else (some e, cache)

  unfoldable pub get : Text → ℕ → Cache V → Option (Entry V) × Cache V
  unfolding fetch load delete
  get sid now cache = fetch sid now (load sid cache) cache
