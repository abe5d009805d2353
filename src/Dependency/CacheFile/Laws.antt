-- ===== src/Dependency/CacheFile/Laws.antt =====
-- Theorems on `latestCacheFile` and `ensureCacheFresh`.
use pci_dss_mcp.Common.{
  ℕ, ◌+◌, ◌≤◌, ◌<◌, ◌≡◌, refl, ◌≢◌, ◌⊎◌, inl, inr, Bool, true, false, ◌&&◌, ◌||◌, not, Option, none,
  some, List, [], ◌∷◌, arith, Text, if◌then◌else◌, Bool-cases, All,
}
use pci_dss_mcp.GoStrings.{is_empty}
use pci_dss_mcp.Dependency.CacheFile.{
  after_missing, no_dir, DirEntry, entry_date, newer, latest_loop, latest_cache_file,
  cache_fresh_ttl, cache_stale_ttl, CacheState, Conditional, get_failed, modified, not_modified,
  Refresh, refreshed, lock_busy, refresh_failed, Action, refresh_cache_if_missing, World, by_age,
  by_files, ensure_cache_fresh,
}

-- No file of the directory has a later date.
abbrev pub AllUpTo : (Text → Option ℕ) → ℕ → List DirEntry → Type 0
AllUpTo parse_date d [] = Unit
AllUpTo parse_date d (e ∷ entries) =
    ((n : ℕ) → entry_date parse_date e ≡ some n → n ≤ d) × AllUpTo parse_date d entries

-- The age of the file that is used, if there is one.
abbrev pub used_age : World → Option ℕ
used_age w = first w.canonical_age w.legacy_age
  where
    first : Option ℕ → Option ℕ → Option ℕ
    first (some age) legacy = some age
    first none legacy = legacy

abbrev pub flags : CacheState → ℕ
flags s =
    (if s.cold_cache then 1 else 0)
    + (if s.stale_fallback then 1 else 0)
    + (if s.no_writable_dir then 1 else 0)

-- The refresh ends without a new file, another process holding the lock or not.
abbrev pub refresh_fails : Refresh → Bool
refresh_fails refreshed = false
refresh_fails lock_busy = true
refresh_fails refresh_failed = true

-- Of a file of at most a week, the request fails, or answers that there is a new file and the refresh
-- fails.
abbrev pub request_fails : Conditional → Refresh → Bool
request_fails get_failed r = true
request_fails modified r = refresh_fails r
request_fails not_modified r = false

abbrev AgeContract : World → ℕ → CacheState × List Action → Type 0
AgeContract w age r =
    (flags r.0 ≤ 1)
    × (r.0.cold_cache ≡ false)
    × (r.0.no_writable_dir ≡ false)
    × (r.0.cache_age ≡ age)
    × (age < cache_fresh_ttl → (r.1 ≡ []) × (r.0.stale_fallback ≡ false))
    × (cache_fresh_ttl ≤ age → r.1 ≢ [])
    × (cache_stale_ttl < age → r.0.stale_fallback ≡ refresh_fails w.refresh)
    × (cache_fresh_ttl ≤ age
        → age ≤ cache_stale_ttl
        → r.0.stale_fallback ≡ request_fails w.conditional w.refresh)

by_age-AgeContract : (w : World) (age : ℕ) → AgeContract w age (by_age w age)
unfolding by_age
by_age-AgeContract w age = go w.conditional w.refresh
  where
    go :
        (c : Conditional) (r : Refresh)
        → AgeContract
            (record w { conditional = c; refresh = r })
            age
            (by_age (record w { conditional = c; refresh = r }) age)
    go get_failed refreshed = ground arith
    go get_failed lock_busy = ground arith
    go get_failed refresh_failed = ground arith
    go modified refreshed = ground arith
    go modified lock_busy = ground arith
    go modified refresh_failed = ground arith
    go not_modified refreshed = ground arith
    go not_modified lock_busy = ground arith
    go not_modified refresh_failed = ground arith

-- The download fails, or another process holds the lock and there is no file after that either.
abbrev pub no_file : World → Refresh → Bool
no_file w refreshed = false
no_file w lock_busy = not w.present_after
no_file w refresh_failed = true

-- With no file there is one, guarded download; a flag says that it gave no file.
abbrev pub MissingContract : World → CacheState × List Action → Type 0
MissingContract w r =
    (flags r.0 ≤ 1)
    × (r.0.stale_fallback ≡ false)
    × (r.0.cache_age ≡ 0)
    × (r.1 ≡ refresh_cache_if_missing ∷ [])
    × (r.0.cold_cache ≡ (no_file w w.refresh && w.writable_after))
    × (r.0.no_writable_dir ≡ (no_file w w.refresh && not w.writable_after))

abbrev pub FilesContract : World → Option ℕ → CacheState × List Action → Type 0
FilesContract w (some age) r = AgeContract w age r
FilesContract w none r = MissingContract w r

abbrev pub CacheContract : World → CacheState × List Action → Type 0
CacheContract w r =
    ((is_empty w.cache_dir || not w.writable) ≡ true → r ≡ (no_dir, []))
    × ((is_empty w.cache_dir || not w.writable) ≡ false → FilesContract w (used_age w) r)

after_missing-MissingContract :
    (w : World) → MissingContract w (after_missing w w.refresh, refresh_cache_if_missing ∷ [])
after_missing-MissingContract w = go w.conditional w.refresh w.present_after w.writable_after
  where
    go :
        (c : Conditional) (r : Refresh) (p q : Bool)
        → MissingContract
            (record w { conditional = c; refresh = r; present_after = p; writable_after = q })
            (
              after_missing (record w { present_after = p; writable_after = q }) r,
              refresh_cache_if_missing ∷ [],
            )
    go get_failed refreshed p q = ground arith
    go get_failed lock_busy p q = ground arith
    go get_failed refresh_failed p q = ground arith
    go modified refreshed p q = ground arith
    go modified lock_busy p q = ground arith
    go modified refresh_failed p q = ground arith
    go not_modified refreshed p q = ground arith
    go not_modified lock_busy p q = ground arith
    go not_modified refresh_failed p q = ground arith

by_files-FilesContract :
    (w : World) → FilesContract w (used_age w) (by_files w w.canonical_age w.legacy_age)
by_files-FilesContract w = go w.canonical_age w.legacy_age
  where
    go :
        (a b : Option ℕ)
        → FilesContract w
            (used_age (record w { canonical_age = a; legacy_age = b }))
            (by_files w a b)
    go (some age) b = by_age-AgeContract w age
    go none (some age) = by_age-AgeContract w age
    go none none = after_missing-MissingContract w

-- Without a directory that can be written to, the state says so and nothing is done. Otherwise at
-- most one flag is set. With a cache file, its age is reported, the cache is neither cold nor without
-- a directory, nothing is done to a file of less than a day, and something is to any other. The
-- fallback is reported, of a file older than a week, exactly where the refresh fails, and of one of a
-- day to a week exactly where the request fails, or finds a new file and the refresh fails. With no
-- file, the guarded download is all that is done, and where it gives none the cache is cold if the
-- directory can still be written to and the directory is missing if it cannot; nowhere else.
pub ensure_cache_fresh_lem : (w : World) → CacheContract w (ensure_cache_fresh w)
unfolding ensure_cache_fresh
ensure_cache_fresh_lem w = elim (Bool-cases (is_empty w.cache_dir || not w.writable)) [
  | inl e ↦ rw e ((λ h. refl), (λ h. cc))
  | inr e ↦ rw e ((λ h. cc), (λ h. by_files-FilesContract w))
]

module _ (parse_date : Text → Option ℕ) where
  abbrev pub AllUndated : List DirEntry → Type 0
  AllUndated entries = All (λ e. entry_date parse_date e ≡ none) entries

  abbrev pub Listed : Text → ℕ → List DirEntry → Type 0
  Listed p d [] = ⊥
  Listed p d (e ∷ entries) =
      ((e.path ≡ p) × (entry_date parse_date e ≡ some d)) ⊎ Listed p d entries

  abbrev pub LatestContract : List DirEntry → Option (Text × ℕ) → Type 0
  LatestContract entries none = AllUndated entries
  LatestContract entries (some (p, d)) = Listed p d entries × AllUpTo parse_date d entries

  abbrev Reached : Option (Text × ℕ) → Text → ℕ → Type 0
  Reached none p d = Unit
  Reached (some (q, n)) p d = n ≤ d

  abbrev LoopContract : Option (Text × ℕ) → List DirEntry → Option (Text × ℕ) → Type 0
  LoopContract latest entries none = (latest ≡ none) × AllUndated entries
  LoopContract latest entries (some (p, d)) =
      ((latest ≡ some (p, d)) ⊎ Listed p d entries)
      × Reached latest p d
      × AllUpTo parse_date d entries

  step-LoopContract :
      (latest : Option (Text × ℕ)) (e : DirEntry) (entries : List DirEntry) (date : Option ℕ)
      (r : Option (Text × ℕ))
      → entry_date parse_date e ≡ date
      → LoopContract (newer parse_date latest e.path date) entries r
      → LoopContract latest (e ∷ entries) r
  step-LoopContract none e entries none none h c = (refl, (h, c.1))
  step-LoopContract (some (q, n)) e entries none none h c = ground arith
  step-LoopContract none e entries (some m) none h c = ground arith
  step-LoopContract (some (q, n)) e entries (some m) none h c = ground arith
  step-LoopContract none e entries none (some (p, d)) h (c0, c1, c2) =
      (ground arith, tt, ((λ k hk. cc), c2))
  step-LoopContract (some (q, n)) e entries none (some (p, d)) h (c0, c1, c2) =
      (ground arith, c1, ((λ k hk. cc), c2))
  step-LoopContract none e entries (some m) (some (p, d)) h (c0, c1, c2) =
      (ground arith, tt, ((λ k hk. ground arith), c2))
  step-LoopContract (some (q, n)) e entries (some m) (some (p, d)) h c =
      (ground arith, ground arith, ((λ k hk. ground arith), ground arith))

  latest_loop-LoopContract :
      (latest : Option (Text × ℕ)) (entries : List DirEntry)
      → LoopContract latest entries (latest_loop parse_date latest entries)
  unfolding latest_loop
  latest_loop-LoopContract none [] = (refl, tt)
  latest_loop-LoopContract (some (p, d)) [] = (inl refl, omega arith, tt)
  latest_loop-LoopContract latest (e ∷ entries) =
      step-LoopContract latest e entries (entry_date parse_date e) _ refl (
        latest_loop-LoopContract (newer parse_date latest e.path (entry_date parse_date e)) entries)

  -- A file that is found is one of the entries with a date, and no entry has a later one. None is
  -- found only where no entry has a date.
  pub latest_cache_file_lem :
      (entries : List DirEntry) → LatestContract entries (latest_cache_file parse_date entries)
  unfolding latest_cache_file
  latest_cache_file_lem entries =
      whole (latest_loop parse_date none entries) (latest_loop-LoopContract none entries)
    where
      whole : (r : Option (Text × ℕ)) → LoopContract none entries r → LatestContract entries r
      whole none c = c.1
      whole (some (p, d)) (inl e, u, c) = cc
      whole (some (p, d)) (inr e, u, c) = (e, c)
