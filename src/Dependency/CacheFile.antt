-- ===== src/Dependency/CacheFile.antt =====
-- scanner/depscanner/cache.go and httpcache.go: which vulnerability cache is used, and when it is
-- fetched again.
pub mod Laws
use pci_dss_mcp.Common.{
  ℕ, ◌*◌, ◌^◌, Bool, true, false, ◌&&◌, ◌||◌, not, Option, none, some, List, [], ◌∷◌, Text, codes,
  ltb, if◌then◌else◌,
}
use pci_dss_mcp.GoStrings.{has_prefix, has_suffix, trim_prefix, trim_suffix, is_empty}

-- An entry of the cache directory; `path` is `filepath.Join(cacheDir, name)`.
pub record DirEntry : Type 0 where
  pub name : Text
  pub is_dir : Bool
  pub path : Text

abbrev pub cache_file_prefix : Text
cache_file_prefix = codes "go-osv-"

abbrev pub cache_file_suffix : Text
cache_file_suffix = codes ".json"

-- `parse_date` is `time.Parse` with the format of the names, as a number of days.
module _ (parse_date : Text → Option ℕ) where
  abbrev pub entry_date : DirEntry → Option ℕ
  entry_date entry =
      if entry.is_dir
        || not (has_prefix entry.name cache_file_prefix && has_suffix entry.name cache_file_suffix)
      then none
      else parse_date (trim_suffix (trim_prefix entry.name cache_file_prefix) cache_file_suffix)

  abbrev pub newer : Option (Text × ℕ) → Text → Option ℕ → Option (Text × ℕ)
  newer latest path none = latest
  newer none path (some date) = some (path, date)
  newer (some (p, d)) path (some date) = if ltb d date then some (path, date) else some (p, d)

  unfoldable pub latest_loop : Option (Text × ℕ) → List DirEntry → Option (Text × ℕ)
  latest_loop latest [] = latest
  latest_loop latest (entry ∷ entries) =
      latest_loop (newer latest entry.path (entry_date entry)) entries

  -- `none` where no file matches.
  unfoldable pub latest_cache_file : List DirEntry → Option (Text × ℕ)
  unfolding latest_loop
  latest_cache_file entries = latest_loop none entries

-- A day and a week, in nanoseconds.
abbrev pub cache_fresh_ttl : ℕ
cache_fresh_ttl = 24 * 3600 * 10 ^ 9

abbrev pub cache_stale_ttl : ℕ
cache_stale_ttl = 7 * (24 * 3600 * 10 ^ 9)

pub record CacheState : Type 0 where
  pub cold_cache : Bool
  pub stale_fallback : Bool
  pub no_writable_dir : Bool
  pub cache_age : ℕ

-- What the calls of `conditionalGet` and of the two refreshes answer.
pub data Conditional : Type 0 where
  get_failed modified not_modified : Conditional

pub data Refresh : Type 0 where
  refreshed lock_busy refresh_failed : Refresh

-- What the code does to the network and the files.
pub data Action : Type 0 where
  conditional_get refresh_cache refresh_cache_if_missing touch : Action

-- The answers of the file system and the network to one run. An age is the time since the file was
-- modified, 0 for a time in the future; `none` is a failed `Stat`. `legacy_age` is that of the file
-- that `latestCacheFile` finds, and `writable_after` and `present_after` are seen after a failed
-- refresh.
pub record World : Type 0 where
  pub cache_dir : Text
  pub writable : Bool
  pub canonical_age : Option ℕ
  pub legacy_age : Option ℕ
  pub conditional : Conditional
  pub refresh : Refresh
  pub present_after : Bool
  pub writable_after : Bool

abbrev pub no_dir : CacheState
no_dir = record {
  cold_cache = false;
  stale_fallback = false;
  no_writable_dir = true;
  cache_age = 0;
}

abbrev pub aged : ℕ → CacheState
aged age = record {
  cold_cache = false;
  stale_fallback = false;
  no_writable_dir = false;
  cache_age = age;
}

abbrev pub fallback : ℕ → CacheState
fallback age = record {
  cold_cache = false;
  stale_fallback = true;
  no_writable_dir = false;
  cache_age = age;
}

abbrev pub cold : CacheState
cold = record { cold_cache = true; stale_fallback = false; no_writable_dir = false; cache_age = 0 }

abbrev pub after_refresh : Refresh → ℕ → CacheState
after_refresh refreshed age = aged age
after_refresh lock_busy age = fallback age
after_refresh refresh_failed age = fallback age

abbrev pub revalidate : Conditional → Refresh → ℕ → CacheState × List Action
revalidate get_failed r age = (fallback age, conditional_get ∷ [])
revalidate modified r age = (after_refresh r age, conditional_get ∷ refresh_cache ∷ [])
revalidate not_modified r age = (aged age, conditional_get ∷ touch ∷ [])

-- A file of an age, for the canonical file and for the one of the older naming.
unfoldable pub by_age : World → ℕ → CacheState × List Action
by_age w age =
    if ltb age cache_fresh_ttl
    then (aged age, [])
    else if ltb cache_stale_ttl age
    then (after_refresh w.refresh age, refresh_cache ∷ [])
    else revalidate w.conditional w.refresh age

abbrev pub after_missing : World → Refresh → CacheState
after_missing w refreshed = aged 0
after_missing w lock_busy =
    if w.present_after then aged 0 else if w.writable_after then cold else no_dir
after_missing w refresh_failed = if w.writable_after then cold else no_dir

abbrev pub by_files : World → Option ℕ → Option ℕ → CacheState × List Action
by_files w (some age) legacy = by_age w age
by_files w none (some age) = by_age w age
by_files w none none = (after_missing w w.refresh, refresh_cache_if_missing ∷ [])

unfoldable pub ensure_cache_fresh : World → CacheState × List Action
unfolding by_age
ensure_cache_fresh w =
    if is_empty w.cache_dir || not w.writable
    then (no_dir, [])
    else by_files w w.canonical_age w.legacy_age
