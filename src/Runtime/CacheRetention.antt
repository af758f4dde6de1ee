-- ===== src/Runtime/CacheRetention.antt =====
-- What is deleted of the caches of a runtime node: runtime/cache-retention.ts. The entries of a
-- directory, `join` and `resolve` of paths and `localeCompare` are parameters; sizes, ages and
-- limits are whole numbers. The names in a directory differ, so its `Map` by path is the list, and the
-- two directories do not share files. A rejected promise is `none`. That of a failed `unlink` is left out.
use odenctl.Prelude.{
  ℕ, ◌+◌, ◌-◌, ◌≤◌, ◌<◌, String, Bool, true, false, ◌&&◌, ◌||◌, Option, none, some, List, [], ◌∷◌,
  ◌++◌, map, length, take, drop, filter, any, every, sum_by, ltb, leb, not, nat_eq, string_eq, ◌==◌,
  if◌then◌else◌,
}
use odenctl.Prelude.Keyed.{without}
use odenctl.Prelude.Sort.{sort}
use odenctl.Prelude.Text.{Text, codes, text_eq}
pub mod Sweeps
pub mod Limits
pub mod Pruned
pub mod Variants
pub mod Stale
pub mod Names

pub data RuntimeCacheKind : Type 0 where
  artifact precompiled : RuntimeCacheKind

pub data Reason : Type 0 where
  age size engine_variant : Reason

pub record RuntimeCacheRetentionOptions : Type 0 where
  pub artifact_cache_dir : Option String
  pub precompiled_cache_dir : Option String
  pub max_bytes : Option ℕ
  pub max_age_ms : Option ℕ
  pub keep_paths : List String

pub record CacheFile : Type 0 where
  pub name : Text
  pub path : String
  pub size_bytes : ℕ
  pub mtime_ms : ℕ
  pub keep : Bool

pub record RuntimeCacheRemovedFile : Type 0 where
  pub name : Text
  pub path : String
  pub size_bytes : ℕ
  pub reason : Reason

pub record RuntimeCacheDirectoryReport : Type 0 where
  pub kind : RuntimeCacheKind
  pub path : String
  pub scanned : ℕ
  pub kept_bytes : ℕ
  pub removed_bytes : ℕ
  pub removed : List RuntimeCacheRemovedFile

pub record RuntimeCacheGcReport : Type 0 where
  pub directories : List RuntimeCacheDirectoryReport
  pub removed : ℕ
  pub removed_bytes : ℕ
  pub kept_bytes : ℕ

-- an entry of a directory with what `stat` says of it
pub record Entry : Type 0 where
  pub name : Text
  pub is_file : Bool
  pub size : ℕ
  pub mtime_ms : ℕ

-- the file system: the entries of a directory that exists, and the functions on paths
pub record FileSystem : Type 0 where
  pub entries : String → Option (List Entry)
  pub join : String → Text → String
  pub resolve : String → String

-- the lists `removed` and `remaining` of the source
pub record Sweep : Type 0 where
  pub removed : List RuntimeCacheRemovedFile
  pub remaining : List CacheFile

abbrev pub sum_bytes : List CacheFile → ℕ
sum_bytes = sum_by (λ f. f.size_bytes)

abbrev pub sum_removed_bytes : List RuntimeCacheRemovedFile → ℕ
sum_removed_bytes = sum_by (λ f. f.size_bytes)

abbrev pub path_of : CacheFile → String
path_of f = f.path

abbrev pub removed_file : CacheFile → Reason → RuntimeCacheRemovedFile
removed_file file reason = record {
  name = file.name;
  path = file.path;
  size_bytes = file.size_bytes;
  reason = reason;
}

unfoldable pub remove_cache_file : CacheFile → Reason → Sweep → Sweep
remove_cache_file file reason sweep = record {
  removed = sweep.removed ++ removed_file file reason ∷ [];
  remaining = without path_of file.path sweep.remaining;
}

unfoldable pub positive_number : Option ℕ → Option (Option ℕ)
positive_number none = some none
positive_number (some n) = if ltb 0 n then some (some n) else none

unfoldable pub list_cache_files : FileSystem → String → List String → List Entry → List CacheFile
list_cache_files system dir keep_paths [] = []
list_cache_files system dir keep_paths (entry ∷ entries) =
    let rest = list_cache_files system dir keep_paths entries in
    if entry.is_file
    then record {
      name = entry.name;
      path = system.join dir entry.name;
      size_bytes = entry.size;
      mtime_ms = entry.mtime_ms;
      keep = any (λ kept. kept == system.resolve (system.join dir entry.name)) keep_paths;
    }
      ∷ rest
    else rest

-- `file.mtimeMs < nowMs - maxAgeMs`
abbrev pub is_expired : ℕ → ℕ → CacheFile → Bool
is_expired now max_age file = ltb (file.mtime_ms + max_age) now

-- the loop over the files that are too old
unfoldable pub expire : ℕ → ℕ → List CacheFile → Sweep → Sweep
unfolding remove_cache_file
expire now max_age [] sweep = sweep
expire now max_age (file ∷ files) sweep = expire now max_age files (
    if not file.keep && is_expired now max_age file
    then remove_cache_file file age sweep
    else sweep)

-- The loop over the candidates. What it subtracts is part of the sum.
unfoldable pub shrink : ℕ → ℕ → List CacheFile → Sweep → Sweep
unfolding remove_cache_file
shrink max_bytes kept_bytes [] sweep = sweep
shrink max_bytes kept_bytes (file ∷ files) sweep =
    let rest =
      shrink max_bytes (kept_bytes - file.size_bytes) files (remove_cache_file file size sweep) in
    if leb kept_bytes max_bytes then sweep else rest

-- `collates l r` is `l.localeCompare(r) <= 0`
abbrev pub older : (Text → Text → Bool) → CacheFile → CacheFile → Bool
older collates left right =
    ltb left.mtime_ms right.mtime_ms
    || (left.mtime_ms == right.mtime_ms && collates left.name right.name)

unfoldable pub candidates : (Text → Text → Bool) → List CacheFile → List CacheFile
unfolding sort
candidates collates remaining = sort (older collates) (filter (λ f. not f.keep) remaining)

-- The body of `pruneCacheDirectory` on the files that it lists.
unfoldable pub prune_by_age : Option ℕ → ℕ → List CacheFile → Sweep
unfolding expire
prune_by_age none now files = record { removed = []; remaining = files }
prune_by_age (some max_age) now files =
    expire now max_age files (record { removed = []; remaining = files })

unfoldable pub prune_by_size : (Text → Text → Bool) → Option ℕ → Sweep → Sweep
unfolding shrink candidates
prune_by_size collates none sweep = sweep
prune_by_size collates (some max_bytes) sweep =
    shrink max_bytes (sum_bytes sweep.remaining) (candidates collates sweep.remaining) sweep

unfoldable pub prune_files : (Text → Text → Bool) → Option ℕ → Option ℕ → ℕ → List CacheFile → Sweep
unfolding prune_by_age prune_by_size
prune_files collates max_age max_bytes now files =
    prune_by_size collates max_bytes (prune_by_age max_age now files)

abbrev pub empty_report : RuntimeCacheKind → String → RuntimeCacheDirectoryReport
empty_report kind dir = record {
  kind = kind;
  path = dir;
  scanned = 0;
  kept_bytes = 0;
  removed_bytes = 0;
  removed = [];
}

unfoldable pub report_of :
    RuntimeCacheKind → String → List CacheFile → Sweep → RuntimeCacheDirectoryReport
report_of kind dir files sweep = record {
  kind = kind;
  path = dir;
  scanned = length files;
  kept_bytes = sum_bytes sweep.remaining;
  removed_bytes = sum_removed_bytes sweep.removed;
  removed = sweep.removed;
}

unfoldable pub gc_report : List RuntimeCacheDirectoryReport → RuntimeCacheGcReport
gc_report reports = record {
  directories = reports;
  removed = sum_by (λ (r : RuntimeCacheDirectoryReport). length r.removed) reports;
  removed_bytes = sum_by (λ (r : RuntimeCacheDirectoryReport). r.removed_bytes) reports;
  kept_bytes = sum_by (λ (r : RuntimeCacheDirectoryReport). r.kept_bytes) reports;
}

module _ (system : FileSystem) where
  unfoldable pub prune_cache_directory :
      (Text → Text → Bool)
      → RuntimeCacheKind
      → String
      → RuntimeCacheRetentionOptions
      → ℕ
      → List String
      → Option RuntimeCacheDirectoryReport
  unfolding positive_number list_cache_files prune_files report_of
  prune_cache_directory collates kind dir options now keep_paths = elim (system.entries dir) [
    | none ↦ some (empty_report kind dir)
    | some entries ↦ elim (positive_number options.max_age_ms) [
      | none ↦ none
      | some max_age ↦ elim (positive_number options.max_bytes) [
        | none ↦ none
        | some max_bytes ↦
            let files = list_cache_files system dir keep_paths entries in
            some (report_of kind dir files (prune_files collates max_age max_bytes now files))
      ]
    ]
  ]

  -- the report of a directory, if one is given
  unfoldable pub prune_directory :
      (Text → Text → Bool)
      → RuntimeCacheRetentionOptions
      → (RuntimeCacheKind → ℕ)
      → List String
      → RuntimeCacheKind
      → Option String
      → Option (List RuntimeCacheDirectoryReport)
  unfolding prune_cache_directory
  prune_directory collates options now keep_paths kind none = some []
  prune_directory collates options now keep_paths kind (some dir) =
      if dir == ""
      then some []
      else elim (prune_cache_directory collates kind dir options (now kind) keep_paths) [
        | none ↦ none
        | some report ↦ some (report ∷ [])
      ]

  unfoldable pub prune_runtime_caches :
      (Text → Text → Bool)
      → RuntimeCacheRetentionOptions
      → (RuntimeCacheKind → ℕ)
      → Option RuntimeCacheGcReport
  unfolding prune_directory gc_report
  prune_runtime_caches collates options now =
      let keep_paths = map system.resolve options.keep_paths in
      elim (prune_directory collates options now keep_paths artifact options.artifact_cache_dir) [
        | none ↦ none
        | some first ↦
            elim (prune_directory collates options now keep_paths precompiled
              options.precompiled_cache_dir) [
                | none ↦ none
                | some second ↦ some (gc_report (first ++ second))
              ]
      ]
