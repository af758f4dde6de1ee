-- ===== src/Tests/Retaining.antt =====
-- A cache directory with a protected file, an old one and two that do not fit.
use odenctl.Prelude.{
  ℕ, ◌≡◌, refl, String, Bool, true, none, some, List, [], ◌∷◌, ◌++◌, arith, map, ◌==◌,
  if◌then◌else◌,
}
use odenctl.Prelude.Text.{Text, codes, text_eq}
use odenctl.Prelude.Keyed.{Distinct}
use odenctl.Runtime.CacheRetention.{
  RuntimeCacheRetentionOptions, FileSystem, Entry, Sweep, artifact, precompiled, path_of, CacheFile,
  list_cache_files, report_of, prune_cache_directory, prune_files,
}
use odenctl.Runtime.CacheRetention.Pruned.{IsPruned, prune_cache_directory-IsPruned}
use odenctl.Runtime.CacheRetention.Variants.{
  precompiled_cache_name_matches_engine_variant, invalidate_precompiled_cache_variants,
}
use odenctl.Runtime.CacheRetention.Stale.{
  IsInvalidated, invalidate_precompiled_cache_variants-IsInvalidated,
}
use odenctl.Runtime.CacheRetention.Names.{wasip3_name, wasmtime_name, names-match}

abbrev stored : Text → ℕ → ℕ → Entry
stored name size mtime_ms = record { name = name; is_file = true; size = size; mtime_ms = mtime_ms }

abbrev entries : List Entry
entries =
    stored (codes "a") 5 1
    ∷ stored (codes "b") 7 2
    ∷ stored (codes "c") 4 20
    ∷ stored (codes "d") 3 10
    ∷ []

abbrev joined : String → Text → String
joined dir name =
    if name == codes "a"
    then "a"
    else if name == codes "b"
    then "b"
    else if name == codes "c"
    then "c"
    else "d"

abbrev system : FileSystem
system = record { entries = λ dir. some entries; join = joined; resolve = λ path. path }

abbrev options : RuntimeCacheRetentionOptions
options = record {
  artifact_cache_dir = some "cache";
  precompiled_cache_dir = none;
  max_bytes = some 10;
  max_age_ms = some 8;
  keep_paths = "a" ∷ [];
}

abbrev files : List CacheFile
files = list_cache_files system "cache" ("a" ∷ []) entries

abbrev by_name : Text → Text → Bool
by_name s t = true

-- the old `b` and then `d`, the oldest of the others
pruned-removed :
    map (λ r. r.path) (prune_files by_name (some 8) (some 10) 18 files).removed ≡ "b" ∷ "d" ∷ []
unfolding prune_files list_cache_files
pruned-removed = refl

distinct : Distinct path_of files
unfolding list_cache_files
distinct = (refl, (refl, (refl, (refl, tt))))

prune_cache_directory-IsPruned_example :
    (s : Sweep) × (prune_cache_directory system by_name artifact "cache" options 18 ("a" ∷ [])
      ≡ some (report_of artifact "cache" files s))
    × IsPruned (some 8) (some 10) 18 files s
prune_cache_directory-IsPruned_example =
    prune_cache_directory-IsPruned system by_name artifact "cache" options 18 ("a" ∷ []) entries
      refl (omega arith) (omega arith) distinct

invalidate_precompiled_cache_variants-IsInvalidated_example :
    (s : Sweep) × (invalidate_precompiled_cache_variants system "cache"
        (some (codes "v1"))
        ("a" ∷ [])
      ≡ report_of precompiled "cache" files s)
    × IsInvalidated (some (codes "v1")) files files (record { removed = []; remaining = files }) s
invalidate_precompiled_cache_variants-IsInvalidated_example =
    invalidate_precompiled_cache_variants-IsInvalidated system "cache" (some (codes "v1"))
      ("a" ∷ []) entries refl distinct

abbrev eights : Text
eights = codes "0123456789abcdef0123456789abcdef0123456789ABCDEF0123456789ABCDEF"

names-match_example :
    (precompiled_cache_name_matches_engine_variant
        (wasip3_name (some (codes "v 1")) (codes "app/1") (codes "sha256:" ++ eights))
        (some (codes "v 1"))
      ≡ true)
    × (precompiled_cache_name_matches_engine_variant
          (wasmtime_name (codes "app/1") (codes "sha256:" ++ eights))
          none
        ≡ true)
names-match_example = names-match (codes "app/1") eights (some (codes "v 1")) (λ e. cc e) refl refl
