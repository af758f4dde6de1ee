-- ===== src/Runtime/CacheRetention/Pruned.antt =====
-- The pruning of a cache directory as a whole.
use odenctl.Prelude.{
  ℕ, ◌<◌, ◌≡◌, refl, String, Bool, Option, none, some, List, [], arith, lt→ltb, All, Member,
  All-of_Member, All-member,
}
use odenctl.Prelude.Keyed.{Distinct}
use odenctl.Prelude.Text.{Text}
use odenctl.Runtime.CacheRetention.{
  CacheFile, RuntimeCacheKind, RuntimeCacheRetentionOptions, FileSystem, Entry, Sweep, path_of,
  candidates, sum_bytes, prune_by_age, prune_by_size, prune_files, positive_number,
  list_cache_files, report_of, prune_cache_directory,
}
use odenctl.Runtime.CacheRetention.Sweeps.{IsSweep}
use odenctl.Runtime.CacheRetention.Limits.{
  IsYoung, IsSmall, expire-IsExpired, shrink-IsShrunk, candidates-IsQueue,
}

-- a limit that may be absent
abbrev pub AllUnder : Option ℕ → (ℕ → Type 0) → Type 0
AllUnder none P = Unit
AllUnder (some limit) P = P limit

pub record IsPruned (max_age max_bytes : Option ℕ) (now : ℕ) (files : List CacheFile) (s : Sweep)
    : Type 0 where
  pub sweep : IsSweep max_age now files s
  pub young : AllUnder max_age (λ limit. All (IsYoung now limit) s.remaining)
  pub small : AllUnder max_bytes (λ limit. IsSmall limit s.remaining)

record IsAged (max_age : Option ℕ) (now : ℕ) (files : List CacheFile) (s : Sweep) : Type 0 where
  sweep : IsSweep max_age now files s
  young : AllUnder max_age (λ limit. All (IsYoung now limit) s.remaining)

start-IsSweep :
    (max_age : Option ℕ) (now : ℕ) (files : List CacheFile)
    → Distinct path_of files
    → IsSweep max_age now files (record { removed = []; remaining = files })
start-IsSweep max_age now files d = record {
  distinct = d;
  listed = λ f m. m;
  protected = λ f m kept. m;
  accounts = omega arith;
  justified = tt;
}

prune_by_age-IsAged :
    (max_age : Option ℕ) (now : ℕ) (files : List CacheFile)
    → Distinct path_of files
    → IsAged max_age now files (prune_by_age max_age now files)
unfolding prune_by_age
prune_by_age-IsAged none now files d = record { sweep = start-IsSweep none now files d; young = tt }
prune_by_age-IsAged (some limit) now files d =
    let e =
      expire-IsExpired (some limit) now limit refl files files
        (record { removed = []; remaining = files }) (start-IsSweep (some limit) now files d)
        (record { distinct = d; present = λ f m. m }) in
    record {
      sweep = e.sweep;
      young = All-of_Member (IsYoung now limit) _ (λ f m. e.young f (e.sweep.listed f m) m);
    }

fewer-IsYoung :
    (max_age : Option ℕ) (now : ℕ) (s t : Sweep)
    → ((f : CacheFile) → Member f t.remaining → Member f s.remaining)
    → AllUnder max_age (λ limit. All (IsYoung now limit) s.remaining)
    → AllUnder max_age (λ limit. All (IsYoung now limit) t.remaining)
fewer-IsYoung none now s t fewer young = tt
fewer-IsYoung (some limit) now s t fewer young =
    All-of_Member (IsYoung now limit) t.remaining
      (λ f m. All-member (IsYoung now limit) s.remaining young (fewer f m))

prune_by_size-IsPruned :
    (collates : Text → Text → Bool) (max_age max_bytes : Option ℕ) (now : ℕ)
    (files : List CacheFile) (s : Sweep)
    → IsAged max_age now files s
    → IsPruned max_age max_bytes now files (prune_by_size collates max_bytes s)
unfolding prune_by_size
prune_by_size-IsPruned collates max_age none now files s h = record {
  sweep = h.sweep;
  young = h.young;
  small = tt;
}
prune_by_size-IsPruned collates max_age (some limit) now files s h =
    let t =
      shrink-IsShrunk max_age now limit files (candidates collates s.remaining)
        (sum_bytes s.remaining) s h.sweep
        (candidates-IsQueue max_age now limit files collates s h.sweep) in
    record {
      sweep = t.sweep;
      young = fewer-IsYoung max_age now s (prune_by_size collates (some limit) s) t.fewer h.young;
      small = t.small;
    }

prune_files-IsPruned :
    (collates : Text → Text → Bool) (max_age max_bytes : Option ℕ) (now : ℕ)
    (files : List CacheFile)
    → Distinct path_of files
    → IsPruned max_age max_bytes now files (prune_files collates max_age max_bytes now files)
unfolding prune_files
prune_files-IsPruned collates max_age max_bytes now files d =
    prune_by_size-IsPruned collates max_age max_bytes now files (prune_by_age max_age now files)
      (prune_by_age-IsAged max_age now files d)

positive_number-ok : (o : Option ℕ) → AllUnder o (λ n. 0 < n) → positive_number o ≡ some o
unfolding positive_number
positive_number-ok none h = refl
positive_number-ok (some n) h = rw (lt→ltb 0 n h) refl

-- For a directory that exists, whose files have different paths, and limits that are absent or
-- positive, the pruning does not fail and its report is that of a sweep over the listed files. The
-- sweep deletes no file at a path that is to be kept; each file it reports was listed, and was
-- beyond the age limit when age is the reason; the bytes reported as kept and as removed add up to
-- the bytes listed. After it, every file that is left is protected or within the age limit, if there
-- is one, and the bytes left are within the size limit, if there is one, or all files left are
-- protected.
pub prune_cache_directory-IsPruned :
    (system : FileSystem) (collates : Text → Text → Bool) (kind : RuntimeCacheKind) (dir : String)
    (options : RuntimeCacheRetentionOptions) (now : ℕ) (keep_paths : List String)
    (entries : List Entry)
    → system.entries dir ≡ some entries
    → AllUnder options.max_age_ms (λ n. 0 < n)
    → AllUnder options.max_bytes (λ n. 0 < n)
    → Distinct path_of (list_cache_files system dir keep_paths entries)
    → (s : Sweep) × (prune_cache_directory system collates kind dir options now keep_paths
        ≡ some (report_of kind dir (list_cache_files system dir keep_paths entries) s))
      × IsPruned options.max_age_ms options.max_bytes now
          (list_cache_files system dir keep_paths entries)
          s
unfolding prune_cache_directory
prune_cache_directory-IsPruned system collates kind dir options now keep_paths entries here old big
      d =
    let files = list_cache_files system dir keep_paths entries in
    (
      prune_files collates options.max_age_ms options.max_bytes now files,
      rw
          (
            prune_cache_directory,
            here,
            positive_number-ok options.max_age_ms old,
            positive_number-ok options.max_bytes big,
          )
          refl,
      prune_files-IsPruned collates options.max_age_ms options.max_bytes now files d,
    )
