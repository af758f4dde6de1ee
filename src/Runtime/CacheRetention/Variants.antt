-- ===== src/Runtime/CacheRetention/Variants.antt =====
-- invalidatePrecompiledCacheVariants and the test of a name in runtime/cache-retention.ts. The
-- pattern of a name is fixed but for its first part, so it is matched from the end.
use odenctl.Prelude.{
  ℕ, ◌+◌, ◌-◌, String, Bool, false, ◌&&◌, ◌||◌, Option, none, some, List, [], ◌∷◌, ◌++◌, map,
  length, take, drop, every, leb, ltb, not, nat_eq, string_eq, ◌==◌, if◌then◌else◌,
}
use odenctl.Prelude.Text.{Text, codes, text_eq}
use odenctl.Runtime.CacheRetention.{
  RuntimeCacheDirectoryReport, precompiled, engine_variant, CacheFile, Sweep, FileSystem,
  remove_cache_file, list_cache_files, report_of, empty_report,
}

abbrev is_alphanumeric : ℕ → Bool
is_alphanumeric c =
    (leb b'a' c && leb c b'z') || (leb b'A' c && leb c b'Z') || (leb b'0' c && leb c b'9')

abbrev pub is_hex : ℕ → Bool
is_hex c = (leb b'a' c && leb c b'f') || (leb b'A' c && leb c b'F') || (leb b'0' c && leb c b'9')

abbrev safe_code : ℕ → ℕ
safe_code c = if is_alphanumeric c || c == b'_' || c == b'.' || c == b'-' then c else b'_'

unfoldable pub safe_cache_fragment : Text → Text
safe_cache_fragment = map safe_code

-- what `.` of a pattern does not match
abbrev is_line_end : ℕ → Bool
is_line_end c = c == 10 || c == 13 || c == 0x2028 || c == 0x2029

-- what a name ends in after the digest; an empty variant is no variant
unfoldable pub variant_suffix : Option Text → Text
unfolding safe_cache_fragment
variant_suffix none = codes ".cwasm"
variant_suffix (some []) = codes ".cwasm"
variant_suffix (some (c ∷ cs)) = b'-' ∷ safe_cache_fragment (c ∷ cs) ++ codes ".cwasm"

-- a nonempty stem without line ends
abbrev pub is_stem : Text → Bool
is_stem stem = ltb 0 (length stem) && every (λ c. not (is_line_end c)) stem

-- a dash, 64 hexadecimal digits, and what follows them
abbrev pub is_tail : Text → Text → Bool
is_tail suffix [] = false
is_tail suffix (c ∷ cs) =
    c == b'-' && every is_hex (take 64 cs) && ltb 63 (length cs) && drop 64 cs == suffix

unfoldable pub matches_from_end : Text → Text → Bool
matches_from_end suffix name =
    let split = length name - (65 + length suffix) in
    is_stem (take split name) && is_tail suffix (drop split name)

unfoldable pub precompiled_cache_name_matches_engine_variant : Text → Option Text → Bool
unfolding variant_suffix matches_from_end
precompiled_cache_name_matches_engine_variant name current =
    matches_from_end (variant_suffix current) name

-- `file.name.endsWith(".cwasm")`
unfoldable pub ends_with_cwasm : Text → Bool
ends_with_cwasm name = leb 6 (length name) && drop (length name - 6) name == codes ".cwasm"

abbrev pub is_stale : Option Text → CacheFile → Bool
is_stale current file =
    not file.keep
    && ends_with_cwasm file.name
    && not (precompiled_cache_name_matches_engine_variant file.name current)

unfoldable pub invalidate : Option Text → List CacheFile → Sweep → Sweep
unfolding remove_cache_file
invalidate current [] sweep = sweep
invalidate current (file ∷ files) sweep =
    invalidate current files
      (if is_stale current file then remove_cache_file file engine_variant sweep else sweep)

-- with the paths to keep resolved, as in the source
unfoldable pub invalidate_precompiled_cache_variants :
    FileSystem → String → Option Text → List String → RuntimeCacheDirectoryReport
unfolding invalidate list_cache_files report_of
invalidate_precompiled_cache_variants system dir current keep_paths = elim (system.entries dir) [
  | none ↦ empty_report precompiled dir
  | some entries ↦
      let files = list_cache_files system dir (map system.resolve keep_paths) entries in
      report_of precompiled dir files
        (invalidate current files (record { removed = []; remaining = files }))
]
