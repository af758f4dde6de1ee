-- ===== src/Runtime/CacheRetention/Stale.antt =====
-- Which precompiled files the invalidation of variants deletes.
use odenctl.Prelude.{
  ◌+◌, ◌-◌, ◌≡◌, ◌≢◌, refl, sym, ap, ◌∙◌, inl, inr, String, true, false, Option, none, some, List,
  [], ◌∷◌, ◌++◌, arith, map, length, take, drop, every, ltb, nat_eq, string_eq, ◌==◌, Member,
  Bool-cases, take-append, drop-append, length-append, lt→ltb, beq_refl,
}
use odenctl.Prelude.Keyed.{Distinct, Member-without}
use odenctl.Prelude.Text.{Text, text_eq}
use odenctl.Runtime.CacheRetention.{
  Reason, age, precompiled, engine_variant, CacheFile, Sweep, FileSystem, Entry, path_of,
  remove_cache_file, list_cache_files, report_of,
}
use odenctl.Runtime.CacheRetention.Sweeps.{
  IsSweep, IsPending, remove_cache_file-IsSweep, remove_cache_file-IsPending, later, same_path,
}
use odenctl.Runtime.CacheRetention.Limits.{fewer_after, stays_out}
use odenctl.Runtime.CacheRetention.Variants.{
  is_stale, is_hex, is_stem, is_tail, variant_suffix, matches_from_end,
  precompiled_cache_name_matches_engine_variant, invalidate, invalidate_precompiled_cache_variants,
}

-- Of the files of a list, the stale ones are gone and no others.
pub record IsInvalidated (current : Option Text) (files fs : List CacheFile) (s t : Sweep)
    : Type 0 where
  pub sweep : IsSweep none 0 files t
  pub fewer : (f : CacheFile) → Member f t.remaining → Member f s.remaining
  pub fresh : (f : CacheFile) → Member f fs → Member f t.remaining → is_stale current f ≡ false
  pub stays :
      (f : CacheFile) → Member f s.remaining → is_stale current f ≡ false → Member f t.remaining

not_age : engine_variant ≡ age → ⊥
not_age e = cc

true≢false : true ≢ false
true≢false e = cc

-- Deleting one file keeps every file that differs from it.
remove-stays :
    (f g : CacheFile) (reason : Reason) (s : Sweep)
    → Distinct path_of s.remaining
    → Member f s.remaining
    → Member g s.remaining
    → g ≢ f
    → Member g (remove_cache_file f reason s).remaining
unfolding remove_cache_file
remove-stays f g reason s d m n ne = elim (Bool-cases (g.path == f.path)) [
  | inl here ↦ absurd (ne (same_path s f g d m n here))
  | inr other ↦ Member-without path_of f.path s.remaining g n other
]

module _ (current : Option Text) (files : List CacheFile) where
  invalidate-IsInvalidated :
      (fs : List CacheFile) (s : Sweep)
      → IsSweep none 0 files s
      → IsPending fs s
      → IsInvalidated current files fs s (invalidate current fs s)
  unfolding invalidate
  invalidate-IsInvalidated [] s h p = record {
    sweep = h;
    fewer = λ f m. m;
    fresh = λ f m n. absurd m;
    stays = λ f m e. m;
  }
  invalidate-IsInvalidated (f ∷ fs) s h p = elim (Bool-cases (is_stale current f)) [
    | inr fresh ↦
        let e = invalidate-IsInvalidated fs s h (later none 0 files f fs s p) in
        rw fresh (record {
          sweep = e.sweep;
          fewer = e.fewer;
          fresh = λ g m n. elim m [ inl here ↦ rw here fresh | inr there ↦ e.fresh g there n ];
          stays = e.stays;
        })
    | inl stale ↦
        let free : f.keep ≡ false = ground arith in
        let here = p.present f (inl refl) in
        let h' =
          remove_cache_file-IsSweep none 0 files f engine_variant s h here free
            (λ e. absurd (not_age e)) in
        let e =
          invalidate-IsInvalidated fs (remove_cache_file f engine_variant s) h'
            (remove_cache_file-IsPending none 0 files f fs engine_variant s p) in
        rw stale (record {
          sweep = e.sweep;
          fewer = λ g m. fewer_after f engine_variant s g (e.fewer g m);
          fresh = λ g m n. elim m [
            | inl same ↦ absurd (stays_out f g engine_variant s (e.fewer g n) same)
            | inr there ↦ e.fresh g there n
          ];
          stays = λ g m fresh.
              e.stays g
                (remove-stays f g engine_variant s h.distinct here m
                  (λ same. true≢false (sym stale ∙ ap (is_stale current) (sym same) ∙ fresh)))
                fresh;
        })
  ]

-- For a directory that exists and whose files have different paths, the report is that of a sweep
-- that leaves a listed file in place exactly when it is not stale: when it is at a path to keep, is
-- no .cwasm file, or is named for the current engine variant. Kept and removed bytes add up to the
-- bytes listed.
pub invalidate_precompiled_cache_variants-IsInvalidated :
    (system : FileSystem) (dir : String) (current : Option Text) (keep_paths : List String)
    (entries : List Entry)
    → system.entries dir ≡ some entries
    → Distinct path_of (list_cache_files system dir (map system.resolve keep_paths) entries)
    → (s : Sweep) × (invalidate_precompiled_cache_variants system dir current keep_paths
        ≡ report_of precompiled dir
            (list_cache_files system dir (map system.resolve keep_paths) entries)
            s)
      × IsInvalidated current
          (list_cache_files system dir (map system.resolve keep_paths) entries)
          (list_cache_files system dir (map system.resolve keep_paths) entries)
          (record {
            removed = [];
            remaining = list_cache_files system dir (map system.resolve keep_paths) entries;
          })
          s
unfolding invalidate_precompiled_cache_variants
invalidate_precompiled_cache_variants-IsInvalidated system dir current keep_paths entries here d =
    let files = list_cache_files system dir (map system.resolve keep_paths) entries in
    let start : Sweep = record { removed = []; remaining = files } in
    (
      invalidate current files start,
      rw (invalidate_precompiled_cache_variants, here) refl,
      invalidate-IsInvalidated current files files start
          (record {
            distinct = d;
            listed = λ f m. m;
            protected = λ f m kept. m;
            accounts = omega arith;
            justified = tt;
          })
          (record { distinct = d; present = λ f m. m }),
    )

is_tail-made :
    (digest suffix : Text)
    → length digest ≡ 64
    → every is_hex digest ≡ true
    → is_tail suffix (b'-' ∷ digest ++ suffix) ≡ true
is_tail-made digest suffix size hex =
    let first : take 64 (digest ++ suffix) ≡ digest = rw (← size) (take-append digest suffix) in
    let last : drop 64 (digest ++ suffix) ≡ suffix = rw (← size) (drop-append digest suffix) in
    let long : ltb 63 (length (digest ++ suffix)) ≡ true =
      lt→ltb _ _ (omega (arith, length-append digest suffix, size)) in
    rw (first, last, long, hex, beq_refl suffix) refl

matches_at :
    (suffix stem rest : Text)
    → length (stem ++ rest) ≡ length stem + (65 + length suffix)
    → is_stem stem ≡ true
    → is_tail suffix rest ≡ true
    → matches_from_end suffix (stem ++ rest) ≡ true
unfolding matches_from_end
matches_at suffix stem rest size good tail =
    let split : length (stem ++ rest) - (65 + length suffix) ≡ length stem = omega (arith, size) in
    rw (matches_from_end, split)
      (rw (take-append stem rest, drop-append stem rest, good, tail) refl)

-- A stem, a dash, 64 hexadecimal digits and the suffix of the variant pass the test of names.
pub precompiled_cache_name-matches :
    (stem digest : Text) (current : Option Text)
    → is_stem stem ≡ true
    → length digest ≡ 64
    → every is_hex digest ≡ true
    → precompiled_cache_name_matches_engine_variant
        (stem ++ (b'-' ∷ digest ++ variant_suffix current))
        current
      ≡ true
unfolding precompiled_cache_name_matches_engine_variant
precompiled_cache_name-matches stem digest current good size hex =
    let suffix = variant_suffix current in
    let rest = b'-' ∷ digest ++ suffix in
    matches_at suffix stem rest
      (omega (arith, length-append stem rest, length-append digest suffix, size)) good
      (is_tail-made digest suffix size hex)
