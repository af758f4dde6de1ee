-- ===== src/Runtime/CacheRetention/Names.antt =====
-- The names of precompiled files: `createWasip3HostBackend` in runtime/wasip3-host.ts and
-- `createWasmtimeBackend` in runtime/wasmtime.ts write them, and runtime/cache-retention.ts reads
-- them. runtime/main.ts gives the writer and the reader the same engine variant.
use odenctl.Prelude.{
  ◌≡◌, ◌≢◌, refl, ap, Bool, true, ◌&&◌, ◌||◌, Option, none, some, [], ◌∷◌, ◌++◌, arith, map, length,
  take, drop, every, leb, nat_eq, ◌==◌, not, if◌then◌else◌, ℕ,
}
use odenctl.Prelude.Text.{Text, codes, text_eq, starts_with}
use odenctl.Runtime.CacheRetention.Variants.{
  is_hex, is_stem, safe_cache_fragment, variant_suffix,
  precompiled_cache_name_matches_engine_variant,
}
use odenctl.Runtime.CacheRetention.Stale.{precompiled_cache_name-matches}

-- `[a-zA-Z0-9_.-]`
abbrev is_path_char : ℕ → Bool
is_path_char c =
    (leb b'a' c && leb c b'z')
    || (leb b'A' c && leb c b'Z')
    || (leb b'0' c && leb c b'9')
    || c == b'_'
    || c == b'.'
    || c == b'-'

abbrev path_char : ℕ → ℕ
path_char c = if is_path_char c then c else b'_'

unfoldable pub safe_path_fragment : Text → Text
safe_path_fragment = map path_char

unfoldable pub digest_fragment : Text → Text
unfolding safe_path_fragment starts_with
digest_fragment digest =
    let value = if starts_with digest (codes "sha256:") then drop 7 digest else digest in
    take 64 (safe_path_fragment value)

-- an empty variant is no variant
unfoldable pub cache_variant : Option Text → Text
unfolding safe_path_fragment
cache_variant none = []
cache_variant (some []) = []
cache_variant (some (c ∷ cs)) = b'-' ∷ safe_path_fragment (c ∷ cs)

-- the name that wasip3-host.ts writes
unfoldable pub wasip3_name : Option Text → Text → Text → Text
unfolding safe_path_fragment digest_fragment cache_variant
wasip3_name variant deployment_id digest =
    safe_path_fragment deployment_id
    ++ (b'-' ∷ digest_fragment digest ++ (cache_variant variant ++ codes ".cwasm"))

-- the name that wasmtime.ts writes
unfoldable pub wasmtime_name : Text → Text → Text
unfolding safe_path_fragment digest_fragment
wasmtime_name deployment_id digest =
    safe_path_fragment deployment_id ++ (b'-' ∷ digest_fragment digest ++ codes ".cwasm")

path-cache_fragment : (t : Text) → safe_path_fragment t ≡ safe_cache_fragment t
unfolding safe_path_fragment safe_cache_fragment
path-cache_fragment [] = refl
path-cache_fragment (c ∷ cs) = ground (arith, path-cache_fragment cs)

cache_variant-suffix : (v : Option Text) → cache_variant v ++ codes ".cwasm" ≡ variant_suffix v
unfolding cache_variant variant_suffix
cache_variant-suffix none = refl
cache_variant-suffix (some []) = refl
cache_variant-suffix (some (c ∷ cs)) =
    ap (λ t. b'-' ∷ t ++ codes ".cwasm") (path-cache_fragment (c ∷ cs))

no_line_end :
    (t : Text)
    → every (λ c. not (c == 10 || c == 13 || c == 0x2028 || c == 0x2029)) (safe_path_fragment t)
      ≡ true
unfolding safe_path_fragment
no_line_end [] = refl
no_line_end (c ∷ cs) = ground (arith, no_line_end cs)

fragment-is_stem : (t : Text) → t ≢ [] → is_stem (safe_path_fragment t) ≡ true
unfolding safe_path_fragment
fragment-is_stem [] some_text = absurd (some_text refl)
fragment-is_stem (c ∷ cs) some_text = ground (arith, no_line_end (c ∷ cs))

fragment-hex : (t : Text) → every is_hex t ≡ true → safe_path_fragment t ≡ t
unfolding safe_path_fragment
fragment-hex [] h = refl
fragment-hex (c ∷ cs) h = ground (arith, fragment-hex cs)

take-all : (t : Text) → take (length t) t ≡ t
take-all [] = refl
take-all (c ∷ cs) = ap (λ t. c ∷ t) (take-all cs)

digest_fragment-hex :
    (hex : Text)
    → length hex ≡ 64
    → every is_hex hex ≡ true
    → digest_fragment (codes "sha256:" ++ hex) ≡ hex
unfolding digest_fragment
digest_fragment-hex hex size good =
    rw (fragment-hex hex good, digest_fragment) (rw (← size) (take-all hex))

-- For a deployment with an id that is not empty, and an artifact whose digest is `sha256:` and 64
-- hexadecimal digits, the file that the host of WASI P3 writes is one that the test of names takes
-- for a file of the engine variant with which it was written, and the file that the other back end
-- writes is one it takes for a file without a variant.
pub names-match :
    (deployment_id hex : Text) (variant : Option Text)
    → deployment_id ≢ []
    → length hex ≡ 64
    → every is_hex hex ≡ true
    → (precompiled_cache_name_matches_engine_variant
          (wasip3_name variant deployment_id (codes "sha256:" ++ hex))
          variant
        ≡ true)
      × (precompiled_cache_name_matches_engine_variant
            (wasmtime_name deployment_id (codes "sha256:" ++ hex))
            none
          ≡ true)
unfolding wasip3_name wasmtime_name variant_suffix
names-match deployment_id hex variant named size good =
    let stem = safe_path_fragment deployment_id in
    let is_good = fragment-is_stem deployment_id named in
    let digest = digest_fragment-hex hex size good in
    (
      rw (digest, cache_variant-suffix variant)
          (precompiled_cache_name-matches stem hex variant is_good size good),
      rw digest (precompiled_cache_name-matches stem hex none is_good size good),
    )
