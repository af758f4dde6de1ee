-- ===== src/Runtime/CacheRetention/Sweeps.antt =====
-- What the pruning of a cache directory deletes and keeps.
use odenctl.Prelude.{
  ℕ, ◌+◌, ◌<◌, ◌≡◌, refl, sym, ap, ◌∙◌, inl, inr, String, true, false, Option, some, List, [], ◌∷◌,
  arith, nat_eq, string_eq, ◌==◌, All, Member, Member-filter, Bool-cases, eq_of_beq,
}
use odenctl.Prelude.Keyed.{
  has, get, Distinct, Distinct-filter, get-Member, Member-without, sum-without, sum_by-append,
  All-append,
}
use odenctl.Runtime.CacheRetention.{
  CacheFile, RuntimeCacheRemovedFile, Reason, age, Sweep, sum_bytes, sum_removed_bytes, path_of,
  removed_file, remove_cache_file,
}

-- A removed file was listed, need not be kept, and is older than the limit if its age is the reason.
pub record IsJustified (max_age : Option ℕ) (now : ℕ) (files : List CacheFile)
    (r : RuntimeCacheRemovedFile) : Type 0 where
  pub file : CacheFile
  pub listed : Member file files
  pub free : file.keep ≡ false
  pub same : r ≡ removed_file file r.reason
  pub aged : r.reason ≡ age → (limit : ℕ) × (max_age ≡ some limit) × (file.mtime_ms + limit < now)

-- a sweep over `files`, up to any of its steps
pub record IsSweep (max_age : Option ℕ) (now : ℕ) (files : List CacheFile) (s : Sweep)
    : Type 0 where
  pub distinct : Distinct path_of s.remaining
  pub listed : (f : CacheFile) → Member f s.remaining → Member f files
  pub protected : (f : CacheFile) → Member f files → f.keep ≡ true → Member f s.remaining
  pub accounts : sum_bytes s.remaining + sum_removed_bytes s.removed ≡ sum_bytes files
  pub justified : All (IsJustified max_age now files) s.removed

-- the files that a loop has still to visit
pub record IsPending (fs : List CacheFile) (s : Sweep) : Type 0 where
  pub distinct : Distinct path_of fs
  pub present : (f : CacheFile) → Member f fs → Member f s.remaining

pub same_path :
    (s : Sweep) (f g : CacheFile)
    → Distinct path_of s.remaining
    → Member f s.remaining
    → Member g s.remaining
    → (g.path == f.path) ≡ true
    → g ≡ f
same_path s f g d mf mg h = some_injective (
    sym (get-Member path_of s.remaining g d mg)
    ∙ ap (λ (k : String). get path_of k s.remaining) (eq_of_beq g.path f.path h)
    ∙ get-Member path_of s.remaining f d mf)
  where
    some_injective : {A : Type 0} {a b : A} → some a ≡ some b → a ≡ b
    some_injective e = cc

module _ (max_age : Option ℕ) (now : ℕ) (files : List CacheFile) where
  pub remove_cache_file-IsSweep :
      (f : CacheFile) (reason : Reason) (s : Sweep)
      → IsSweep max_age now files s
      → Member f s.remaining
      → f.keep ≡ false
      → (reason ≡ age → (limit : ℕ) × (max_age ≡ some limit) × (f.mtime_ms + limit < now))
      → IsSweep max_age now files (remove_cache_file f reason s)
  unfolding remove_cache_file
  remove_cache_file-IsSweep f reason s h m free aged = record {
    distinct = Distinct-filter path_of _ s.remaining h.distinct;
    listed = λ g n. h.listed g (Member-filter _ s.remaining g n).0;
    protected = λ g n kept. elim (Bool-cases (g.path == f.path)) [
      | inl here ↦
          let e : g ≡ f = same_path s f g h.distinct m (h.protected g n kept) here in
          absurd (clash (sym kept ∙ ap (λ (x : CacheFile). x.keep) e ∙ free))
      | inr other ↦ Member-without path_of f.path s.remaining g (h.protected g n kept) other
    ];
    accounts = omega (
      arith,
      h.accounts,
      sum_by-append (λ (r : RuntimeCacheRemovedFile). r.size_bytes) s.removed
          (removed_file f reason),
      sum-without path_of (λ (x : CacheFile). x.size_bytes) f.path s.remaining f h.distinct
          (get-Member path_of s.remaining f h.distinct m),
    );
    justified =
        All-append (IsJustified max_age now files) s.removed (removed_file f reason) h.justified
          (record { file = f; listed = h.listed f m; free = free; same = refl; aged = aged });
  }
    where
      clash : true ≡ false → ⊥
      clash e = cc

  pub remove_cache_file-IsPending :
      (f : CacheFile) (fs : List CacheFile) (reason : Reason) (s : Sweep)
      → IsPending (f ∷ fs) s
      → IsPending fs (remove_cache_file f reason s)
  unfolding remove_cache_file
  remove_cache_file-IsPending f fs reason s p = record {
    distinct = p.distinct.1;
    present = λ g m.
        Member-without path_of f.path s.remaining g (p.present g (inr m))
          (apart g fs m p.distinct.0);
  }
    where
      apart :
          (g : CacheFile) (xs : List CacheFile)
          → Member g xs
          → has path_of f.path xs ≡ false
          → (g.path == f.path) ≡ false
      apart g [] m h = absurd m
      apart g (x ∷ xs) (inl e) h = rw e (ground arith)
      apart g (x ∷ xs) (inr m) h = apart g xs m (ground arith)

  pub later :
      (f : CacheFile) (fs : List CacheFile) (s : Sweep) → IsPending (f ∷ fs) s → IsPending fs s
  later f fs s p = record { distinct = p.distinct.1; present = λ g m. p.present g (inr m) }
