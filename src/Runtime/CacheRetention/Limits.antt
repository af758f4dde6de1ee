-- ===== src/Runtime/CacheRetention/Limits.antt =====
-- The limits on age and size hold after the pruning of a cache directory.
use odenctl.Prelude.{
  ℕ, ◌+◌, ◌-◌, ◌≤◌, ◌≡◌, ◌≢◌, ◌⊎◌, refl, ap, inl, inr, Bool, true, false, ◌&&◌, Option, some, List,
  [], ◌∷◌, arith, filter, leb, ltb→lt, ltb→ge, leb→le, not, nat_eq, string_eq, ◌==◌, All, Member,
  Member-filter, Member-filter_of, Bool-cases, beq_refl, All-of_Member,
}
use odenctl.Prelude.Keyed.{Distinct, Distinct-filter, Distinct-sort, get-Member, sum-without}
use odenctl.Prelude.Sort.{Member-sort, sort-Member}
use odenctl.Prelude.Text.{Text}
use odenctl.Runtime.CacheRetention.{
  CacheFile, Reason, age, size, Sweep, sum_bytes, path_of, remove_cache_file, is_expired, expire,
  shrink, older, candidates,
}
use odenctl.Runtime.CacheRetention.Sweeps.{
  IsSweep, IsPending, remove_cache_file-IsSweep, remove_cache_file-IsPending, later,
}

-- A file is protected or younger than the limit.
abbrev pub IsYoung : ℕ → ℕ → CacheFile → Type 0
IsYoung now limit f = (f.keep ≡ true) ⊎ (now ≤ f.mtime_ms + limit)

pub record IsExpired (max_age : Option ℕ) (now limit : ℕ) (files fs : List CacheFile) (s t : Sweep)
    : Type 0 where
  pub sweep : IsSweep max_age now files t
  pub fewer : (f : CacheFile) → Member f t.remaining → Member f s.remaining
  pub young : (f : CacheFile) → Member f fs → Member f t.remaining → IsYoung now limit f

pub stays_out :
    (f g : CacheFile) (reason : Reason) (s : Sweep)
    → Member g (remove_cache_file f reason s).remaining
    → g ≢ f
unfolding remove_cache_file
stays_out f g reason s m e =
    let (n, other) = Member-filter (λ (x : CacheFile). not (x.path == f.path)) s.remaining g m in
    clash (ground (arith, other, ap path_of e, beq_refl f.path))
  where
    clash : true ≡ false → ⊥
    clash e = cc

pub fewer_after :
    (f : CacheFile) (reason : Reason) (s : Sweep) (g : CacheFile)
    → Member g (remove_cache_file f reason s).remaining
    → Member g s.remaining
unfolding remove_cache_file
fewer_after f reason s g m =
    (Member-filter (λ (x : CacheFile). not (x.path == f.path)) s.remaining g m).0

module _ (max_age : Option ℕ) (now limit : ℕ) (aged : max_age ≡ some limit)
    (files : List CacheFile) where
  pub expire-IsExpired :
      (fs : List CacheFile) (s : Sweep)
      → IsSweep max_age now files s
      → IsPending fs s
      → IsExpired max_age now limit files fs s (expire now limit fs s)
  unfolding expire
  expire-IsExpired [] s h p = record { sweep = h; fewer = λ f m. m; young = λ f m n. absurd m }
  expire-IsExpired (f ∷ fs) s h p = elim (Bool-cases (not f.keep && is_expired now limit f)) [
    | inr stays ↦
        let e = expire-IsExpired fs s h (later max_age now files f fs s p) in
        rw stays (record {
          sweep = e.sweep;
          fewer = e.fewer;
          young = λ g m n. elim m [
            | inl here ↦ kept_young g (rw here stays)
            | inr there ↦ e.young g there n
          ];
        })
    | inl goes ↦
        let free : f.keep ≡ false = ground arith in
        let old : is_expired now limit f ≡ true = ground arith in
        let h' =
          remove_cache_file-IsSweep max_age now files f age s h (p.present f (inl refl)) free
            (λ same. (limit, aged, ltb→lt _ _ old)) in
        let e =
          expire-IsExpired fs (remove_cache_file f age s) h'
            (remove_cache_file-IsPending max_age now files f fs age s p) in
        rw goes (record {
          sweep = e.sweep;
          fewer = λ g m. fewer_after f age s g (e.fewer g m);
          young = λ g m n. elim m [
            | inl here ↦ absurd (stays_out f g age s (e.fewer g n) here)
            | inr there ↦ e.young g there n
          ];
        })
  ]
    where
      kept_young :
          (g : CacheFile) → (not g.keep && is_expired now limit g) ≡ false → IsYoung now limit g
      kept_young g e = elim (Bool-cases g.keep) [
        | inl kept ↦ inl kept
        | inr free ↦ inr (ltb→ge (g.mtime_ms + limit) now (rw free at e))
      ]

-- What is left fits, or nothing of it may be deleted.
abbrev pub IsSmall : ℕ → List CacheFile → Type 0
IsSmall max_bytes fs = (sum_bytes fs ≤ max_bytes) ⊎ All (λ f. f.keep ≡ true) fs

pub record IsShrunk (max_age : Option ℕ) (now max_bytes : ℕ) (files : List CacheFile) (s t : Sweep)
    : Type 0 where
  pub sweep : IsSweep max_age now files t
  pub fewer : (f : CacheFile) → Member f t.remaining → Member f s.remaining
  pub small : IsSmall max_bytes t.remaining

-- The loop has still to visit every file that may be deleted, and only such files.
pub record IsQueue (fs : List CacheFile) (kept_bytes : ℕ) (s : Sweep) : Type 0 where
  pending : IsPending fs s
  free : All (λ f. f.keep ≡ false) fs
  whole : (f : CacheFile) → Member f s.remaining → f.keep ≡ false → Member f fs
  counted : kept_bytes ≡ sum_bytes s.remaining

remove-counted :
    (f : CacheFile) (reason : Reason) (s : Sweep) (kept_bytes : ℕ)
    → Distinct path_of s.remaining
    → Member f s.remaining
    → kept_bytes ≡ sum_bytes s.remaining
    → kept_bytes - f.size_bytes ≡ sum_bytes (remove_cache_file f reason s).remaining
unfolding remove_cache_file
remove-counted f reason s kept_bytes d m e = omega (
  arith,
  e,
  sum-without path_of (λ (x : CacheFile). x.size_bytes) f.path s.remaining f d
      (get-Member path_of s.remaining f d m),
)

module _ (max_age : Option ℕ) (now max_bytes : ℕ) (files : List CacheFile) where
  next-IsQueue :
      (f : CacheFile) (fs : List CacheFile) (kept_bytes : ℕ) (s : Sweep)
      → IsSweep max_age now files s
      → IsQueue (f ∷ fs) kept_bytes s
      → IsQueue fs (kept_bytes - f.size_bytes) (remove_cache_file f size s)
  next-IsQueue f fs kept_bytes s h q = record {
    pending = remove_cache_file-IsPending max_age now files f fs size s q.pending;
    free = q.free.1;
    whole = λ g m free. elim (q.whole g (fewer_after f size s g m) free) [
      | inl here ↦ absurd (stays_out f g size s m here)
      | inr there ↦ there
    ];
    counted =
        remove-counted f size s kept_bytes h.distinct (q.pending.present f (inl refl)) q.counted;
  }

  pub shrink-IsShrunk :
      (fs : List CacheFile) (kept_bytes : ℕ) (s : Sweep)
      → IsSweep max_age now files s
      → IsQueue fs kept_bytes s
      → IsShrunk max_age now max_bytes files s (shrink max_bytes kept_bytes fs s)
  unfolding shrink
  shrink-IsShrunk [] kept_bytes s h q = record {
    sweep = h;
    fewer = λ f m. m;
    small = inr (All-of_Member (λ f. f.keep ≡ true) s.remaining (λ f m. kept f m));
  }
    where
      kept : (f : CacheFile) → Member f s.remaining → f.keep ≡ true
      kept f m = elim (Bool-cases f.keep) [
        | inl still ↦ still
        | inr free ↦ absurd (q.whole f m free)
      ]
  shrink-IsShrunk (f ∷ fs) kept_bytes s h q = elim (Bool-cases (leb kept_bytes max_bytes)) [
    | inl fits ↦ rw fits (record {
      sweep = h;
      fewer = λ g m. m;
      small = inl (omega (arith, q.counted, leb→le _ _ fits));
    })
    | inr full ↦
        let h' =
          remove_cache_file-IsSweep max_age now files f size s h (q.pending.present f (inl refl))
            q.free.0 (λ e. absurd (size_age e)) in
        let t =
          shrink-IsShrunk fs (kept_bytes - f.size_bytes) (remove_cache_file f size s) h'
            (next-IsQueue f fs kept_bytes s h q) in
        rw full (record {
          sweep = t.sweep;
          fewer = λ g m. fewer_after f size s g (t.fewer g m);
          small = t.small;
        })
  ]
    where
      size_age : size ≡ age → ⊥
      size_age e = cc

  pub candidates-IsQueue :
      (collates : Text → Text → Bool) (s : Sweep)
      → IsSweep max_age now files s
      → IsQueue (candidates collates s.remaining) (sum_bytes s.remaining) s
  unfolding candidates
  candidates-IsQueue collates s h = record {
    pending = record {
      distinct =
          Distinct-sort path_of (older collates) (filter (λ f. not f.keep) s.remaining)
            (Distinct-filter path_of (λ f. not f.keep) s.remaining h.distinct);
      present = λ f m.
          (Member-filter (λ f. not f.keep) s.remaining f (Member-sort (older collates) _ f m)).0;
    };
    free =
        All-of_Member (λ f. f.keep ≡ false) _
          (λ f m.
            not_kept f
              (Member-filter (λ f. not f.keep) s.remaining f
                (Member-sort (older collates) _ f m)).1);
    whole = λ f m free.
        sort-Member (older collates) _ f
          (Member-filter_of (λ f. not f.keep) s.remaining f m (rw free refl));
    counted = refl;
  }
    where
      not_kept : (f : CacheFile) → not f.keep ≡ true → f.keep ≡ false
      not_kept f e = ground arith
