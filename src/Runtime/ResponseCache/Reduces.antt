-- ===== src/Runtime/ResponseCache/Reduces.antt =====
-- What the cache holds, and the operations that only take entries out of it.
use odenctl.Prelude.{
  ℕ, ◌≤◌, ◌<◌, ◌≡◌, refl, sym, ap, subst, ◌∙◌, inl, inr, String, false, List, [], ◌∷◌, arith,
  length, sum_by, All, Bool-cases, Option-cases, leb, string_eq, ◌==◌, not, length-filter-le,
  beq_refl,
}
use odenctl.Prelude.Keyed.{
  has, get, without, Distinct, has-filter, Distinct-filter, without_absent, get-none-has,
  sum-without, sum_by-filter-le, All-filter,
}
use odenctl.Runtime.ResponseCache.{
  ResponseCacheConfig, Entry, Cache, entry_key, remove, Scope, matches, remove_matching,
}
use odenctl.Runtime.ResponseCache.Finish.{sweep, too_full, make_room, count_eviction}

abbrev pub weight : List Entry → ℕ
weight = sum_by (λ e. e.size)

-- The contents: distinct keys, the byte count, and the limits of the configuration.
pub record IsHeld (config : ResponseCacheConfig) (c : Cache) : Type 0 where
  pub distinct : Distinct entry_key c.entries
  pub accounted : c.bytes ≡ weight c.entries
  pub fits : All (λ e. e.size ≤ config.max_entry_bytes) c.entries
  pub few : length c.entries ≤ config.max_entries
  pub light : c.bytes ≤ config.max_bytes

-- Entries go, and all that is not contents or counters stays.
pub record Reduces (config : ResponseCacheConfig) (c c' : Cache) : Type 0 where
  pub held : IsHeld config c → IsHeld config c'
  pub fewer : length c'.entries ≤ length c.entries
  pub absent : (k : String) → has entry_key k c.entries ≡ false → has entry_key k c'.entries ≡ false
  pub generation : c'.generation ≡ c.generation
  pub suspended : c'.suspended ≡ c.suspended
  pub pending : c'.pending ≡ c.pending
  pub tasks : c'.tasks ≡ c.tasks

module _ (config : ResponseCacheConfig) where
  pub Reduces-refl : (c : Cache) → Reduces config c c
  Reduces-refl c = record {
    held = λ h. h;
    fewer = omega arith;
    absent = λ k a. a;
    generation = refl;
    suspended = refl;
    pending = refl;
    tasks = refl;
  }

  pub Reduces-trans : {c d e : Cache} → Reduces config c d → Reduces config d e → Reduces config c e
  Reduces-trans p q = record {
    held = λ h. q.held (p.held h);
    fewer = omega (arith, p.fewer, q.fewer);
    absent = λ k a. q.absent k (p.absent k a);
    generation = q.generation ∙ p.generation;
    suspended = q.suspended ∙ p.suspended;
    pending = q.pending ∙ p.pending;
    tasks = q.tasks ∙ p.tasks;
  }

  pub entries-remove :
      (k : String) (c : Cache) → (remove k c).entries ≡ without entry_key k c.entries
  unfolding remove
  entries-remove k c = elim (Option-cases (get entry_key k c.entries)) [
    | inl missing ↦
        rw (missing, remove)
          (sym (without_absent entry_key k c.entries (get-none-has entry_key k c.entries missing)))
    | inr (e, found) ↦ rw (found, remove)
  ]

  bytes-remove :
      (k : String) (c : Cache)
      → IsHeld config c
      → (remove k c).bytes ≡ weight (without entry_key k c.entries)
  unfolding remove
  bytes-remove k c h = elim (Option-cases (get entry_key k c.entries)) [
    | inl missing ↦
        rw
          (
            missing,
            remove,
            without_absent entry_key k c.entries (get-none-has entry_key k c.entries missing),
          )
          h.accounted
    | inr (e, found) ↦
        rw (found, remove)
          (omega (
            arith,
            h.accounted,
            sum-without entry_key (λ x. x.size) k c.entries e h.distinct found,
          ))
  ]

  remove-IsHeld : (k : String) (c : Cache) → IsHeld config c → IsHeld config (remove k c)
  remove-IsHeld k c h = record {
    distinct = rw (entries-remove k c) (Distinct-filter entry_key _ c.entries h.distinct);
    accounted = rw (entries-remove k c) (bytes-remove k c h);
    fits = rw (entries-remove k c) (All-filter _ _ c.entries h.fits);
    few =
        rw (entries-remove k c)
          (omega (arith, h.few, length-filter-le (λ x. not (x.key == k)) c.entries));
    light = omega (
      arith,
      bytes-remove k c h,
      h.light,
      h.accounted,
      sum_by-filter-le (λ (e : Entry). e.size) (λ x. not (x.key == k)) c.entries,
    );
  }

  remove-rest :
      (k : String) (c : Cache)
      → ((remove k c).generation ≡ c.generation)
        × ((remove k c).suspended ≡ c.suspended)
        × ((remove k c).pending ≡ c.pending)
        × ((remove k c).tasks ≡ c.tasks)
  unfolding remove
  remove-rest k c = elim (Option-cases (get entry_key k c.entries)) [
    | inl missing ↦ rw (missing, remove) (refl, refl, refl, refl)
    | inr (e, found) ↦ rw (found, remove) (refl, refl, refl, refl)
  ]

  pub remove-Reduces : (k : String) (c : Cache) → Reduces config c (remove k c)
  remove-Reduces k c = record {
    held = remove-IsHeld k c;
    fewer = rw (entries-remove k c) (length-filter-le _ c.entries);
    absent = λ j a. rw (entries-remove k c) (has-filter entry_key _ j c.entries a);
    generation = (remove-rest k c).0;
    suspended = (remove-rest k c).1;
    pending = (remove-rest k c).2;
    tasks = (remove-rest k c).3;
  }

  pub remove_matching-Reduces :
      (scope : Scope) (entries : List Entry) (c : Cache)
      → Reduces config c (remove_matching scope entries c)
  unfolding remove_matching
  remove_matching-Reduces scope [] c = Reduces-refl c
  remove_matching-Reduces scope (e ∷ es) c = elim (Bool-cases (matches e scope)) [
    | inl out ↦
        rw out (
          Reduces-trans (remove-Reduces e.key c)
            (remove_matching-Reduces scope es (remove e.key c)))
    | inr stays ↦ rw stays (remove_matching-Reduces scope es c)
  ]

  counted :
      (c d : Cache)
      → Reduces config c d
      → (n : ℕ) (m : ℕ)
      → Reduces config c
          (record d { counters = record (d.counters) { expired = n; evictions = m } })
  counted c d p n m = record {
    held = λ h.
        let h' = p.held h in
        record {
          distinct = h'.distinct;
          accounted = h'.accounted;
          fits = h'.fits;
          few = h'.few;
          light = h'.light;
        };
    fewer = p.fewer;
    absent = p.absent;
    generation = p.generation;
    suspended = p.suspended;
    pending = p.pending;
    tasks = p.tasks;
  }

  pub sweep-Reduces :
      (time : ℕ) (entries : List Entry) (c : Cache) → Reduces config c (sweep time entries c)
  unfolding sweep
  sweep-Reduces time [] c = Reduces-refl c
  sweep-Reduces time (e ∷ es) c = elim (Bool-cases (leb e.content.expires_at time)) [
    | inl old ↦ rw old (
        Reduces-trans (counted c (remove e.key c) (remove-Reduces e.key c) _ _)
          (sweep-Reduces time es _))
    | inr fresh ↦ rw fresh (sweep-Reduces time es c)
  ]

  pub make_room-Reduces :
      (size : ℕ) (entries : List Entry) (c : Cache)
      → Reduces config c (make_room config size entries c)
  unfolding make_room
  make_room-Reduces size [] c = Reduces-refl c
  make_room-Reduces size (e ∷ es) c = elim (Bool-cases (too_full config size c)) [
    | inl full ↦ rw full (
        Reduces-trans (counted c (remove e.key c) (remove-Reduces e.key c) _ _)
          (make_room-Reduces size es _))
    | inr room ↦ rw room (Reduces-refl c)
  ]

  without-first :
      (e : Entry) (es xs : List Entry)
      → ◌≡◌ {A = List Entry} (e ∷ es) xs
      → Distinct entry_key xs
      → es ≡ without entry_key e.key xs
  without-first e es xs same d =
      let d' : Distinct entry_key (e ∷ es) = subst (Distinct entry_key) (sym same) d in
      rw (← same) (rw (beq_refl e.key) (sym (without_absent entry_key e.key es d'.0)))

  -- With a limit of at least one entry, a size within the limit of bytes and contents that satisfy
  -- IsHeld, the eviction loop over all entries ends by its own test.
  pub make_room-ends :
      (size : ℕ) (entries : List Entry) (c : Cache)
      → entries ≡ c.entries
      → IsHeld config c
      → 0 < config.max_entries
      → size ≤ config.max_bytes
      → too_full config size (make_room config size entries c) ≡ false
  unfolding make_room
  make_room-ends size [] c same h some_entries fits =
      let none_held : c.bytes ≡ 0 = h.accounted ∙ ap weight (sym same) in
      let empty : length c.entries ≡ 0 = ap length (sym same) in ground arith
  make_room-ends size (e ∷ es) c same h some_entries fits =
      elim (Bool-cases (too_full config size c)) [
        | inr room ↦ rw (room, room)
        | inl full ↦ rw full (
            make_room-ends size es (count_eviction (remove e.key c))
              (without-first e es c.entries same h.distinct ∙ sym (entries-remove e.key c))
              ((counted c (remove e.key c) (remove-Reduces e.key c) _ _).held h) some_entries fits)
      ]
