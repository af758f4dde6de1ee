-- ===== src/Runtime/ResponseCache/Purges.antt =====
-- What a purge drops and what it leaves.
use mathlib.Core.List.{append_assoc}
use odenctl.Prelude.{
  ℕ, ◌+◌, ◌≤◌, ◌≡◌, refl, sym, ap, ◌∙◌, inl, inr, true, false, List, [], ◌∷◌, ◌++◌, arith, length,
  filter, Bool-cases, string_eq, ◌==◌, not, beq_refl,
}
use odenctl.Prelude.Keyed.{has, without, Distinct, without_absent}
use odenctl.Runtime.ResponseCache.{
  ResponseCacheConfig, Entry, Cache, entry_key, remove, Scope, matches, remove_matching, purge,
  everything,
}
use odenctl.Runtime.ResponseCache.Reduces.{
  IsHeld, entries-remove, remove-Reduces, remove_matching-Reduces,
}

without-middle :
    (kept later : List Entry) (e : Entry)
    → Distinct entry_key (kept ++ e ∷ later)
    → without entry_key e.key (kept ++ e ∷ later) ≡ kept ++ later
without-middle [] later e d = rw (beq_refl e.key) (without_absent entry_key e.key later d.0)
without-middle (x ∷ kept) later e d =
    rw (other kept d.0) (ap (◌∷◌ x) (without-middle kept later e d.1))
  where
    other :
        (ys : List Entry) → has entry_key x.key (ys ++ e ∷ later) ≡ false → (x.key == e.key) ≡ false
    other [] h = ground (arith, string_eq.beq_iff x.key e.key, string_eq.beq_iff e.key x.key)
    other (y ∷ ys) h = other ys (ground arith)

module _ (config : ResponseCacheConfig) (scope : Scope) where
  entries-remove_matching :
      (kept entries : List Entry) (c : Cache)
      → c.entries ≡ kept ++ entries
      → IsHeld config c
      → (remove_matching scope entries c).entries
        ≡ kept ++ filter (λ e. not (matches e scope)) entries
  unfolding remove_matching
  entries-remove_matching kept [] c same h = same
  entries-remove_matching kept (e ∷ es) c same h = elim (Bool-cases (matches e scope)) [
    | inl out ↦
        rw (out, remove_matching)
          (entries-remove_matching kept es (remove e.key c)
            (entries-remove config e.key c
              ∙ (ap (without entry_key e.key) same
                  ∙ without-middle kept es e (rw same at h.distinct)))
            ((remove-Reduces config e.key c).held h))
    | inr stays ↦
        rw (stays, remove_matching)
          (entries-remove_matching (kept ++ e ∷ []) es c
              (same ∙ sym (append_assoc kept (e ∷ []) es)) h
            ∙ append_assoc kept (e ∷ []) (filter (λ x. not (matches x scope)) es))
  ]

  -- In a cache whose contents satisfy IsHeld, a purge drops the entries of its scope and leaves every
  -- other one, in order.
  pub entries-purge :
      (c : Cache)
      → IsHeld config c
      → (purge scope c).entries ≡ filter (λ e. not (matches e scope)) c.entries
  unfolding purge
  entries-purge c h = entries-remove_matching [] c.entries c refl h

  pub purge-IsHeld : (c : Cache) → IsHeld config c → IsHeld config (purge scope c)
  unfolding purge
  purge-IsHeld c h =
      let h' = (remove_matching-Reduces config scope c.entries c).held h in
      record {
        distinct = h'.distinct;
        accounted = h'.accounted;
        fits = h'.fits;
        few = h'.few;
        light = h'.light;
      }

  pub purge-rest :
      (c : Cache)
      → ((purge scope c).generation ≡ c.generation + 1)
        × ((purge scope c).suspended ≡ c.suspended)
        × ((purge scope c).pending ≡ c.pending)
        × ((purge scope c).tasks ≡ c.tasks)
        × (length (purge scope c).entries ≤ length c.entries)
  unfolding purge
  purge-rest c =
      let r = remove_matching-Reduces config scope c.entries c in
      (ap (λ (n : ℕ). n + 1) r.generation, r.suspended, r.pending, r.tasks, r.fewer)

module _ (config : ResponseCacheConfig) where
  matches-everything : (e : Entry) → matches e everything ≡ true
  unfolding matches
  matches-everything e = refl

  filter-none : (xs : List Entry) → length (filter (λ e. not (matches e everything)) xs) ≡ 0
  filter-none [] = refl
  filter-none (x ∷ xs) = rw (matches-everything x) (filter-none xs)

  pub length-purge-everything :
      (c : Cache) → IsHeld config c → length (purge everything c).entries ≡ 0
  length-purge-everything c h = rw (entries-purge config everything c h) (filter-none c.entries)
