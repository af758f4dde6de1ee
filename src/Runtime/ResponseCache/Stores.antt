-- ===== src/Runtime/ResponseCache/Stores.antt =====
-- Storing a response and looking one up, within the limits of the cache.
use odenctl.Prelude.{
  ℕ, ◌≤◌, ◌<◌, ◌≡◌, refl, inl, inr, String, Bool, false, none, some, [], ◌∷◌, ◌++◌, arith, length,
  Bool-cases, Option-cases, leb, leb→gt, string_eq, nat_eq, ◌==◌, length-append, ◌&&◌, find-some,
  All-member, eq_of_beq,
}
use odenctl.Prelude.Keyed.{
  has, get, without, has-without_self, Distinct-append, sum_by-append, All-append, All-filter,
  Distinct-filter, sum-without, length-without,
}
use odenctl.Runtime.ResponseCache.{
  ResponseCacheConfig, Prepared, Entry, Task, Cache, entry_key, remove, lookup, count_expired,
}
use odenctl.Runtime.ResponseCache.Finish.{
  entry_size, sweep, too_full, insert, make_room_for, store, Loaded, failed, aborted, response,
  try_store,
}
use odenctl.Runtime.ResponseCache.Reduces.{
  IsHeld, Reduces, Reduces-trans, entries-remove, remove-Reduces, sweep-Reduces, make_room-Reduces,
  make_room-ends,
}

-- What a step that may add an entry keeps.
pub record Frame (c c' : Cache) : Type 0 where
  pub generation : c'.generation ≡ c.generation
  pub suspended : c'.suspended ≡ c.suspended
  pub pending : c'.pending ≡ c.pending
  pub tasks : c'.tasks ≡ c.tasks

pub Frame-refl : (c : Cache) → Frame c c
Frame-refl c = record { generation = refl; suspended = refl; pending = refl; tasks = refl }

pub Frame-Reduces : (config : ResponseCacheConfig) {c c' : Cache} → Reduces config c c' → Frame c c'
Frame-Reduces config r = record {
  generation = r.generation;
  suspended = r.suspended;
  pending = r.pending;
  tasks = r.tasks;
}

module _ (config : ResponseCacheConfig) where
  insert-IsHeld :
      (task : Task) (prepared : Prepared) (size : ℕ) (c : Cache)
      → IsHeld config c
      → has entry_key task.key c.entries ≡ false
      → size ≤ config.max_entry_bytes
      → too_full config size c ≡ false
      → IsHeld config (insert task prepared size c)
  unfolding insert
  insert-IsHeld task prepared size c h new fits room = record {
    distinct = Distinct-append entry_key c.entries _ h.distinct new;
    accounted = omega (arith, h.accounted, sum_by-append (λ (e : Entry). e.size) c.entries added);
    fits = All-append _ c.entries added h.fits fits;
    few = omega (
      arith,
      length-append c.entries (added ∷ []),
      leb→gt config.max_entries (length c.entries) (ground arith),
    );
    light = ground arith;
  }
    where
      added : Entry
      added = record {
        key = task.key;
        project_id = task.project_id;
        deployment_id = task.deployment_id;
        size = size;
        content = prepared;
      }

  room-Reduces :
      (time size : ℕ) (task : Task) (c : Cache)
      → Reduces config c (make_room_for config time size task c)
  unfolding make_room_for
  room-Reduces time size task c = Reduces-trans config (sweep-Reduces config time c.entries c) (
      Reduces-trans config (remove-Reduces config task.key (sweep time c.entries c))
        (make_room-Reduces config size _ _))

  pub room-absent :
      (time size : ℕ) (task : Task) (c : Cache)
      → has entry_key task.key (make_room_for config time size task c).entries ≡ false
  unfolding make_room_for
  room-absent time size task c =
      let swept = sweep time c.entries c in
      (make_room-Reduces config size (remove task.key swept).entries (remove task.key swept)).absent
        task.key
        (rw (entries-remove config task.key swept)
          (has-without_self entry_key task.key swept.entries))

  room-fits :
      (time size : ℕ) (task : Task) (c : Cache)
      → IsHeld config c
      → 0 < config.max_entries
      → size ≤ config.max_bytes
      → too_full config size (make_room_for config time size task c) ≡ false
  unfolding make_room_for
  room-fits time size task c h some_entries fits =
      let swept = sweep time c.entries c in
      make_room-ends config size _ (remove task.key swept) refl
        ((remove-Reduces config task.key swept).held
          ((sweep-Reduces config time c.entries c).held h))
        some_entries fits

  pub store-IsHeld :
      (time : ℕ) (task : Task) (prepared : Prepared) (c : Cache)
      → 0 < config.max_entries
      → IsHeld config c
      → IsHeld config (store config time task prepared c).0
  unfolding store
  store-IsHeld time task prepared c some_entries h =
      let size = entry_size prepared in
      elim (Bool-cases (leb size config.max_entry_bytes && leb size config.max_bytes)) [
        | inr large ↦ rw large h
        | inl fits ↦ rw fits (
            insert-IsHeld task prepared size (make_room_for config time size task c)
              ((room-Reduces time size task c).held h) (room-absent time size task c) (ground arith)
              (room-fits time size task c h some_entries (ground arith)))
      ]

  pub store-Frame :
      (time : ℕ) (task : Task) (prepared : Prepared) (c : Cache)
      → Frame c (store config time task prepared c).0
  unfolding store insert
  store-Frame time task prepared c =
      let size = entry_size prepared in
      elim (Bool-cases (leb size config.max_entry_bytes && leb size config.max_bytes)) [
        | inr large ↦ rw large (Frame-refl c)
        | inl fits ↦
            let r = room-Reduces time size task c in
            rw fits (record {
              generation = r.generation;
              suspended = r.suspended;
              pending = r.pending;
              tasks = r.tasks;
            })
      ]

  pub try_store-IsHeld :
      (time : ℕ) (task : Task) (loaded : Loaded) (c : Cache)
      → 0 < config.max_entries
      → IsHeld config c
      → IsHeld config (try_store config time task loaded c).0
  unfolding try_store
  try_store-IsHeld time task failed c some_entries h = h
  try_store-IsHeld time task aborted c some_entries h = h
  try_store-IsHeld time task (response n none) c some_entries h = h
  try_store-IsHeld time task (response n (some prepared)) c some_entries h =
      elim (Bool-cases
        ((task.revision == c.generation && c.suspended == 0) && leb n config.max_entry_bytes)) [
          | inl allowed ↦ rw allowed (store-IsHeld time task prepared c some_entries h)
          | inr fenced ↦ rw fenced h
        ]

  pub try_store-Frame :
      (time : ℕ) (task : Task) (loaded : Loaded) (c : Cache)
      → Frame c (try_store config time task loaded c).0
  unfolding try_store
  try_store-Frame time task failed c = Frame-refl c
  try_store-Frame time task aborted c = Frame-refl c
  try_store-Frame time task (response n none) c = Frame-refl c
  try_store-Frame time task (response n (some prepared)) c =
      elim (Bool-cases
        ((task.revision == c.generation && c.suspended == 0) && leb n config.max_entry_bytes)) [
          | inl allowed ↦ rw allowed (store-Frame time task prepared c)
          | inr fenced ↦ rw fenced (Frame-refl c)
        ]

  -- A leader whose revision is not the current generation leaves the cache as it is; so does one
  -- that finishes while the cache is suspended.
  pub try_store_fenced :
      (time : ℕ) (task : Task) (loaded : Loaded) (c : Cache)
      → (task.revision == c.generation && c.suspended == 0) ≡ false
      → try_store config time task loaded c ≡ (c, false)
  unfolding try_store
  try_store_fenced time task failed c h = refl
  try_store_fenced time task aborted c h = refl
  try_store_fenced time task (response n none) c h = refl
  try_store_fenced time task (response n (some prepared)) c h = rw h

  touch-IsHeld :
      (k : String) (e : Entry) (c : Cache) (hits : ℕ)
      → get entry_key k c.entries ≡ some e
      → IsHeld config c
      → IsHeld config (record c {
        entries = without entry_key k c.entries ++ e ∷ [];
        counters = record (c.counters) { hits = hits };
      })
  touch-IsHeld k e c hits found h =
      let (inside, test) = find-some (λ x. x.key == k) c.entries e found in
      let same : e.key ≡ k = eq_of_beq e.key k test in
      record {
        distinct =
            Distinct-append entry_key (without entry_key k c.entries) e
              (Distinct-filter entry_key _ c.entries h.distinct)
              (rw same (has-without_self entry_key k c.entries));
        accounted = omega (
          arith,
          h.accounted,
          sum-without entry_key (λ x. x.size) k c.entries e h.distinct found,
          sum_by-append (λ (x : Entry). x.size) (without entry_key k c.entries) e,
        );
        fits =
            All-append _ (without entry_key k c.entries) e (All-filter _ _ c.entries h.fits)
              (All-member _ c.entries h.fits inside);
        few = omega (
          arith,
          h.few,
          length-append (without entry_key k c.entries) (e ∷ []),
          length-without entry_key k c.entries e h.distinct found,
        );
        light = h.light;
      }

  expired-IsHeld :
      (k : String) (c : Cache) → IsHeld config c → IsHeld config (count_expired (remove k c))
  expired-IsHeld k c h =
      let h' = (remove-Reduces config k c).held h in
      record {
        distinct = h'.distinct;
        accounted = h'.accounted;
        fits = h'.fits;
        few = h'.few;
        light = h'.light;
      }

  pub lookup-IsHeld :
      (k : String) (is_head : Bool) (time : ℕ) (c : Cache)
      → IsHeld config c
      → IsHeld config (lookup k is_head time c).0
  unfolding lookup
  lookup-IsHeld k is_head time c h = elim (Option-cases (get entry_key k c.entries)) [
    | inl missing ↦ rw (missing, lookup) h
    | inr (e, found) ↦ elim (Bool-cases (leb e.content.expires_at time)) [
      | inl old ↦ rw (found, lookup) (rw old (expired-IsHeld k c h))
      | inr fresh ↦ rw (found, lookup) (rw fresh (touch-IsHeld k e c _ found h))
    ]
  ]

  pub lookup-Frame :
      (k : String) (is_head : Bool) (time : ℕ) (c : Cache) → Frame c (lookup k is_head time c).0
  unfolding lookup
  lookup-Frame k is_head time c = elim (Option-cases (get entry_key k c.entries)) [
    | inl missing ↦ rw (missing, lookup) (Frame-refl c)
    | inr (e, found) ↦
        let r = remove-Reduces config k c in
        elim (Bool-cases (leb e.content.expires_at time)) [
          | inl old ↦
              rw (found, lookup)
                (rw old (record {
                  generation = r.generation;
                  suspended = r.suspended;
                  pending = r.pending;
                  tasks = r.tasks;
                }))
          | inr fresh ↦
              rw (found, lookup)
                (rw fresh
                  (record { generation = refl; suspended = refl; pending = refl; tasks = refl }))
        ]
  ]
