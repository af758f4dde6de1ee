-- ===== src/Runtime/ResponseCache/Sound.antt =====
-- The invariant of the cache between two steps, and that each step keeps it.
use odenctl.Prelude.{
  ℕ, zero, suc, ◌+◌, ◌≤◌, ◌<◌, ◌≡◌, refl, sym, ap, ◌∙◌, ◌⊎◌, inl, inr, String, Bool, some, List, [],
  ◌∷◌, arith, length, All, Bool-cases, Option-cases, leb, leb→gt, string_eq, nat_eq, ◌==◌, not,
  ◌&&◌, ◌||◌,
}
use odenctl.Prelude.Keyed.{get}
use odenctl.Runtime.ResponseCache.{
  ResponseCacheConfig, Task, Cache, Scope, purge, everything, suspend, resume, Request,
  other_revision, join_or_lead, after_miss, execute, lookup, fill_key, count_miss, Counters,
}
use odenctl.Runtime.ResponseCache.Finish.{
  Loaded, try_store, task_at, remove_at, leave, settle, finish_leader, finish_waiter,
}
use odenctl.Runtime.ResponseCache.Reduces.{IsHeld}
use odenctl.Runtime.ResponseCache.Stores.{
  Frame, try_store-IsHeld, try_store-Frame, try_store_fenced, lookup-IsHeld, lookup-Frame,
}
use odenctl.Runtime.ResponseCache.Purges.{purge-IsHeld, purge-rest, length-purge-everything}

-- The contents are within the limits, a suspended cache is empty, the pending count is that of the
-- waiting tasks and within its limit, and no task has a revision from the future.
pub record IsSound (config : ResponseCacheConfig) (c : Cache) : Type 0 where
  pub held : IsHeld config c
  pub quiet : (c.suspended ≡ 0) ⊎ (length c.entries ≡ 0)
  pub counted : c.pending ≡ length c.tasks
  pub limited : c.pending ≤ config.max_pending
  pub current : All (λ t. t.revision ≤ c.generation) c.tasks

length-remove_at :
    (n : ℕ) (ts : List Task) (t : Task)
    → task_at n ts ≡ some t
    → length (remove_at n ts) + 1 ≡ length ts
length-remove_at n [] t h = cc
length-remove_at zero (x ∷ ts) t h = omega arith
length-remove_at (suc n) (x ∷ ts) t h = omega (arith, length-remove_at n ts t h)

All-remove_at : (P : Task → Type 0) (n : ℕ) (ts : List Task) → All P ts → All P (remove_at n ts)
All-remove_at P n [] h = tt
All-remove_at P zero (x ∷ ts) h = h.1
All-remove_at P (suc n) (x ∷ ts) h = (h.0, All-remove_at P n ts h.1)

All-weaken :
    (m n : ℕ) (ts : List Task) → m ≤ n → All (λ t. t.revision ≤ m) ts → All (λ t. t.revision ≤ n) ts
All-weaken m n [] h all = tt
All-weaken m n (t ∷ ts) h all = (omega arith, All-weaken m n ts h all.1)

current_as :
    (m n : ℕ) (ts us : List Task)
    → us ≡ ts
    → m ≤ n
    → All (λ t. t.revision ≤ m) ts
    → All (λ t. t.revision ≤ n) us
current_as m n ts us same h all = rw same (All-weaken m n ts h all)

module _ (config : ResponseCacheConfig) where
  IsHeld-as :
      (c d : Cache) → d.entries ≡ c.entries → d.bytes ≡ c.bytes → IsHeld config c → IsHeld config d
  IsHeld-as c d e b h = record {
    distinct = rw e h.distinct;
    accounted = rw (e, b) h.accounted;
    fits = rw e h.fits;
    few = rw e h.few;
    light = rw b h.light;
  }

  -- a step that keeps all but the contents and the counters
  framed :
      (c d : Cache)
      → Frame c d
      → IsHeld config d
      → (d.suspended ≡ 0) ⊎ (length d.entries ≡ 0)
      → IsSound config c
      → IsSound config d
  framed c d f held quiet h = record {
    held = held;
    quiet = quiet;
    counted = f.pending ∙ (h.counted ∙ sym (ap length f.tasks));
    limited = rw f.pending h.limited;
    current =
        current_as c.generation d.generation c.tasks d.tasks f.tasks (omega (arith, f.generation))
          h.current;
  }

  pub purge-IsSound :
      (scope : Scope) (c : Cache) → IsSound config c → IsSound config (purge scope c)
  purge-IsSound scope c h =
      let (generation, suspended, pending, tasks, fewer) = purge-rest config scope c in
      record {
        held = purge-IsHeld config scope c h.held;
        quiet = elim h.quiet [ inl s ↦ inl (suspended ∙ s) | inr e ↦ inr (omega arith) ];
        counted = pending ∙ (h.counted ∙ sym (ap length tasks));
        limited = rw pending h.limited;
        current = current_as c.generation _ c.tasks _ tasks (omega (arith, generation)) h.current;
      }

  purged :
      (c d : Cache)
      → d.entries ≡ c.entries
      → d.bytes ≡ c.bytes
      → d.pending ≡ c.pending
      → d.tasks ≡ c.tasks
      → d.generation ≡ c.generation
      → IsSound config c
      → IsSound config (purge everything d)
  purged c d e b p t g h =
      let (generation, suspended, pending, tasks, fewer) = purge-rest config everything d in
      let held = IsHeld-as c d e b h.held in
      record {
        held = purge-IsHeld config everything d held;
        quiet = inr (length-purge-everything config d held);
        counted = pending ∙ (p ∙ (h.counted ∙ sym (ap length (tasks ∙ t))));
        limited = rw (pending, p) h.limited;
        current =
            current_as c.generation _ c.tasks _ (tasks ∙ t) (omega (arith, generation, g))
              h.current;
      }

  pub suspend-IsSound : (c : Cache) → IsSound config c → IsSound config (suspend c)
  unfolding suspend
  suspend-IsSound c h = purged c _ refl refl refl refl refl h

  pub resume-IsSound : (c : Cache) → IsSound config c → IsSound config (resume c)
  unfolding resume
  resume-IsSound c h = purged c _ refl refl refl refl refl h

  join-IsSound :
      (key : String) (request : Request) (c : Cache)
      → c.pending < config.max_pending
      → IsSound config c
      → IsSound config (join_or_lead key request c)
  unfolding join_or_lead
  join-IsSound key request c room h = elim (Option-cases (get fill_key key c.fills)) [
    | inl missing ↦
        rw (missing, join_or_lead)
          (record {
            held = IsHeld-as c _ refl refl h.held;
            quiet = h.quiet;
            counted = omega (arith, h.counted);
            limited = omega arith;
            current = (omega arith, h.current);
          })
    | inr (f, found) ↦
        rw (found, join_or_lead)
          (record {
            held = IsHeld-as c _ refl refl h.held;
            quiet = h.quiet;
            counted = omega (arith, h.counted);
            limited = omega arith;
            current = (omega arith, h.current);
          })
  ]

  recount :
      (c : Cache) (counters : Counters)
      → IsSound config c
      → IsSound config (record c { counters = counters })
  recount c counters h = record {
    held = IsHeld-as c _ refl refl h.held;
    quiet = h.quiet;
    counted = h.counted;
    limited = h.limited;
    current = h.current;
  }

  after_miss-IsSound :
      (key : String) (request : Request) (c : Cache)
      → IsSound config c
      → IsSound config (after_miss config key request c).0
  unfolding after_miss
  after_miss-IsSound key request c h = elim (Bool-cases request.is_head) [
    | inl head ↦ simp head (recount c _ h)
    | inr other ↦ elim (Bool-cases (leb config.max_pending c.pending)) [
      | inl full ↦ simp (other, full) (recount c _ h)
      | inr room ↦
          simp (other, room)
            (join-IsSound key request (count_miss c) (leb→gt _ _ room) (recount c _ h))
    ]
  ]

  found-IsSound :
      (key : String) (time : ℕ) (request : Request) (c : Cache)
      → IsSound config c
      → c.suspended ≡ 0
      → IsSound config (lookup key request.is_head time c).0
  found-IsSound key time request c h s =
      let f = lookup-Frame config key request.is_head time c in
      framed c (lookup key request.is_head time c).0 f
        (lookup-IsHeld config key request.is_head time c h.held) (inl (f.suspended ∙ s)) h

  pub execute-IsSound :
      (time : ℕ) (request : Request) (c : Cache)
      → IsSound config c
      → IsSound config (execute config time request c).0
  unfolding execute
  execute-IsSound time request c h =
      elim (Bool-cases (not (c.suspended == 0) || other_revision request.revision c.generation)) [
        | inl off ↦ rw off (recount c _ h)
        | inr on ↦ elim (Option-cases request.matched) [
          | inl unmatched ↦ rw (on, unmatched, execute) (recount c _ h)
          | inr (key, matched) ↦
              let h' = found-IsSound key time request c h (ground arith) in
              elim (Option-cases (lookup key request.is_head time c).1) [
                | inl missed ↦
                    rw (on, matched, execute)
                      (rw (missed, execute)
                        (after_miss-IsSound key request (lookup key request.is_head time c).0 h'))
                | inr (served, found) ↦ rw (on, matched, execute) (rw (found, execute) h')
              ]
        ]
      ]

  pub leave-IsSound :
      (n : ℕ) (task : Task) (c : Cache)
      → task_at n c.tasks ≡ some task
      → IsSound config c
      → IsSound config (leave n c)
  leave-IsSound n task c at h = record {
    held = IsHeld-as c _ refl refl h.held;
    quiet = h.quiet;
    counted = omega (arith, h.counted, length-remove_at n c.tasks task at);
    limited = omega (arith, h.limited);
    current = All-remove_at _ n c.tasks h.current;
  }

  try_store-IsSound :
      (time : ℕ) (task : Task) (loaded : Loaded) (c : Cache)
      → 0 < config.max_entries
      → IsSound config c
      → IsSound config (try_store config time task loaded c).0
  try_store-IsSound time task loaded c some_entries h =
      elim (Bool-cases (task.revision == c.generation && c.suspended == 0)) [
        | inr fenced ↦ rw (try_store_fenced config time task loaded c fenced) h
        | inl allowed ↦
            let f = try_store-Frame config time task loaded c in
            framed c (try_store config time task loaded c).0 f
              (try_store-IsHeld config time task loaded c some_entries h.held)
              (inl (f.suspended ∙ ground arith)) h
      ]

  pub finish_leader-IsSound :
      (time n : ℕ) (task : Task) (loaded : Loaded) (c : Cache)
      → 0 < config.max_entries
      → task_at n c.tasks ≡ some task
      → IsSound config c
      → IsSound config (finish_leader config time n task loaded c)
  unfolding finish_leader settle
  finish_leader-IsSound time n task loaded c some_entries at h =
      let stored = try_store config time task loaded c in
      let h' =
        leave-IsSound n task stored.0 (rw (try_store-Frame config time task loaded c).tasks at)
          (try_store-IsSound time task loaded c some_entries h) in
      record {
        held = IsHeld-as (leave n stored.0) _ refl refl h'.held;
        quiet = h'.quiet;
        counted = h'.counted;
        limited = h'.limited;
        current = h'.current;
      }

  pub finish_waiter-IsSound :
      (time n : ℕ) (task : Task) (stored : Bool) (c : Cache)
      → task_at n c.tasks ≡ some task
      → IsSound config c
      → IsSound config (finish_waiter time n task stored c).0
  unfolding finish_waiter
  finish_waiter-IsSound time n task stored c at h =
      elim (Bool-cases (stored && (task.revision == c.generation && c.suspended == 0))) [
        | inr off ↦ rw off (recount (leave n c) _ (leave-IsSound n task c at h))
        | inl on ↦
            let found = lookup task.key task.is_head time c in
            let f = lookup-Frame config task.key task.is_head time c in
            let h' = leave-IsSound n task found.0 (rw f.tasks at) (
              framed c found.0 f (lookup-IsHeld config task.key task.is_head time c h.held)
                (inl (f.suspended ∙ ground arith)) h) in
            elim (Option-cases found.1) [
              | inl missed ↦ rw on (rw (missed, finish_waiter) (recount (leave n found.0) _ h'))
              | inr (served, found_it) ↦ rw on (rw (found_it, finish_waiter) h')
            ]
      ]
