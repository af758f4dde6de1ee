-- ===== src/Runtime/ResponseCache/Runs.antt =====
-- Runs of the cache: any interleaving of requests, loads that end, waiters that go on or give up,
-- purges and suspensions.
use odenctl.Prelude.{
  ℕ, ◌<◌, ◌≡◌, refl, inl, inr, none, some, List, [], ◌∷◌, arith, find, Bool-cases, Option-cases,
  string_eq, nat_eq, ◌==◌, if◌then◌else◌,
}
use odenctl.Runtime.ResponseCache.{
  ResponseCacheConfig, Task, Role, leader, waiter, Cache, Scope, purge, suspend, resume, Request,
  execute,
}
use odenctl.Runtime.ResponseCache.Finish.{Loaded, task_at, leave, finish_leader, finish_waiter}
use odenctl.Runtime.ResponseCache.Sound.{
  IsSound, purge-IsSound, suspend-IsSound, resume-IsSound, execute-IsSound, leave-IsSound,
  finish_leader-IsSound, finish_waiter-IsSound,
}

pub data Event : Type 0 where
  call : ℕ → Request → Event
  load_ends : ℕ → ℕ → Loaded → Event
  waiter_wakes : ℕ → ℕ → Event
  waiter_aborts : ℕ → Event
  purges : Scope → Event
  suspends : Event
  resumes : Event

unfoldable pub end_load : ResponseCacheConfig → ℕ → ℕ → Loaded → Role → Task → Cache → Cache
end_load config time n loaded leader task c = finish_leader config time n task loaded c
end_load config time n loaded waiter task c = c

-- a waiter goes on once the fill that it stands behind is settled
unfoldable pub wake : ℕ → ℕ → Role → Task → Cache → Cache
wake time n leader task c = c
wake time n waiter task c = elim (find (λ s. s.fill == task.fill) c.settled) [
  | none ↦ c
  | some s ↦ (finish_waiter time n task s.stored c).0
]

unfoldable pub give_up : ℕ → Role → Cache → Cache
give_up n leader c = c
give_up n waiter c = leave n c

-- One step; an event that is not possible in the state changes nothing. `resumes` is the first call
-- of a function that `suspend` returned, so there is a suspension that it ends.
unfoldable pub apply : ResponseCacheConfig → Cache → Event → Cache
unfolding end_load wake give_up
apply config c (call time request) = (execute config time request c).0
apply config c (load_ends n time loaded) = elim (task_at n c.tasks) [
  | none ↦ c
  | some task ↦ end_load config time n loaded task.role task c
]
apply config c (waiter_wakes n time) = elim (task_at n c.tasks) [
  | none ↦ c
  | some task ↦ wake time n task.role task c
]
apply config c (waiter_aborts n) = elim (task_at n c.tasks) [
  | none ↦ c
  | some task ↦ give_up n task.role c
]
apply config c (purges scope) = purge scope c
apply config c suspends = suspend c
apply config c resumes = if c.suspended == 0 then c else resume c

unfoldable pub run : ResponseCacheConfig → Cache → List Event → Cache
unfolding apply
run config c [] = c
run config c (event ∷ events) = run config (apply config c event) events

abbrev pub empty : Cache
empty = record {
  entries = [];
  fills = [];
  settled = [];
  counters = record {
    hits = 0;
    misses = 0;
    bypasses = 0;
    fills = 0;
    coalesced = 0;
    evictions = 0;
    expired = 0;
    purges = 0;
  };
  generation = 0;
  suspended = 0;
  bytes = 0;
  pending = 0;
  tasks = [];
  created = 0;
}

module _ (config : ResponseCacheConfig) (some_entries : 0 < config.max_entries) where
  end_load-IsSound :
      (time n : ℕ) (loaded : Loaded) (role : Role) (task : Task) (c : Cache)
      → task_at n c.tasks ≡ some task
      → IsSound config c
      → IsSound config (end_load config time n loaded role task c)
  unfolding end_load
  end_load-IsSound time n loaded leader task c at h =
      finish_leader-IsSound config time n task loaded c some_entries at h
  end_load-IsSound time n loaded waiter task c at h = h

  wake-IsSound :
      (time n : ℕ) (role : Role) (task : Task) (c : Cache)
      → task_at n c.tasks ≡ some task
      → IsSound config c
      → IsSound config (wake time n role task c)
  unfolding wake
  wake-IsSound time n leader task c at h = h
  wake-IsSound time n waiter task c at h =
      elim (Option-cases (find (λ s. s.fill == task.fill) c.settled)) [
        | inl open_fill ↦ rw (open_fill, wake) h
        | inr (s, done) ↦ rw (done, wake) (finish_waiter-IsSound config time n task s.stored c at h)
      ]

  give_up-IsSound :
      (n : ℕ) (role : Role) (task : Task) (c : Cache)
      → task_at n c.tasks ≡ some task
      → IsSound config c
      → IsSound config (give_up n role c)
  unfolding give_up
  give_up-IsSound n leader task c at h = h
  give_up-IsSound n waiter task c at h = leave-IsSound config n task c at h

  pub apply-IsSound :
      (event : Event) (c : Cache) → IsSound config c → IsSound config (apply config c event)
  unfolding apply
  apply-IsSound (call time request) c h = execute-IsSound config time request c h
  apply-IsSound (load_ends n time loaded) c h = elim (Option-cases (task_at n c.tasks)) [
    | inl missing ↦ rw (missing, apply) h
    | inr (task, at) ↦ rw (at, apply) (end_load-IsSound time n loaded task.role task c at h)
  ]
  apply-IsSound (waiter_wakes n time) c h = elim (Option-cases (task_at n c.tasks)) [
    | inl missing ↦ rw (missing, apply) h
    | inr (task, at) ↦ rw (at, apply) (wake-IsSound time n task.role task c at h)
  ]
  apply-IsSound (waiter_aborts n) c h = elim (Option-cases (task_at n c.tasks)) [
    | inl missing ↦ rw (missing, apply) h
    | inr (task, at) ↦ rw (at, apply) (give_up-IsSound n task.role task c at h)
  ]
  apply-IsSound (purges scope) c h = purge-IsSound config scope c h
  apply-IsSound suspends c h = suspend-IsSound config c h
  apply-IsSound resumes c h = elim (Bool-cases (c.suspended == 0)) [
    | inl idle ↦ simp idle h
    | inr busy ↦ simp busy (resume-IsSound config c h)
  ]

  run-keeps :
      (events : List Event) (c : Cache) → IsSound config c → IsSound config (run config c events)
  unfolding run
  run-keeps [] c h = h
  run-keeps (event ∷ events) c h = run-keeps events (apply config c event) (apply-IsSound event c h)

  -- With a limit of at least one entry, after any interleaving of requests, loads, waiters, purges
  -- and suspensions from an empty cache: the keys are distinct, the byte count is the sum of the
  -- entry sizes, the entries, bytes and each entry are within the limits, a suspended cache is
  -- empty, and the pending count is that of the waiting calls and within its limit.
  pub run-IsSound : (events : List Event) → IsSound config (run config empty events)
  run-IsSound events = run-keeps events empty (record {
    held = record {
      distinct = tt;
      accounted = refl;
      fits = tt;
      few = omega arith;
      light = omega arith;
    };
    quiet = inl refl;
    counted = refl;
    limited = omega arith;
    current = tt;
  })
