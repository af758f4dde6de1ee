-- ===== src/Runtime/ResponseCache/Fences.antt =====
-- The fence of a purge: a load that was under way when the cache was purged stores nothing.
use odenctl.Prelude.{
  ℕ, zero, suc, ◌+◌, ◌-◌, ◌≤◌, ◌≡◌, ◌≢◌, refl, ◌∙◌, inl, inr, String, Bool, some, List, [], ◌∷◌,
  arith, find, All, Bool-cases, Option-cases, string_eq, nat_eq, ◌==◌, ◌&&◌, ◌||◌, not, beq_of_ne,
}
use odenctl.Runtime.ResponseCache.{
  ResponseCacheConfig, Task, Role, leader, waiter, Cache, Scope, purge, everything, suspend, resume,
  Request, execute, join_or_lead, after_miss, lookup, other_revision, bypass,
}
use odenctl.Runtime.ResponseCache.Finish.{Loaded, task_at, finish_leader, finish_waiter, settle}
use odenctl.Runtime.ResponseCache.Stores.{lookup-Frame, try_store-Frame, try_store_fenced}
use odenctl.Runtime.ResponseCache.Purges.{purge-rest}
use odenctl.Runtime.ResponseCache.Sound.{IsSound}
use odenctl.Runtime.ResponseCache.Runs.{
  Event, call, load_ends, waiter_wakes, waiter_aborts, purges, suspends, resumes, end_load, wake,
  give_up, apply, run,
}

module _ (config : ResponseCacheConfig) where
  join-generation :
      (key : String) (request : Request) (c : Cache)
      → (join_or_lead key request c).generation ≡ c.generation
  unfolding join_or_lead
  join-generation key request c = ground arith

  after_miss-generation :
      (key : String) (request : Request) (c : Cache)
      → (after_miss config key request c).0.generation ≡ c.generation
  unfolding after_miss
  after_miss-generation key request c = ground arith

  execute-generation :
      (time : ℕ) (request : Request) (c : Cache)
      → (execute config time request c).0.generation ≡ c.generation
  unfolding execute
  execute-generation time request c =
      elim (Bool-cases (not (c.suspended == 0) || other_revision request.revision c.generation)) [
        | inl off ↦ rw off
        | inr on ↦ elim (Option-cases request.matched) [
          | inl unmatched ↦ rw (on, unmatched, execute)
          | inr (key, matched) ↦
              let found = lookup key request.is_head time c in
              let kept = (lookup-Frame config key request.is_head time c).generation in
              elim (Option-cases found.1) [
                | inl missed ↦
                    rw (on, matched, execute)
                      (rw (missed, execute) (after_miss-generation key request found.0 ∙ kept))
                | inr (served, hit_it) ↦ rw (on, matched, execute) (rw (hit_it, execute) kept)
              ]
        ]
      ]

  finish_leader-generation :
      (time n : ℕ) (task : Task) (loaded : Loaded) (c : Cache)
      → (finish_leader config time n task loaded c).generation ≡ c.generation
  unfolding finish_leader settle
  finish_leader-generation time n task loaded c =
      (try_store-Frame config time task loaded c).generation

  finish_waiter-generation :
      (time n : ℕ) (task : Task) (stored : Bool) (c : Cache)
      → (finish_waiter time n task stored c).0.generation ≡ c.generation
  unfolding finish_waiter
  finish_waiter-generation time n task stored c =
      elim (Bool-cases (stored && (task.revision == c.generation && c.suspended == 0))) [
        | inr off ↦ rw off
        | inl on ↦
            let found = lookup task.key task.is_head time c in
            let kept = (lookup-Frame config task.key task.is_head time c).generation in
            elim (Option-cases found.1) [
              | inl missed ↦ rw on (rw (missed, finish_waiter) kept)
              | inr (served, hit_it) ↦ rw on (rw (hit_it, finish_waiter) kept)
            ]
      ]

  end_load-generation :
      (time n : ℕ) (loaded : Loaded) (role : Role) (task : Task) (c : Cache)
      → (end_load config time n loaded role task c).generation ≡ c.generation
  unfolding end_load
  end_load-generation time n loaded leader task c = finish_leader-generation time n task loaded c
  end_load-generation time n loaded waiter task c = refl

  wake-generation :
      (time n : ℕ) (role : Role) (task : Task) (c : Cache)
      → (wake time n role task c).generation ≡ c.generation
  unfolding wake
  wake-generation time n leader task c = refl
  wake-generation time n waiter task c =
      elim (Option-cases (find (λ s. s.fill == task.fill) c.settled)) [
        | inl open_fill ↦ rw (open_fill, wake)
        | inr (s, done) ↦ rw (done, wake) (finish_waiter-generation time n task s.stored c)
      ]

  give_up-generation :
      (n : ℕ) (role : Role) (c : Cache) → (give_up n role c).generation ≡ c.generation
  unfolding give_up
  give_up-generation n leader c = refl
  give_up-generation n waiter c = refl

  generation-apply : (event : Event) (c : Cache) → c.generation ≤ (apply config c event).generation
  unfolding apply
  generation-apply (call time request) c = omega (arith, execute-generation time request c)
  generation-apply (load_ends n time loaded) c = elim (Option-cases (task_at n c.tasks)) [
    | inl missing ↦ rw (missing, apply) (omega arith)
    | inr (task, at) ↦
        rw (at, apply) (omega (arith, end_load-generation time n loaded task.role task c))
  ]
  generation-apply (waiter_wakes n time) c = elim (Option-cases (task_at n c.tasks)) [
    | inl missing ↦ rw (missing, apply) (omega arith)
    | inr (task, at) ↦ rw (at, apply) (omega (arith, wake-generation time n task.role task c))
  ]
  generation-apply (waiter_aborts n) c = elim (Option-cases (task_at n c.tasks)) [
    | inl missing ↦ rw (missing, apply) (omega arith)
    | inr (task, at) ↦ rw (at, apply) (omega (arith, give_up-generation n task.role c))
  ]
  generation-apply (purges scope) c = omega (arith, (purge-rest config scope c).0)
  generation-apply suspends c =
      unfold suspend in
      omega (arith, (purge-rest config everything (record c { suspended = c.suspended + 1 })).0)
  generation-apply resumes c = elim (Bool-cases (c.suspended == 0)) [
    | inl idle ↦ simp idle (omega arith)
    | inr busy ↦ simp busy (
        unfold resume in
        omega (arith, (purge-rest config everything (record c { suspended = c.suspended - 1 })).0))
  ]

  generation-run :
      (events : List Event) (c : Cache) → c.generation ≤ (run config c events).generation
  unfolding run
  generation-run [] c = omega arith
  generation-run (event ∷ events) c =
      omega (arith, generation-apply event c, generation-run events (apply config c event))

  revision_at :
      (n : ℕ) (m : ℕ) (ts : List Task) (task : Task)
      → task_at n ts ≡ some task
      → All (λ t. t.revision ≤ m) ts
      → task.revision ≤ m
  revision_at n m [] task h all = cc
  revision_at zero m (t ∷ ts) task h all = ground arith
  revision_at (suc n) m (t ∷ ts) task h all = revision_at n m ts task h all.1

  -- the revision of a call that was waiting at the purge is not that of the cache any more
  outdated :
      (c : Cache) (scope : Scope) (events : List Event) (n : ℕ) (task : Task)
      → IsSound config c
      → task_at n c.tasks ≡ some task
      → task.revision ≢ (run config (purge scope c) events).generation
  outdated c scope events n task h at e =
      let older : task.revision ≤ c.generation =
        revision_at n c.generation c.tasks task at h.current in
      omega (arith, generation-run events (purge scope c), (purge-rest config scope c).0)

  -- In a cache that satisfies IsSound, a call that was waiting when the cache was purged, whatever the scope of the purge and whatever
  -- happens after it, adds no entry to the cache when its load ends.
  pub purge_fences :
      (c : Cache) (scope : Scope) (events : List Event) (n time k : ℕ) (task : Task)
      (loaded : Loaded)
      → IsSound config c
      → task_at n c.tasks ≡ some task
      → (finish_leader config time k task loaded (run config (purge scope c) events)).entries
        ≡ (run config (purge scope c) events).entries
  unfolding finish_leader settle
  purge_fences c scope events n time k task loaded h at =
      let after = run config (purge scope c) events in
      rw
        (try_store_fenced config time task loaded after
          (rw (beq_of_ne _ _ (outdated c scope events n task h at))))
        refl

  -- In a cache that satisfies IsSound, a call that was waiting when the cache was purged is not served
  -- from the cache when it goes on as a waiter, whatever the scope of the purge, whatever happens after
  -- it, and whatever its leader stored.
  pub purge-bypass :
      (c : Cache) (scope : Scope) (events : List Event) (n time k : ℕ) (task : Task) (stored : Bool)
      → IsSound config c
      → task_at n c.tasks ≡ some task
      → (finish_waiter time k task stored (run config (purge scope c) events)).1 ≡ bypass
  unfolding finish_waiter
  purge-bypass c scope events n time k task stored h at =
      let after = run config (purge scope c) events in
      elim (Bool-cases stored) [
        | inl on ↦ rw (on, beq_of_ne _ _ (outdated c scope events n task h at)) refl
        | inr off ↦ rw off refl
      ]
