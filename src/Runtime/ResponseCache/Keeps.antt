-- ===== src/Runtime/ResponseCache/Keeps.antt =====
-- Which steps of the cache keep an entry in it.
use odenctl.Prelude.{
  ℕ, ◌<◌, ◌≡◌, refl, ◌∙◌, inl, inr, String, Bool, false, none, some, List, [], ◌∷◌, ◌++◌, arith,
  find, Bool-cases, Option-cases, leb, gt→leb, string_eq, nat_eq, ◌==◌, not, ◌||◌, ◌&&◌, eq_of_beq,
}
use odenctl.Prelude.Keyed.{get, without, get-append_absent, has-without_self}
use odenctl.Runtime.ResponseCache.{
  ResponseCacheConfig, Entry, Task, Role, leader, waiter, Cache, entry_key, lookup, serve, Request,
  hit, after_miss, join_or_lead, execute, other_revision,
}
use odenctl.Runtime.ResponseCache.Finish.{task_at, finish_waiter}
use odenctl.Runtime.ResponseCache.Reduces.{entries-remove}
use odenctl.Runtime.ResponseCache.Stores.{lookup-Frame}
use odenctl.Runtime.ResponseCache.Runs.{
  Event, call, load_ends, waiter_wakes, waiter_aborts, purges, suspends, resumes, wake, give_up,
  apply, run,
}

-- Requests and waiters that go on or give up, the clock being before a time.
abbrev pub IsRead : ℕ → Event → Type 0
IsRead end (call time request) = time < end
IsRead end (load_ends n time loaded) = ⊥
IsRead end (waiter_wakes n time) = time < end
IsRead end (waiter_aborts n) = Unit
IsRead end (purges scope) = ⊥
IsRead end suspends = ⊥
IsRead end resumes = ⊥

abbrev pub AllRead : ℕ → List Event → Type 0
AllRead end [] = Unit
AllRead end (event ∷ events) = IsRead end event × AllRead end events

get-without_other :
    (key k : String) (entries : List Entry)
    → (k == key) ≡ false
    → get entry_key key (without entry_key k entries) ≡ get entry_key key entries
get-without_other key k [] other = refl
get-without_other key k (e ∷ es) other = elim (Bool-cases (e.key == k)) [
  | inr kept ↦ rw kept (elim (Bool-cases (e.key == key)) [
    | inl here ↦ rw here refl
    | inr there ↦ rw there (get-without_other key k es other)
  ])
  | inl gone ↦
      let differs : (e.key == key) ≡ false = rw (eq_of_beq e.key k gone) other in
      rw (gone, differs) (get-without_other key k es other)
]

get-append :
    (key : String) (entries : List Entry) (e other : Entry)
    → get entry_key key entries ≡ some e
    → get entry_key key (entries ++ other ∷ []) ≡ some e
get-append key [] e other h = cc
get-append key (x ∷ xs) e other h = elim (Bool-cases (x.key == key)) [
  | inl here ↦ ground arith
  | inr there ↦ rw there (get-append key xs e other (ground arith))
]

-- the entry is there, and the cache is not suspended
pub record Holds (key : String) (e : Entry) (c : Cache) : Type 0 where
  pub there : get entry_key key c.entries ≡ some e
  pub awake : c.suspended ≡ 0

module _ (config : ResponseCacheConfig) (key : String) (e : Entry) (own : e.key ≡ key) where
  lookup_own-there :
      (is_head : Bool) (time : ℕ) (c : Cache)
      → time < e.content.expires_at
      → get entry_key key c.entries ≡ some e
      → get entry_key key (lookup key is_head time c).0.entries ≡ some e
  unfolding lookup
  lookup_own-there is_head time c fresh there =
      let again : get entry_key key (without entry_key key c.entries ++ e ∷ []) ≡ some e =
        rw (← own) (
          get-append_absent entry_key (without entry_key e.key c.entries) e
            (has-without_self entry_key e.key c.entries)) in
      rw (there, lookup) (rw (gt→leb e.content.expires_at time fresh, lookup) again)

  lookup-there :
      (k : String) (is_head : Bool) (time : ℕ) (c : Cache)
      → time < e.content.expires_at
      → get entry_key key c.entries ≡ some e
      → get entry_key key (lookup k is_head time c).0.entries ≡ some e
  unfolding lookup
  lookup-there k is_head time c fresh there = elim (Option-cases (get entry_key k c.entries)) [
    | inl missing ↦ rw (missing, lookup) there
    | inr (found, at) ↦ elim (Bool-cases (k == key)) [
      | inl same ↦ rw (eq_of_beq k key same) (lookup_own-there is_head time c fresh there)
      | inr other ↦
          let rest = get-without_other key k c.entries other ∙ there in
          elim (Bool-cases (leb found.content.expires_at time)) [
            | inl old ↦ rw (at, lookup) (rw old (rw (entries-remove config k c) rest))
            | inr young ↦
                rw (at, lookup)
                  (rw young (get-append key (without entry_key k c.entries) e found rest))
          ]
    ]
  ]

  lookup-Holds :
      (k : String) (is_head : Bool) (time : ℕ) (c : Cache)
      → time < e.content.expires_at
      → Holds key e c
      → Holds key e (lookup k is_head time c).0
  lookup-Holds k is_head time c fresh h = record {
    there = lookup-there k is_head time c fresh h.there;
    awake = (lookup-Frame config k is_head time c).suspended ∙ h.awake;
  }

  join_or_lead-Holds :
      (k : String) (request : Request) (c : Cache)
      → Holds key e c
      → Holds key e (join_or_lead k request c)
  unfolding join_or_lead
  join_or_lead-Holds k request c h = record {
    there = ground (arith, h.there);
    awake = ground (arith, h.awake);
  }

  after_miss-Holds :
      (k : String) (request : Request) (c : Cache)
      → Holds key e c
      → Holds key e (after_miss config k request c).0
  unfolding after_miss join_or_lead
  after_miss-Holds k request c h = record {
    there = ground (arith, h.there);
    awake = ground (arith, h.awake);
  }

  execute-Holds :
      (time : ℕ) (request : Request) (c : Cache)
      → time < e.content.expires_at
      → Holds key e c
      → Holds key e (execute config time request c).0
  unfolding execute
  execute-Holds time request c fresh h =
      elim (Bool-cases (not (c.suspended == 0) || other_revision request.revision c.generation)) [
        | inl off ↦ rw off (record { there = h.there; awake = h.awake })
        | inr on ↦ elim (Option-cases request.matched) [
          | inl unmatched ↦
              rw (on, unmatched, execute) (record { there = h.there; awake = h.awake })
          | inr (k, matched) ↦
              let found = lookup k request.is_head time c in
              let kept = lookup-Holds k request.is_head time c fresh h in
              elim (Option-cases found.1) [
                | inl missed ↦
                    rw (on, matched, execute)
                      (rw (missed, execute) (after_miss-Holds k request found.0 kept))
                | inr (served, hit_it) ↦ rw (on, matched, execute) (rw (hit_it, execute) kept)
              ]
        ]
      ]

  finish_waiter-Holds :
      (time n : ℕ) (task : Task) (stored : Bool) (c : Cache)
      → time < e.content.expires_at
      → Holds key e c
      → Holds key e (finish_waiter time n task stored c).0
  unfolding finish_waiter
  finish_waiter-Holds time n task stored c fresh h =
      elim (Bool-cases (stored && (task.revision == c.generation && c.suspended == 0))) [
        | inr off ↦ rw off (record { there = h.there; awake = h.awake })
        | inl on ↦
            let found = lookup task.key task.is_head time c in
            let kept = lookup-Holds task.key task.is_head time c fresh h in
            elim (Option-cases found.1) [
              | inl missed ↦
                  rw on
                    (rw (missed, finish_waiter) (record { there = kept.there; awake = kept.awake }))
              | inr (served, hit_it) ↦
                  rw on
                    (rw (hit_it, finish_waiter) (record { there = kept.there; awake = kept.awake }))
            ]
      ]

  wake-Holds :
      (time n : ℕ) (role : Role) (task : Task) (c : Cache)
      → time < e.content.expires_at
      → Holds key e c
      → Holds key e (wake time n role task c)
  unfolding wake
  wake-Holds time n leader task c fresh h = h
  wake-Holds time n waiter task c fresh h =
      elim (Option-cases (find (λ s. s.fill == task.fill) c.settled)) [
        | inl open_fill ↦ rw (open_fill, wake) h
        | inr (s, done) ↦ rw (done, wake) (finish_waiter-Holds time n task s.stored c fresh h)
      ]

  give_up-Holds : (n : ℕ) (role : Role) (c : Cache) → Holds key e c → Holds key e (give_up n role c)
  unfolding give_up
  give_up-Holds n leader c h = h
  give_up-Holds n waiter c h = record { there = h.there; awake = h.awake }

  apply-Holds :
      (event : Event) (c : Cache)
      → IsRead e.content.expires_at event
      → Holds key e c
      → Holds key e (apply config c event)
  unfolding apply
  apply-Holds (call time request) c reads h = execute-Holds time request c reads h
  apply-Holds (waiter_wakes n time) c reads h = elim (Option-cases (task_at n c.tasks)) [
    | inl missing ↦ rw (missing, apply) h
    | inr (task, at) ↦ rw (at, apply) (wake-Holds time n task.role task c reads h)
  ]
  apply-Holds (waiter_aborts n) c reads h = elim (Option-cases (task_at n c.tasks)) [
    | inl missing ↦ rw (missing, apply) h
    | inr (task, at) ↦ rw (at, apply) (give_up-Holds n task.role c h)
  ]
  apply-Holds (load_ends n time loaded) c reads h = absurd reads
  apply-Holds (purges scope) c reads h = absurd reads
  apply-Holds suspends c reads h = absurd reads
  apply-Holds resumes c reads h = absurd reads

  pub run-Holds :
      (events : List Event) (c : Cache)
      → AllRead e.content.expires_at events
      → Holds key e c
      → Holds key e (run config c events)
  unfolding run
  run-Holds [] c reads h = h
  run-Holds (event ∷ events) c reads h =
      run-Holds events (apply config c event) reads.1 (apply-Holds event c reads.0 h)

  pub execute-hit :
      (time : ℕ) (request : Request) (c : Cache)
      → time < e.content.expires_at
      → request.matched ≡ some key
      → request.revision ≡ none
      → Holds key e c
      → (execute config time request c).1 ≡ hit (serve e request.is_head time)
  unfolding execute lookup
  execute-hit time request c fresh matched free h =
      rw (h.awake, free, matched, execute)
        (rw (h.there, execute) (rw (gt→leb e.content.expires_at time fresh, execute) refl))
