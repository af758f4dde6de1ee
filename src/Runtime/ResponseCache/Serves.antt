-- ===== src/Runtime/ResponseCache/Serves.antt =====
-- What a load has stored is served to later requests.
use odenctl.Prelude.{
  ℕ, ◌+◌, ◌≤◌, ◌<◌, ◌≡◌, refl, ◌∙◌, true, none, some, List, [], le→leb, ◌-◌, ◌/◌, string_eq, nat_eq,
  ◌==◌, beq_refl, if◌then◌else◌,
}
use odenctl.Prelude.Keyed.{get-append_absent}
use odenctl.Runtime.ResponseCache.{
  ResponseCacheConfig, Prepared, Entry, Task, Cache, entry_key, Request, hit, execute,
}
use odenctl.Runtime.ResponseCache.Finish.{
  entry_size, insert, make_room_for, store, response, try_store, finish_leader, settle,
}
use odenctl.Runtime.ResponseCache.Stores.{room-absent, try_store-Frame}
use odenctl.Runtime.ResponseCache.Runs.{Event, run}
use odenctl.Runtime.ResponseCache.Keeps.{AllRead, Holds, run-Holds, execute-hit}

abbrev pub entry_of : Task → Prepared → Entry
entry_of task prepared = record {
  key = task.key;
  project_id = task.project_id;
  deployment_id = task.deployment_id;
  size = entry_size prepared;
  content = prepared;
}

module _ (config : ResponseCacheConfig) where
  finish_leader-Holds :
      (time n bytes : ℕ) (task : Task) (prepared : Prepared) (c : Cache)
      → task.revision ≡ c.generation
      → c.suspended ≡ 0
      → bytes ≤ config.max_entry_bytes
      → entry_size prepared ≤ config.max_entry_bytes
      → entry_size prepared ≤ config.max_bytes
      → Holds task.key
          (entry_of task prepared)
          (finish_leader config time n task (response bytes (some prepared)) c)
  unfolding finish_leader settle try_store store insert
  finish_leader-Holds time n bytes task prepared c current awake read small fits =
      let room = make_room_for config time (entry_size prepared) task c in
      let kept = try_store-Frame config time task (response bytes (some prepared)) c in
      let same_generation : (task.revision == c.generation) ≡ true =
        rw current (beq_refl c.generation) in
      let not_suspended : (c.suspended == 0) ≡ true = rw awake refl in
      record {
        there =
            rw (same_generation, not_suspended, le→leb _ _ read, le→leb _ _ small, le→leb _ _ fits)
              (get-append_absent entry_key room.entries (entry_of task prepared)
                (room-absent config time (entry_size prepared) task c));
        awake = kept.suspended ∙ awake;
      }

  -- A leader whose load ends in the generation in which it began, while the cache is not suspended,
  -- and with a response and an entry within the limits, stores an entry that is served to every later
  -- GET or HEAD of its key before it expires, when between them there were any requests of any keys,
  -- waiters that went on and waiters that gave up, all before the expiry, and the request does not name a revision.
  pub finish_leader-serves :
      (time n bytes later : ℕ) (task : Task) (prepared : Prepared) (c : Cache) (events : List Event)
      (request : Request)
      → task.revision ≡ c.generation
      → c.suspended ≡ 0
      → bytes ≤ config.max_entry_bytes
      → entry_size prepared ≤ config.max_entry_bytes
      → entry_size prepared ≤ config.max_bytes
      → AllRead prepared.expires_at events
      → later < prepared.expires_at
      → request.matched ≡ some task.key
      → request.revision ≡ none
      → (execute config later request (
          run config
            (finish_leader config time n task (response bytes (some prepared)) c)
            events)).1
        ≡ hit (record {
          status = prepared.status;
          headers = prepared.headers;
          age = (prepared.initial_age_ms + (later - prepared.stored_at)) / 1000;
          body = if request.is_head then [] else prepared.body;
        })
  finish_leader-serves time n bytes later task prepared c events request current awake read small
        fits reads fresh matched free =
      let after = finish_leader config time n task (response bytes (some prepared)) c in
      execute-hit config task.key (entry_of task prepared) refl later request
        (run config after events) fresh matched free
        (run-Holds config task.key (entry_of task prepared) refl events after reads
          (finish_leader-Holds time n bytes task prepared c current awake read small fits))
