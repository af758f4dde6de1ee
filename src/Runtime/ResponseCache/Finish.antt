-- ===== src/Runtime/ResponseCache/Finish.antt =====
-- The second half of `execute` in runtime/response-cache.ts: what runs when the load of a leader or
-- the fill that a waiter stands behind settles.
use odenctl.Prelude.{
  ℕ, zero, suc, ◌+◌, ◌-◌, Bool, true, false, ◌&&◌, ◌||◌, Option, none, some, List, [], ◌∷◌, ◌++◌,
  length, filter, sum_by, ltb, leb, string_eq, nat_eq, ◌==◌, not, if◌then◌else◌,
}
use odenctl.Prelude.Text.{Text}
use odenctl.Runtime.ResponseCache.{
  ResponseCacheConfig, Prepared, Entry, Task, Cache, remove, count_expired, lookup, resolve,
  Outcome, bypass, hit, count_bypass,
}

-- `Buffer.byteLength`; header values are Latin-1, so that a code unit has one byte or two
abbrev pub byte_length : Text → ℕ
byte_length = sum_by (λ c. if ltb c 0x80 then 1 else if ltb c 0x800 then 2 else 3)

-- the hexadecimal digest that is the key
abbrev pub key_bytes : ℕ
key_bytes = 64

unfoldable pub entry_size : Prepared → ℕ
entry_size p =
    length p.body + key_bytes + sum_by (λ h. byte_length h.name + byte_length h.value + 4) p.headers

-- the sweep of expired entries before an insertion
unfoldable pub sweep : ℕ → List Entry → Cache → Cache
unfolding remove
sweep time [] c = c
sweep time (entry ∷ entries) c =
    sweep time entries
      (if leb entry.content.expires_at time then count_expired (remove entry.key c) else c)

abbrev pub too_full : ResponseCacheConfig → ℕ → Cache → Bool
too_full config size c =
    leb config.max_entries (length c.entries) || ltb config.max_bytes (c.bytes + size)

abbrev pub count_eviction : Cache → Cache
count_eviction c = record c {
  counters = record (c.counters) { evictions = c.counters.evictions + 1 };
}

-- the `while`: each round removes the first key of the map
unfoldable pub make_room : ResponseCacheConfig → ℕ → List Entry → Cache → Cache
unfolding remove
make_room config size [] c = c
make_room config size (first ∷ later) c =
    let rest = make_room config size later (count_eviction (remove first.key c)) in
    if too_full config size c then rest else c

unfoldable pub insert : Task → Prepared → ℕ → Cache → Cache
insert task prepared size c = record c {
  entries =
      c.entries
      ++ record {
        key = task.key;
        project_id = task.project_id;
        deployment_id = task.deployment_id;
        size = size;
        content = prepared;
      }
        ∷ [];
  bytes = c.bytes + size;
  counters = record (c.counters) { fills = c.counters.fills + 1 };
}

unfoldable pub make_room_for : ResponseCacheConfig → ℕ → ℕ → Task → Cache → Cache
unfolding sweep remove make_room
make_room_for config time size task c =
    let c' = remove task.key (sweep time c.entries c) in make_room config size c'.entries c'

-- the body of `if (prepared)`: the Boolean is `stored`
unfoldable pub store : ResponseCacheConfig → ℕ → Task → Prepared → Cache → Cache × Bool
unfolding make_room_for insert entry_size
store config time task prepared c =
    let size = entry_size prepared in
    if leb size config.max_entry_bytes && leb size config.max_bytes
    then (insert task prepared size (make_room_for config time size task c), true)
    else (c, false)

-- How a load ends: with an abort or a failure, or with a response and what of it may be stored.
pub data Loaded : Type 0 where
  failed : Loaded
  aborted : Loaded
  response : ℕ → Option Prepared → Loaded

unfoldable pub try_store : ResponseCacheConfig → ℕ → Task → Loaded → Cache → Cache × Bool
unfolding store
try_store config time task failed c = (c, false)
try_store config time task aborted c = (c, false)
try_store config time task (response body_bytes none) c = (c, false)
try_store config time task (response body_bytes (some prepared)) c =
    if (task.revision == c.generation && c.suspended == 0) && leb body_bytes config.max_entry_bytes
    then store config time task prepared c
    else (c, false)

abbrev pub task_at : ℕ → List Task → Option Task
task_at n [] = none
task_at zero (t ∷ ts) = some t
task_at (suc n) (t ∷ ts) = task_at n ts

abbrev pub remove_at : ℕ → List Task → List Task
remove_at n [] = []
remove_at zero (t ∷ ts) = ts
remove_at (suc n) (t ∷ ts) = t ∷ remove_at n ts

-- `pending--`: the task is over
abbrev pub leave : ℕ → Cache → Cache
leave n c = record c { pending = c.pending - 1; tasks = remove_at n c.tasks }

-- the `finally` of the leader: its fill leaves the map unless a purge has put it out
unfoldable pub settle : Task → Bool → Cache → Cache
unfolding resolve
settle task stored c = record c {
  fills = filter (λ f. not (f.key == task.key && f.fill == task.fill)) c.fills;
  settled = resolve task.fill stored c.settled;
}

unfoldable pub finish_leader : ResponseCacheConfig → ℕ → ℕ → Task → Loaded → Cache → Cache
unfolding try_store settle
finish_leader config time n task loaded c =
    let (c', stored) = try_store config time task loaded c in settle task stored (leave n c')

-- a waiter that its leader's result lets go on: a hit, or a load of its own outside the cache
unfoldable pub finish_waiter : ℕ → ℕ → Task → Bool → Cache → Cache × Outcome
unfolding lookup
finish_waiter time n task stored c =
    if stored && (task.revision == c.generation && c.suspended == 0)
    then (let (c', found) = lookup task.key task.is_head time c in
        elim found [
          | some served ↦ (leave n c', hit served)
          | none ↦ (count_bypass (leave n c'), bypass)
        ])
    else (count_bypass (leave n c), bypass)
