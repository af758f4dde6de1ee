-- ===== src/Runtime/ResponseCache.antt =====
-- The response cache of runtime/response-cache.ts (`createResponseCache`). `execute` is cut at its
-- awaits: `execute` runs up to the first of them, and `finish` is what runs when the awaited
-- promise settles. A task is an `execute` that waits, as the leader that loads the response or
-- behind one. `generation` is an object identity in the source and a counter here; a `Pending`
-- object is known by the number it is created under.
-- The key comes from `matchResponseCacheRequest`, and what may be stored from
-- `prepareResponseCacheEntry`: both are arguments here.
use odenctl.Prelude.{
  ℕ, zero, suc, ◌+◌, ◌-◌, ◌/◌, max, String, Bool, true, false, ◌&&◌, ◌||◌, Option, none, some, List,
  [], ◌∷◌, ◌++◌, length, filter, find, any, sum_by, ltb, leb, string_eq, nat_eq, ◌==◌, not,
  if◌then◌else◌, is_some,
}
use odenctl.Prelude.Text.{Text}
use odenctl.Prelude.Keyed.{has, get, without}
pub mod Finish
pub mod Reduces
pub mod Stores
pub mod Purges
pub mod Sound
pub mod Runs
pub mod Keeps
pub mod Serves
pub mod Fences

pub record ResponseCacheConfig : Type 0 where
  pub max_bytes : ℕ
  pub max_entries : ℕ
  pub max_entry_bytes : ℕ
  pub max_pending : ℕ

pub record Header : Type 0 where
  pub name : Text
  pub value : Text

-- what `prepareResponseCacheEntry` returns; the body is a list of bytes
pub record Prepared : Type 0 where
  pub status : ℕ
  pub headers : List Header
  pub body : List ℕ
  pub initial_age_ms : ℕ
  pub expires_at : ℕ
  pub stored_at : ℕ

pub record Entry : Type 0 where
  pub key : String
  pub project_id : Option String
  pub deployment_id : String
  pub size : ℕ
  pub content : Prepared

pub record Counters : Type 0 where
  pub hits : ℕ
  pub misses : ℕ
  pub bypasses : ℕ
  pub fills : ℕ
  pub coalesced : ℕ
  pub evictions : ℕ
  pub expired : ℕ
  pub purges : ℕ

pub data Role : Type 0 where
  leader waiter : Role

-- A pending `execute`, with what it holds in its variables.
pub record Task : Type 0 where
  pub role : Role
  pub key : String
  pub fill : ℕ
  pub revision : ℕ
  pub project_id : Option String
  pub deployment_id : String
  pub is_head : Bool

-- `fills` maps a key to its `Pending` object, and `settled` says which of these are resolved.
pub record Fill : Type 0 where
  pub key : String
  pub fill : ℕ

pub record Settled : Type 0 where
  pub fill : ℕ
  pub stored : Bool

pub record Cache : Type 0 where
  pub entries : List Entry
  pub fills : List Fill
  pub settled : List Settled
  pub counters : Counters
  pub generation : ℕ
  pub suspended : ℕ
  pub bytes : ℕ
  pub pending : ℕ
  pub tasks : List Task
  pub created : ℕ

abbrev pub entry_key : Entry → String
entry_key entry = entry.key

unfoldable pub remove : String → Cache → Cache
remove key c = elim (get entry_key key c.entries) [
  | none ↦ c
  | some entry ↦ record c {
    bytes = c.bytes - entry.size;
    entries = without entry_key key c.entries;
  }
]

-- What a hit serves: the stored status and headers, the age in seconds and, but for HEAD, the body.
pub record Served : Type 0 where
  pub status : ℕ
  pub headers : List Header
  pub age : ℕ
  pub body : List ℕ

abbrev pub count_expired : Cache → Cache
count_expired c = record c { counters = record (c.counters) { expired = c.counters.expired + 1 } }

abbrev pub serve : Entry → Bool → ℕ → Served
serve entry is_head time = record {
  status = entry.content.status;
  headers = entry.content.headers;
  age = (entry.content.initial_age_ms + (time - entry.content.stored_at)) / 1000;
  body = if is_head then [] else entry.content.body;
}

-- A hit moves the entry to the end of the map.
unfoldable pub lookup : String → Bool → ℕ → Cache → Cache × Option Served
unfolding remove
lookup key is_head time c = elim (get entry_key key c.entries) [
  | none ↦ (c, none)
  | some entry ↦
      if leb entry.content.expires_at time then (count_expired (remove key c), none) else (
        record c {
          entries = without entry_key key c.entries ++ entry ∷ [];
          counters = record (c.counters) { hits = c.counters.hits + 1 };
        },
        some (serve entry is_head time),
      )
]

pub record Scope : Type 0 where
  pub project_id : Option String
  pub deployment_id : Option String

abbrev pub same_project : Option String → Option String → Bool
same_project wanted none = false
same_project none (some id) = false
same_project (some wanted) (some id) = id == wanted

unfoldable pub matches : Entry → Scope → Bool
matches entry scope =
    (if is_some scope.project_id then same_project scope.project_id entry.project_id else true)
    && elim scope.deployment_id [ none ↦ true | some id ↦ entry.deployment_id == id ]

-- `fill.resolve(stored)`: only the first call settles
unfoldable pub resolve : ℕ → Bool → List Settled → List Settled
resolve fill stored settled =
    if any (λ s. s.fill == fill) settled
    then settled
    else record { fill = fill; stored = stored } ∷ settled

unfoldable pub resolve_all : List Fill → List Settled → List Settled
unfolding resolve
resolve_all [] settled = settled
resolve_all (f ∷ fills) settled = resolve_all fills (resolve f.fill false settled)

-- the loop of `purge` over the entries
unfoldable pub remove_matching : Scope → List Entry → Cache → Cache
unfolding remove matches
remove_matching scope [] c = c
remove_matching scope (entry ∷ entries) c =
    remove_matching scope entries (if matches entry scope then remove entry.key c else c)

unfoldable pub purge : Scope → Cache → Cache
unfolding remove_matching resolve_all
purge scope c =
    let c' = remove_matching scope c.entries c in
    record c' {
      generation = c'.generation + 1;
      settled = resolve_all c'.fills c'.settled;
      fills = [];
      counters = record (c'.counters) { purges = c'.counters.purges + 1 };
    }

abbrev pub everything : Scope
everything = record { project_id = none; deployment_id = none }

unfoldable pub suspend : Cache → Cache
unfolding purge
suspend c = purge everything (record c { suspended = c.suspended + 1 })

-- the function that `suspend` returns, at its first call; a second call does nothing
unfoldable pub resume : Cache → Cache
unfolding purge
resume c = purge everything (record c { suspended = c.suspended - 1 })

-- A call of `execute`: the key, if the request is one that the rules cache, and the revision that
-- the caller read with its route snapshot.
pub record Request : Type 0 where
  pub matched : Option String
  pub is_head : Bool
  pub project_id : Option String
  pub deployment_id : String
  pub revision : Option ℕ

pub data Outcome : Type 0 where
  bypass : Outcome
  hit : Served → Outcome
  waits : Outcome

abbrev pub count_bypass : Cache → Cache
count_bypass c = record c { counters = record (c.counters) { bypasses = c.counters.bypasses + 1 } }

abbrev pub count_miss : Cache → Cache
count_miss c = record c { counters = record (c.counters) { misses = c.counters.misses + 1 } }

abbrev pub other_revision : Option ℕ → ℕ → Bool
other_revision none generation = false
other_revision (some revision) generation = not (revision == generation)

abbrev pub task_of : Role → String → ℕ → Cache → Request → Task
task_of role key fill c request = record {
  role = role;
  key = key;
  fill = fill;
  revision = c.generation;
  project_id = request.project_id;
  deployment_id = request.deployment_id;
  is_head = request.is_head;
}

abbrev pub fill_key : Fill → String
fill_key f = f.key

-- a miss: behind the leader of the key, or as its leader
unfoldable pub join_or_lead : String → Request → Cache → Cache
join_or_lead key request c = elim (get fill_key key c.fills) [
  | some f ↦ record c {
    counters = record (c.counters) { coalesced = c.counters.coalesced + 1 };
    pending = c.pending + 1;
    tasks = task_of waiter key f.fill c request ∷ c.tasks;
  }
  | none ↦ record c {
    fills = c.fills ++ record { key = key; fill = c.created } ∷ [];
    created = c.created + 1;
    pending = c.pending + 1;
    tasks = task_of leader key c.created c request ∷ c.tasks;
  }
]

unfoldable pub after_miss : ResponseCacheConfig → String → Request → Cache → Cache × Outcome
unfolding join_or_lead
after_miss config key request c =
    if request.is_head
    then (count_bypass c, bypass)
    else if leb config.max_pending c.pending
    then (count_bypass (count_miss c), bypass)
    else (join_or_lead key request (count_miss c), waits)

unfoldable pub execute : ResponseCacheConfig → ℕ → Request → Cache → Cache × Outcome
unfolding lookup after_miss
execute config time request c =
    if not (c.suspended == 0) || other_revision request.revision c.generation
    then (count_bypass c, bypass)
    else elim request.matched [
      | none ↦ (count_bypass c, bypass)
      | some key ↦
          let (c', found) = lookup key request.is_head time c in
          elim found [ some served ↦ (c', hit served) | none ↦ after_miss config key request c' ]
    ]
