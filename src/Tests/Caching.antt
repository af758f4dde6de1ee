-- ===== src/Tests/Caching.antt =====
-- Runs of the response cache.
use odenctl.Prelude.{
  ℕ, ◌+◌, ◌≡◌, refl, inl, String, true, false, none, some, List, [], ◌∷◌, arith, map, string_eq,
}
use odenctl.Prelude.Text.{codes}
use odenctl.Runtime.ResponseCache.{
  ResponseCacheConfig, Prepared, Entry, Task, leader, waiter, Cache, Scope, purge, Request, bypass,
  hit, execute, Served,
}
use odenctl.Runtime.ResponseCache.Finish.{
  response, finish_leader, finish_waiter, entry_size, make_room, too_full,
}
use odenctl.Runtime.ResponseCache.Reduces.{IsHeld, make_room-ends}
use odenctl.Runtime.ResponseCache.Sound.{IsSound}
use odenctl.Runtime.ResponseCache.Runs.{
  Event, call, load_ends, waiter_aborts, run, empty, run-IsSound,
}
use odenctl.Runtime.ResponseCache.Serves.{finish_leader-serves}
use odenctl.Runtime.ResponseCache.Fences.{purge_fences, purge-bypass}

abbrev config : ResponseCacheConfig
config = record { max_bytes = 200; max_entries = 2; max_entry_bytes = 100; max_pending = 4 }

abbrev page : ℕ → Prepared
page stored_at = record {
  status = 200;
  headers = record { name = codes "etag"; value = codes "x" } ∷ [];
  body = 1 ∷ 2 ∷ 3 ∷ [];
  initial_age_ms = 0;
  expires_at = stored_at + 5000;
  stored_at = stored_at;
}

abbrev asks : String → Request
asks key = record {
  matched = some key;
  is_head = false;
  project_id = some "p";
  deployment_id = "d";
  revision = none;
}

-- two keys are filled, one of them for two calls
abbrev warm : List Event
warm =
    call 0 (asks "a")
    ∷ call 1 (asks "a")
    ∷ call 2 (asks "b")
    ∷ load_ends 0 3 (response 3 (some (page 3)))
    ∷ load_ends 1 4 (response 3 (some (page 4)))
    ∷ []

warm_keys : map (λ e. e.key) (run config empty warm).entries ≡ "b" ∷ "a" ∷ []
unfolding run execute finish_leader
warm_keys = refl

run-IsSound_example : IsSound config (run config empty warm)
run-IsSound_example = run-IsSound config (omega arith) warm

abbrev cached : Entry
cached = record {
  key = "a";
  project_id = some "p";
  deployment_id = "d";
  size = 76;
  content = page 4;
}

abbrev other : Entry
other = record {
  key = "b";
  project_id = some "q";
  deployment_id = "e";
  size = 76;
  content = page 3;
}

abbrev holding : Cache
holding = record empty { entries = other ∷ cached ∷ []; bytes = 152 }

holding-IsHeld : IsHeld config holding
holding-IsHeld = record {
  distinct = (refl, (refl, tt));
  accounted = refl;
  fits = (omega arith, (omega arith, tt));
  few = omega arith;
  light = omega arith;
}

abbrev served : Served
served = record {
  status = 200;
  headers = record { name = codes "etag"; value = codes "x" } ∷ [];
  age = 2;
  body = 1 ∷ 2 ∷ 3 ∷ [];
}

abbrev filler : Task
filler = record {
  role = leader;
  key = "a";
  fill = 0;
  revision = 0;
  project_id = some "p";
  deployment_id = "d";
  is_head = false;
}

sized : entry_size (page 4) ≡ 76
unfolding entry_size
sized = refl

-- the load of "a" ends at 10; then "b" and "a" are asked for, and "a" again before it expires
finish_leader-serves_example :
    (execute config 2004 (asks "a") (
      run config
        (finish_leader config 10 0 filler (response 3 (some (page 4))) holding)
        (call 20 (asks "b") ∷ call 30 (asks "a") ∷ waiter_aborts 0 ∷ []))).1
    ≡ hit served
finish_leader-serves_example =
    finish_leader-serves config 10 0 3 2004 filler (page 4) holding
      (call 20 (asks "b") ∷ call 30 (asks "a") ∷ waiter_aborts 0 ∷ []) (asks "a") refl refl
      (omega arith) (omega (arith, sized)) (omega (arith, sized))
      (omega arith, (omega arith, (tt, tt))) (omega arith) refl refl

abbrev project_q : Scope
project_q = record { project_id = some "q"; deployment_id = none }

make_room-ends_example : too_full config 100 (make_room config 100 holding.entries holding) ≡ false
make_room-ends_example =
    make_room-ends config 100 holding.entries holding refl holding-IsHeld (omega arith)
      (omega arith)

abbrev loading : Cache
loading = record empty { pending = 1; tasks = filler ∷ []; created = 1 }

loading-IsSound : IsSound config loading
loading-IsSound = record {
  held = record {
    distinct = tt;
    accounted = refl;
    fits = tt;
    few = omega arith;
    light = omega arith;
  };
  quiet = inl refl;
  counted = refl;
  limited = omega arith;
  current = (omega arith, tt);
}

purge_fences_example :
    (finish_leader config 9 0 filler
      (response 3 (some (page 9)))
      (run config (purge project_q loading) (call 8 (asks "a") ∷ []))).entries
    ≡ (run config (purge project_q loading) (call 8 (asks "a") ∷ [])).entries
purge_fences_example =
    purge_fences config loading project_q (call 8 (asks "a") ∷ []) 0 9 0 filler
      (response 3 (some (page 9))) loading-IsSound refl

-- the waiter of a fill that a purge of another project has put out
abbrev waiting : Cache
waiting = record loading { tasks = record filler { role = waiter } ∷ [] }

waiting-IsSound : IsSound config waiting
waiting-IsSound = record {
  held = record {
    distinct = tt;
    accounted = refl;
    fits = tt;
    few = omega arith;
    light = omega arith;
  };
  quiet = inl refl;
  counted = refl;
  limited = omega arith;
  current = (omega arith, tt);
}

purge-bypass_example :
    (finish_waiter 9 0
      (record filler { role = waiter })
      true
      (run config (purge project_q waiting) (call 8 (asks "a") ∷ []))).1
    ≡ bypass
purge-bypass_example =
    purge-bypass config waiting project_q (call 8 (asks "a") ∷ []) 0 9 0
      (record filler { role = waiter }) true waiting-IsSound refl
