-- ===== src/Tests/Warm.antt =====
-- Runs of the packing policy.
use odenctl.Prelude.{◌≡◌, refl, String, some, List, [], ◌∷◌, map, find, string_eq, ◌==◌}
use odenctl.Runtime.Targets.{CompilableRouteTarget}
use odenctl.Runtime.Packing.{
  Entry, RuntimePackingPolicy, finite, initial, prepare_deployment, compile_failed, load_snapshot,
}
use odenctl.Runtime.Packing.Invariant.{IsPacked}
use odenctl.Runtime.Packing.Runs.{
  Event, request, failure, run, run-IsPacked, prepare_deployment-warm,
}
use odenctl.Tests.Samples.{wasmtime, small, nothing, component}

abbrev target : String → String → CompilableRouteTarget
target id project = record {
  deployment_id = id;
  project_id = project;
  world = "worker";
  runtime = wasmtime;
  limits = small;
  capabilities = nothing;
  artifact = component id;
}

abbrev two_warm : RuntimePackingPolicy
two_warm = record {
  max_warm_deployments = some (finite 2);
  max_warm_deployments_per_project = some (finite 1);
  max_idle_deployment_age_ms = some 100;
}

abbrev events : List Event
events =
    request 1 1 (target "a" "p")
    ∷ request 2 2 (target "b" "q")
    ∷ request 3 3 (target "a" "p")
    ∷ request 4 4 (target "c" "r")
    ∷ failure "x"
    ∷ []

-- "b" is the least recently used
events-run : map (λ e. e.deployment_id) (run two_warm initial events).prepared ≡ "a" ∷ "c" ∷ []
unfolding run prepare_deployment compile_failed load_snapshot
events-run = refl

run-IsPacked_example : IsPacked two_warm (run two_warm initial events)
run-IsPacked_example = run-IsPacked two_warm events

prepare_deployment-warm_example :
    (e : Entry) × (find
        (λ x. x.deployment_id == "c")
        (prepare_deployment (some two_warm) 4 5 (target "c" "r") initial).0.prepared
      ≡ some e)
    × (e.last_used_ms ≡ 5)
prepare_deployment-warm_example =
    prepare_deployment-warm (some two_warm) 4 5 (target "c" "r") initial
