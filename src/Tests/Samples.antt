-- ===== src/Tests/Samples.antt =====
-- Concrete routes, deployments and nodes that the tests share.
use odenctl.Prelude.{ℕ, Bool, false, String, none, some, List, [], ◌∷◌, leb, length, arith}
use odenctl.Prelude.Sort.{IsTotalPreorder}
use odenctl.Prelude.Text.{Text, codes}
use odenctl.Contracts.{
  RuntimeSpec, RuntimeLimits, CapabilityPolicy, SnapshotArtifact, RouteSnapshotTarget,
  RouteSnapshotEntry, RouteSnapshot,
}

abbrev pub wasmtime : RuntimeSpec
wasmtime = record { backend = "wasmtime"; version = "48"; wasi = "0.3" }

abbrev pub small : RuntimeLimits
small = record {
  cpu_ms = 50;
  memory_mb = 64;
  wall_ms = 1000;
  request_bytes = 1024;
  subrequests = 0;
  response_bytes = 1024;
}

abbrev pub nothing : CapabilityPolicy
nothing = record {
  outbound_http = record { enabled = false; allow = [] };
  kv = [];
  durable_objects = [];
  secrets = [];
  services = [];
}

abbrev pub component : String → SnapshotArtifact
component name = record {
  id = name;
  digest = name;
  location = name;
  signature = none;
  provenance = none;
}

abbrev pub weighted : String → ℕ → RouteSnapshotTarget
weighted id weight = record {
  deployment_id = id;
  weight = weight;
  world = "worker";
  world_version = "1";
  runtime = wasmtime;
  limits = small;
  capabilities = nothing;
  artifact = component id;
}

abbrev pub route_at : String → Text → Text → List RouteSnapshotTarget → RouteSnapshotEntry
route_at project host prefix targets = record {
  host = host;
  path_prefix = prefix;
  project_id = project;
  deployment_id = "stable";
  targets = targets;
  world = "worker";
  world_version = "1";
  runtime = wasmtime;
  limits = small;
  capabilities = nothing;
  artifact = component "stable";
}

abbrev pub canary_route : RouteSnapshotEntry
canary_route =
    route_at "p" (codes "a.test") (codes "/") (weighted "stable" 90 ∷ weighted "next" 10 ∷ [])

abbrev pub api_route : RouteSnapshotEntry
api_route = route_at "p" (codes "a.test") (codes "/api") (weighted "stable" 100 ∷ [])

abbrev pub sample_snapshot : RouteSnapshot
sample_snapshot = record {
  id = some "snap";
  generated_at = "2026";
  routes = canary_route ∷ api_route ∷ [];
}

-- a collation: shorter names first
abbrev pub by_length : Text → Text → Bool
by_length a b = leb (length a) (length b)

pub by_length-order : IsTotalPreorder by_length
by_length-order = record { total = λ a b h. ground arith; trans = λ a b c h k. ground arith }
