-- ===== src/Lib.antt =====
-- Verification library of odenctl: the control plane and the runtime node of oden, a host for
-- WebAssembly components. Paths are relative to the root of the repository; the code is under
-- crates/odenctl/src.
--
-- The program. The control plane (control-plane/) keeps projects, deployments and routes in a
-- database and publishes route snapshots. A runtime node (runtime/) loads a snapshot, matches a
-- request to a route, chooses one of the weighted deployments of the route, compiles that
-- deployment or reuses a warm one, and serves cached responses.
--
-- The files.
--   Prelude            shared names, tests into Bool, lists, stable sort, keyed lists, text,
--                      and how many elements of a list have a property
--   Contracts          the data of control-plane/contracts.ts that the other files use
--   Runtime/RouteCache     createRouteCache of runtime/supervisor.ts
--   Runtime/Targets        selectRouteTarget, stableHash, snapshotCompilableTargets
--   Runtime/Packing        createRuntimeSupervisor: warm deployments and the packing policy
--   Runtime/ResponseCache  createResponseCache of runtime/response-cache.ts
--   Runtime/CachePolicy    runtime/response-cache-policy.ts: what may be cached, under which key
--   Runtime/CacheRetention runtime/cache-retention.ts: what is deleted of the caches on disk,
--                          and the names that wasip3-host.ts and wasmtime.ts give to the files
--   ControlPlane/Errors       control-plane/errors.ts, a call that may throw as a Result
--   ControlPlane/Memberships  project memberships of control-plane/service.ts and repository.ts
--   ControlPlane/Placement    control-plane/placement.ts: which node may serve which route
--   ControlPlane/Routes       pointRoute, startRouteCanary and rollbackRoute of service.ts
--   ControlPlane/Snapshots    createRouteSnapshot of service.ts, over Routes and Runtime/Targets
--   ControlPlane/Domains      custom domains of control-plane/service.ts and repository.ts
--   ControlPlane/Nodes        runtime nodes of control-plane/service.ts and repository.ts
--   ControlPlane/Publisher    control-plane/snapshot-publisher.ts: a snapshot to the nodes, with retries
--   ControlPlane/Replication  control-plane/snapshot-replication.ts: replicas of the snapshot
--   ControlPlane/Autoscaling  control-plane/autoscaling.ts, over Nodes and Publisher
--   ControlPlane/Admission    control-plane/admission.ts: which deployments the policy admits
--   ControlPlane/Alarms       durable-object-alarm-dispatcher.ts with the alarms of durable-object-storage.ts
--   ControlPlane/Quotas       control-plane/quotas.ts
--   ControlPlane/UsageQuotas  control-plane/usage-quota.ts: the test of a quantity and the report
--   ControlPlane/Canary       control-plane/canary-analysis.ts
--   ControlPlane/RouteCanary  analyzeRouteCanary of service.ts
--   Tests              sample data and runs at concrete inputs
--
-- How the code is read. A JavaScript object with state is a record that each operation takes and
-- returns. A `Map` is a list in insertion order. Code with an await is cut there: the part before
-- it and the part after it are two steps, and any sequence of steps is allowed. The activation of a
-- node and the clearing of an alarm take what other calls do between their steps as an argument. Numbers of the
-- source that are counts, sizes, weights and times in milliseconds are natural numbers; where the
-- source could go below zero the model says so. Texts that the program takes apart are lists of
-- code units; all other texts are strings. Object identities that are only compared (the
-- generation of the response cache) are counters.
--
-- Loops. Every loop is a structural recursion over the list that the loop consumes: the candidates
-- of an eviction, the entries of a map, the targets of a route, the files of a cache directory, the
-- alarms that are due. The loop over the attempts of a publication recurses on the rounds left, of
-- which there are as many as attempts are allowed. No other fuel is used.
--
-- Parameters. What a node answers over the network, `Date.parse` of a snapshot and the test of a URL
-- are parameters. `localeCompare` of host names and node ids is a parameter, of which at most a total
-- preorder is asked, and so is the digest that names a snapshot cut down for a node.
-- So are the digests that name a route snapshot and the database of a durable object, the handler of
-- an alarm, the order of texts in the database, and the entries of a cache directory with the functions on its paths.
-- The key of a cached request and what may be stored of a response come from
-- runtime/response-cache-policy.ts and are arguments.
--
-- Not modelled: the texts of errors and the metadata of audit events, failures of the database, HTTP
-- and JSON, compiled components, cryptography, billing, and the tools around the program.
pub mod Prelude
pub mod Contracts
pub mod Runtime
pub mod ControlPlane
pub mod Tests
