-- ===== src/ControlPlane/Nodes.antt =====
-- Runtime nodes: registerRuntimeNode, recordRuntimeNodeHeartbeat, updateRuntimeNodeStatus,
-- cleanupRuntimeNodes and listActiveRuntimeNodes of control-plane/service.ts over the table of
-- control-plane/repository.ts. A time is its number of milliseconds, of which the table holds the
-- ISO text. The clock, a new id and the normalized url, region and labels are arguments; identity
-- and host information are left out. An argument that is no number or no known status is `none`.
use odenctl.Prelude.{
  ℕ, ◌+◌, String, Bool, true, false, ◌&&◌, Option, none, some, List, [], ◌∷◌, ◌++◌, map, filter,
  find, any, ltb, leb, nat_eq, string_eq, ◌==◌, not, if◌then◌else◌, is_some, or_else,
}
use odenctl.Prelude.Keyed.{has, get, without}
use odenctl.Contracts.{
  RuntimeNodeStatus, active, draining, offline, RuntimeNodeCapacity, RuntimeNodeLoad,
}
use odenctl.ControlPlane.Errors.{
  validation, not_found, conflict, Result, ok, err, ◌>>=◌, ◌>>◌, guard, require,
}
use odenctl.ControlPlane.Routes.{positive_integer}
pub mod Keys
pub mod Cleanup
pub mod Activity

pub record NodeLabel : Type 0 where
  pub name : String
  pub value : String

-- what the input says of a node, normalized
pub record NodeDescription : Type 0 where
  pub url : String
  pub region : Option String
  pub labels : Option (List NodeLabel)

pub record RuntimeNode : Type 0 where
  pub id : String
  pub description : NodeDescription
  pub status : RuntimeNodeStatus
  pub registered_at : ℕ
  pub last_seen_at : Option ℕ
  pub version : Option String
  pub capacity : Option RuntimeNodeCapacity
  pub load : Option RuntimeNodeLoad

abbrev pub node_id : RuntimeNode → String
node_id node = node.id

abbrev pub is_status : RuntimeNodeStatus → RuntimeNodeStatus → Bool
is_status active active = true
is_status draining draining = true
is_status offline offline = true
is_status _ _ = false

-- `undefined` is `none`, a value that is no status is `some none`
abbrev pub StatusInput : Type 0
StatusInput = Option (Option RuntimeNodeStatus)

unfoldable pub normalize_runtime_node_status : StatusInput → Result RuntimeNodeStatus
normalize_runtime_node_status none = ok active
normalize_runtime_node_status (some none) = err validation
normalize_runtime_node_status (some (some status)) = ok status

pub record CapacityInput : Type 0 where
  pub concurrent_requests : Option ℕ
  pub memory_mb : Option ℕ

unfoldable pub normalize_runtime_node_capacity :
    Option CapacityInput → Result (Option RuntimeNodeCapacity)
unfolding positive_integer
normalize_runtime_node_capacity none = ok none
normalize_runtime_node_capacity (some input) = do
  concurrent_requests ← positive_integer input.concurrent_requests
  memory_mb ← positive_integer input.memory_mb
  ok (some (record { concurrent_requests = concurrent_requests; memory_mb = memory_mb }))

-- the number of active requests of the input
unfoldable pub normalize_runtime_node_load : Option (Option ℕ) → Result (Option RuntimeNodeLoad)
normalize_runtime_node_load none = ok none
normalize_runtime_node_load (some none) = err validation
normalize_runtime_node_load (some (some n)) = ok (some (record { active_requests = n }))

abbrev pub first_of {ℓ} : {A : Type ℓ} → Option A → Option A → Option A
first_of (some a) old = some a
first_of none old = old

unfoldable pub create_runtime_node : RuntimeNode → List RuntimeNode → Result (List RuntimeNode)
create_runtime_node node nodes = do
  guard (not (has node_id node.id nodes)) conflict
  ok (nodes ++ node ∷ [])

unfoldable pub get_runtime_node : String → List RuntimeNode → Option RuntimeNode
get_runtime_node id nodes = get node_id id nodes

-- the columns that an update sets, in the row of the id
abbrev pub replaced_in : String → (RuntimeNode → RuntimeNode) → RuntimeNode → RuntimeNode
replaced_in id change row = if row.id == id then change row else row

unfoldable pub update_rows :
    String → (RuntimeNode → RuntimeNode) → List RuntimeNode → Result (List RuntimeNode)
update_rows id change nodes = do
  guard (has node_id id nodes) not_found
  ok (map (replaced_in id change) nodes)

-- all columns but the id, the url and the time of the registration
abbrev pub heartbeat_row : RuntimeNode → RuntimeNode → RuntimeNode
heartbeat_row node row = record node {
  id = row.id;
  description = record node.description { url = row.description.url };
  registered_at = row.registered_at;
}

unfoldable pub delete_runtime_node : String → List RuntimeNode → List RuntimeNode
delete_runtime_node id nodes = without node_id id nodes

unfoldable pub register_runtime_node :
    ℕ → String → Result NodeDescription → StatusInput → List RuntimeNode → Result (List RuntimeNode)
unfolding normalize_runtime_node_status create_runtime_node
register_runtime_node now new_id described status nodes = do
  description ← described
  status' ← normalize_runtime_node_status status
  create_runtime_node
      (record {
        id = new_id;
        description = description;
        status = status';
        registered_at = now;
        last_seen_at = none;
        version = none;
        capacity = none;
        load = none;
      })
      nodes

-- the input of a heartbeat
pub record Heartbeat : Type 0 where
  pub id : String
  pub status : StatusInput
  pub version : Option String
  pub capacity : Option CapacityInput
  pub load : Option (Option ℕ)

unfoldable pub record_runtime_node_heartbeat :
    ℕ → Heartbeat → List RuntimeNode → Result (List RuntimeNode)
unfolding get_runtime_node normalize_runtime_node_status normalize_runtime_node_capacity
    normalize_runtime_node_load update_rows
record_runtime_node_heartbeat now beat nodes = do
  existing ← require (get_runtime_node beat.id nodes) not_found
  status ← normalize_runtime_node_status beat.status
  capacity ← normalize_runtime_node_capacity beat.capacity
  load ← normalize_runtime_node_load beat.load
  update_rows existing.id
      (heartbeat_row (record existing {
        status = status;
        last_seen_at = some now;
        version = first_of beat.version existing.version;
        capacity = first_of capacity existing.capacity;
        load = first_of load existing.load;
      }))
      nodes

unfoldable pub update_runtime_node_status :
    String → StatusInput → List RuntimeNode → Result (List RuntimeNode)
unfolding normalize_runtime_node_status update_rows
update_runtime_node_status id status nodes = do
  status' ← normalize_runtime_node_status status
  update_rows id (λ row. record row { status = status' }) nodes

-- the statuses of the input; `none` is `undefined`
unfoldable pub cleanup_statuses :
    Option (List (Option RuntimeNodeStatus)) → Result (List RuntimeNodeStatus)
cleanup_statuses none = ok (offline ∷ [])
cleanup_statuses (some []) = err validation
cleanup_statuses (some (none ∷ [])) = err validation
cleanup_statuses (some (some status ∷ [])) = ok (status ∷ [])
cleanup_statuses (some (none ∷ next ∷ rest)) = err validation
cleanup_statuses (some (some status ∷ next ∷ rest)) = do
  others ← cleanup_statuses (some (next ∷ rest))
  ok (status ∷ others)

abbrev pub observed_at_ms : RuntimeNode → ℕ
observed_at_ms node = or_else node.last_seen_at node.registered_at

-- `observed < now - olderThan`, written without a difference
abbrev pub is_removable : ℕ → ℕ → List RuntimeNodeStatus → RuntimeNode → Bool
is_removable now older_than_ms statuses node =
    any (is_status node.status) statuses && ltb (observed_at_ms node + older_than_ms) now

-- the loop over the nodes to remove
unfoldable pub delete_all : List RuntimeNode → List RuntimeNode → List RuntimeNode
unfolding delete_runtime_node
delete_all [] nodes = nodes
delete_all (node ∷ removed) nodes = delete_all removed (delete_runtime_node node.id nodes)

unfoldable pub cleanup_runtime_nodes :
    ℕ
    → Option ℕ
    → Option (List (Option RuntimeNodeStatus))
    → List RuntimeNode
    → Result (List RuntimeNode × List RuntimeNode)
unfolding positive_integer cleanup_statuses delete_all
cleanup_runtime_nodes now older_than statuses_input nodes = do
  older_than_ms ← positive_integer older_than
  statuses ← cleanup_statuses statuses_input
  let removed = filter (is_removable now older_than_ms statuses) nodes
  ok (delete_all removed nodes, removed)

unfoldable pub is_saturated : RuntimeNode → Bool
is_saturated node = elim node.capacity [
  | none ↦ false
  | some capacity ↦ elim node.load [
    | none ↦ false
    | some load ↦ leb capacity.concurrent_requests load.active_requests
  ]
]

-- `now - lastSeenAt <= ttl`, written without a difference
unfoldable pub is_active_runtime_node : ℕ → Option ℕ → RuntimeNode → Bool
unfolding is_saturated
is_active_runtime_node now none node = is_status node.status active && not (is_saturated node)
is_active_runtime_node now (some ttl) node =
    is_status node.status active && (elim node.last_seen_at [
      | none ↦ false
      | some seen ↦ leb now (seen + ttl) && not (is_saturated node)
    ])

unfoldable pub list_active_runtime_nodes : ℕ → Option ℕ → List RuntimeNode → List RuntimeNode
unfolding is_active_runtime_node
list_active_runtime_nodes now ttl nodes = filter (is_active_runtime_node now ttl) nodes
