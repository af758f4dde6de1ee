-- ===== src/ControlPlane/Autoscaling/Activation.antt =====
-- warmAndActivateRuntimeNode of control-plane/autoscaling.ts: a new node is registered as draining,
-- is sent the snapshot, and becomes active if it took it. The call is cut at its await of the
-- publication, during which other calls run.
use odenctl.Prelude.{
  ◌≡◌, refl, sym, subst, ◌∙◌, ◌↔◌, ◌⊎◌, inl, inr, ℕ, String, Bool, true, false, Option, none, some,
  List, [], ◌∷◌, if◌then◌else◌, or_else, Bool-cases, Option-cases, find-some, eq_of_beq, string_eq,
  ◌==◌,
}
use odenctl.Prelude.Text.{Text}
use odenctl.Prelude.Keyed.{has}
use odenctl.Contracts.{
  RouteSnapshot, RuntimeNodeStatus, active, draining, RuntimeNodeCapacity, RuntimeNodeLoad,
}
use odenctl.ControlPlane.Errors.{Result, ok, err, not_found, ◌>>=◌}
use odenctl.ControlPlane.Nodes.{
  RuntimeNode, NodeDescription, CapacityInput, Heartbeat, node_id, heartbeat_row, first_of,
  normalize_runtime_node_capacity, normalize_runtime_node_load, normalize_runtime_node_status,
  get_runtime_node, create_runtime_node, register_runtime_node, record_runtime_node_heartbeat,
}
use odenctl.ControlPlane.Nodes.Activity.{Call, run}
use odenctl.ControlPlane.Nodes.Keys.{update_rows-get, create_runtime_node-get}
use odenctl.ControlPlane.Publisher.{
  Network, RuntimeNodeTarget, RouteSnapshotPublishOptions, RouteSnapshotPublishReport,
  publish_route_snapshot, normalize_publish_options,
}
use odenctl.ControlPlane.Publisher.Reports.{IsDelivered, publish_route_snapshot-delivers}

-- `runtimeNode` of the input; `described` is what the registration makes of url, region and labels
pub record NewNode : Type 0 where
  pub id : String
  pub url : Text
  pub described : Result NodeDescription
  pub version : Option String
  pub capacity : Option CapacityInput
  pub load : Option (Option ℕ)

abbrev pub target_of : NewNode → RuntimeNodeTarget
target_of node = record { id = some node.id; url = node.url; snapshot = none }

abbrev pub default_options : RouteSnapshotPublishOptions
default_options = record { max_attempts = none; retry_on_statuses = none }

abbrev pub beat_of : RuntimeNodeStatus → NewNode → Heartbeat
beat_of status node = record {
  id = node.id;
  status = some (some status);
  version = node.version;
  capacity = node.capacity;
  load = some (or_else node.load (some 0));
}

-- the times of the registration and of the two heartbeats
pub record Times : Type 0 where
  pub registered : ℕ
  pub warmed : ℕ
  pub activated : ℕ

-- up to the await of the publication: a heartbeat follows the registration
unfoldable pub warm_up : Times → NewNode → List RuntimeNode → Result (List RuntimeNode)
unfolding register_runtime_node record_runtime_node_heartbeat
warm_up times node nodes = do
  registered ←
      register_runtime_node times.registered node.id node.described (some (some draining)) nodes
  record_runtime_node_heartbeat times.warmed (beat_of draining node) registered

-- after the await, over the table of that moment
unfoldable pub activate :
    Times → NewNode → RouteSnapshotPublishReport → List RuntimeNode → Result (List RuntimeNode)
unfolding record_runtime_node_heartbeat
activate times node report nodes =
    if report.is_ok
    then record_runtime_node_heartbeat times.activated (beat_of active node) nodes
    else ok nodes

module _ (network : Network) where
  abbrev pub report_on : NewNode → RouteSnapshot → RouteSnapshotPublishReport
  report_on node snapshot =
      publish_route_snapshot network snapshot (target_of node ∷ []) default_options

  -- `meanwhile` are the calls on the runtime nodes that run during the publication.
  unfoldable pub warm_and_activate_runtime_node :
      Times
      → NewNode
      → RouteSnapshot
      → List Call
      → List RuntimeNode
      → Result (List RuntimeNode × RouteSnapshotPublishReport)
  unfolding warm_up activate run publish_route_snapshot
  warm_and_activate_runtime_node times node snapshot meanwhile nodes = do
    warmed ← warm_up times node nodes
    let report = report_on node snapshot
    after ← activate times node report (run meanwhile warmed)
    ok (after, report)

abbrev beaten :
    ℕ
    → RuntimeNodeStatus
    → NewNode
    → Option RuntimeNodeCapacity
    → Option RuntimeNodeLoad
    → RuntimeNode
    → RuntimeNode
beaten now status node capacity load row = record row {
  status = status;
  last_seen_at = some now;
  version = first_of node.version row.version;
  capacity = first_of capacity row.capacity;
  load = first_of load row.load;
}

found-id :
    (id : String) (nodes : List RuntimeNode) (row : RuntimeNode)
    → get_runtime_node id nodes ≡ some row
    → row.id ≡ id
unfolding get_runtime_node
found-id id nodes row h =
    eq_of_beq row.id id (find-some (λ (x : RuntimeNode). x.id == id) nodes row h).1

-- A heartbeat of a known node with proper numbers returns and leaves the node in its status.
heartbeat-get :
    (now : ℕ) (status : RuntimeNodeStatus) (node : NewNode) (nodes : List RuntimeNode)
    (row : RuntimeNode) (capacity : Option RuntimeNodeCapacity) (load : Option RuntimeNodeLoad)
    → get_runtime_node node.id nodes ≡ some row
    → normalize_runtime_node_capacity node.capacity ≡ ok capacity
    → normalize_runtime_node_load (some (or_else node.load (some 0))) ≡ ok load
    → (after : List RuntimeNode) × (row' : RuntimeNode) × (record_runtime_node_heartbeat now
          (beat_of status node)
          nodes
        ≡ ok after)
      × (get_runtime_node node.id after ≡ some row')
      × (row'.status ≡ status)
unfolding record_runtime_node_heartbeat normalize_runtime_node_status
heartbeat-get now status node nodes row capacity load h c l =
    let same = found-id node.id nodes row h in
    let here = subst (λ k. get_runtime_node k nodes ≡ some row) (sym same) h in
    let new = beaten now status node capacity load row in
    let (after, done, found) =
      update_rows-get row.id (heartbeat_row new) (λ x. refl) nodes row here in
    (
      after,
      heartbeat_row new row,
      rw (h, c, l) done,
      subst (λ k. get_runtime_node k after ≡ some (heartbeat_row new row)) same found,
      refl,
    )

abbrev registered_node : ℕ → String → NodeDescription → RuntimeNode
registered_node now id description = record {
  id = id;
  description = description;
  status = draining;
  registered_at = now;
  last_seen_at = none;
  version = none;
  capacity = none;
  load = none;
}

registration-ok :
    (now : ℕ) (id : String) (described : Result NodeDescription) (description : NodeDescription)
    (nodes registered : List RuntimeNode)
    → described ≡ ok description
    → create_runtime_node (registered_node now id description) nodes ≡ ok registered
    → register_runtime_node now id described (some (some draining)) nodes ≡ ok registered
unfolding register_runtime_node normalize_runtime_node_status
registration-ok now id described description nodes registered d h = rw d h

warm_up-ok :
    (times : Times) (node : NewNode) (nodes registered warmed : List RuntimeNode)
    → register_runtime_node times.registered node.id node.described (some (some draining)) nodes
      ≡ ok registered
    → record_runtime_node_heartbeat times.warmed (beat_of draining node) registered ≡ ok warmed
    → warm_up times node nodes ≡ ok warmed
unfolding warm_up
warm_up-ok times node nodes registered warmed reg warm = rw (reg, warm) refl

abbrev with_report :
    RouteSnapshotPublishReport
    → List RuntimeNode
    → Result (List RuntimeNode × RouteSnapshotPublishReport)
with_report report after = ok (after, report)

-- How the call ends, once the node was taken and the publication has settled.
whole-ok :
    (network : Network) (times : Times) (node : NewNode) (snapshot : RouteSnapshot)
    (meanwhile : List Call) (nodes warmed : List RuntimeNode) (result : Result (List RuntimeNode))
    → warm_up times node nodes ≡ ok warmed
    → activate times node (report_on network node snapshot) (run meanwhile warmed) ≡ result
    → warm_and_activate_runtime_node network times node snapshot meanwhile nodes
      ≡ (result >>= with_report (report_on network node snapshot))
unfolding warm_and_activate_runtime_node
whole-ok network times node snapshot meanwhile nodes warmed result w a = rw (w, a) refl

module _ (times : Times) (node : NewNode) (report : RouteSnapshotPublishReport)
    (later : List RuntimeNode) where
  activate-gone :
      get_runtime_node node.id later ≡ none
      → activate times node report later ≡ (if report.is_ok then err not_found else ok later)
  unfolding activate record_runtime_node_heartbeat
  activate-gone gone = elim (Bool-cases report.is_ok) [
    | inl accepted ↦ rw accepted (rw gone refl)
    | inr refused ↦ rw refused refl
  ]

  activate-there :
      (row : RuntimeNode) (capacity : Option RuntimeNodeCapacity) (load : Option RuntimeNodeLoad)
      → get_runtime_node node.id later ≡ some row
      → normalize_runtime_node_capacity node.capacity ≡ ok capacity
      → normalize_runtime_node_load (some (or_else node.load (some 0))) ≡ ok load
      → (after : List RuntimeNode) × (row' : RuntimeNode) × (activate times node report later
          ≡ ok after)
        × (get_runtime_node node.id after ≡ some row')
        × (row'.status ≡ (if report.is_ok then active else row.status))
  unfolding activate
  activate-there row capacity load there c l = elim (Bool-cases report.is_ok) [
    | inl accepted ↦
        let (after, row', done, found, is_active) =
          heartbeat-get times.activated active node later row capacity load there c l in
        (after, row', rw accepted done, found, rw accepted is_active)
    | inr refused ↦ (later, row, rw refused refl, there, rw refused refl)
  ]

-- A new node, of which the description, the capacity and the load are proper and the id is not yet
-- taken, is registered as draining, and then the publication runs; its report is good exactly if the
-- node has a valid URL and accepted the snapshot at one of the attempts of a publication with the
-- default options. Whatever calls on the runtime nodes happen during the publication: if the node is
-- still in the table after them, then the call returns with the node in the table, active if the
-- report is good and in the status it had otherwise. If it was removed, then the call throws
-- `not_found` if the report is good, and returns with the table as it is otherwise.
pub warm_and_activate_runtime_node-active :
    (network : Network) (times : Times) (node : NewNode) (snapshot : RouteSnapshot)
    (meanwhile : List Call) (nodes : List RuntimeNode) (description : NodeDescription)
    (capacity : Option RuntimeNodeCapacity) (load : Option RuntimeNodeLoad)
    → node.described ≡ ok description
    → normalize_runtime_node_capacity node.capacity ≡ ok capacity
    → normalize_runtime_node_load (some (or_else node.load (some 0))) ≡ ok load
    → has node_id node.id nodes ≡ false
    → let report = report_on network node snapshot in
      (warmed : List RuntimeNode) × (row : RuntimeNode) × (warm_up times node nodes ≡ ok warmed)
      × (get_runtime_node node.id warmed ≡ some row)
      × (row.status ≡ draining)
      × ((report.is_ok ≡ true)
          ↔ IsDelivered network snapshot
              (normalize_publish_options default_options)
              (target_of node))
      × (((before : RuntimeNode) × (after : List RuntimeNode) × (new : RuntimeNode)
            × (get_runtime_node node.id (run meanwhile warmed) ≡ some before)
            × (warm_and_activate_runtime_node network times node snapshot meanwhile nodes
                ≡ ok (after, report))
            × (get_runtime_node node.id after ≡ some new)
            × (new.status ≡ (if report.is_ok then active else before.status)))
          ⊎ ((get_runtime_node node.id (run meanwhile warmed) ≡ none)
              × (warm_and_activate_runtime_node network times node snapshot meanwhile nodes
                  ≡ (if report.is_ok then err not_found else ok (run meanwhile warmed, report)))))
warm_and_activate_runtime_node-active network times node snapshot meanwhile nodes description
      capacity load d c l free =
    let fresh = registered_node times.registered node.id description in
    let report = report_on network node snapshot in
    let (registered, reg, found) = create_runtime_node-get fresh nodes free in
    let (warmed, row, warm, there, waits) =
      heartbeat-get times.warmed draining node registered fresh capacity load found c l in
    let register =
      registration-ok times.registered node.id node.described description nodes registered d reg in
    let taken = warm_up-ok times node nodes registered warmed register warm in
    let delivers =
      publish_route_snapshot-delivers network snapshot (target_of node ∷ []) default_options in
    let later = run meanwhile warmed in
    (
      warmed,
      row,
      taken,
      there,
      waits,
      (λ good. (delivers.0 good).0, λ h. delivers.1 (h, tt)),
      elim (Option-cases (get_runtime_node node.id later)) [
        | inl gone ↦ inr (
          gone,
          whole-ok network times node snapshot meanwhile nodes warmed
                (if report.is_ok then err not_found else ok later) taken
                (activate-gone times node report later gone)
              ∙ lifted report.is_ok later report,
        )
        | inr (before, here) ↦
            let (after, new, done, now_there, status) =
              activate-there times node report later before capacity load here c l in
            inl (
              before,
              after,
              new,
              here,
              whole-ok network times node snapshot meanwhile nodes warmed (ok after) taken done,
              now_there,
              status,
            )
      ],
    )
  where
    lifted :
        (b : Bool) (later : List RuntimeNode) (report : RouteSnapshotPublishReport)
        → ((if b then err not_found else ok later) >>= with_report report)
          ≡ (if b then err not_found else ok (later, report))
    lifted true later report = refl
    lifted false later report = refl
