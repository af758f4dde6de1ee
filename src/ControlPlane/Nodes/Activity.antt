-- ===== src/ControlPlane/Nodes/Activity.antt =====
-- Sequences of calls on the runtime nodes.
use odenctl.Prelude.{◌≡◌, refl, ℕ, String, Option, List, [], ◌∷◌, subst, filter, string_eq}
use odenctl.Prelude.Keyed.{Distinct}
use odenctl.Contracts.{RuntimeNodeStatus}
use odenctl.ControlPlane.Errors.{
  not_found, Result, ok, err, ◌>>=◌, require, >>=-eq-ok, ok_injective,
}
use odenctl.ControlPlane.Routes.{positive_integer}
use odenctl.ControlPlane.Nodes.{
  RuntimeNode, NodeDescription, StatusInput, Heartbeat, node_id, register_runtime_node,
  record_runtime_node_heartbeat, update_runtime_node_status, cleanup_runtime_nodes,
  cleanup_statuses, normalize_runtime_node_status, normalize_runtime_node_capacity,
  normalize_runtime_node_load, get_runtime_node, is_removable,
}
use odenctl.ControlPlane.Nodes.Keys.{update_rows-Distinct, create_runtime_node-Distinct}
use odenctl.ControlPlane.Nodes.Cleanup.{delete_all-Distinct}

-- a call with its arguments, the clock first
pub data Call : Type 0 where
  register : ℕ → String → Result NodeDescription → StatusInput → Call
  heartbeat : ℕ → Heartbeat → Call
  update_status : String → StatusInput → Call
  cleanup : ℕ → Option ℕ → Option (List (Option RuntimeNodeStatus)) → Call

unfoldable pub perform : Call → List RuntimeNode → Result (List RuntimeNode)
unfolding register_runtime_node record_runtime_node_heartbeat update_runtime_node_status
    cleanup_runtime_nodes
perform (register now new_id described status) nodes =
    register_runtime_node now new_id described status nodes
perform (heartbeat now beat) nodes = record_runtime_node_heartbeat now beat nodes
perform (update_status id status) nodes = update_runtime_node_status id status nodes
perform (cleanup now older_than statuses) nodes = do
  (after, removed) ← cleanup_runtime_nodes now older_than statuses nodes
  ok after

-- a call that throws changes nothing
abbrev pub after_call : List RuntimeNode → Result (List RuntimeNode) → List RuntimeNode
after_call nodes (ok after) = after
after_call nodes (err code) = nodes

unfoldable pub run : List Call → List RuntimeNode → List RuntimeNode
unfolding perform
run [] nodes = nodes
run (call ∷ calls) nodes = run calls (after_call nodes (perform call nodes))

perform-Distinct :
    (call : Call) (nodes after : List RuntimeNode)
    → Distinct node_id nodes
    → perform call nodes ≡ ok after
    → Distinct node_id after
unfolding perform register_runtime_node record_runtime_node_heartbeat update_runtime_node_status
    cleanup_runtime_nodes
perform-Distinct (register now new_id described status) nodes after d h =
    let (description, given, h1) = >>=-eq-ok described _ h in
    let (status', known, h2) = >>=-eq-ok (normalize_runtime_node_status status) _ h1 in
    create_runtime_node-Distinct _ nodes after d h2
perform-Distinct (heartbeat now beat) nodes after d h =
    let (existing, found, h1) =
      >>=-eq-ok (require (get_runtime_node beat.id nodes) not_found) _ h in
    let (status, known, h2) = >>=-eq-ok (normalize_runtime_node_status beat.status) _ h1 in
    let (capacity, c, h3) = >>=-eq-ok (normalize_runtime_node_capacity beat.capacity) _ h2 in
    let (load, l, h4) = >>=-eq-ok (normalize_runtime_node_load beat.load) _ h3 in
    update_rows-Distinct existing.id _ (λ row. refl) nodes after d h4
perform-Distinct (update_status id status) nodes after d h =
    let (status', known, h1) = >>=-eq-ok (normalize_runtime_node_status status) _ h in
    update_rows-Distinct id _ (λ row. refl) nodes after d h1
perform-Distinct (cleanup now older_than statuses_input) nodes after d h =
    let (result, cleaned, h1) =
      >>=-eq-ok (cleanup_runtime_nodes now older_than statuses_input nodes) _ h in
    let (limit, positive, h2) = >>=-eq-ok (positive_integer older_than) _ cleaned in
    let (statuses, known, h3) = >>=-eq-ok (cleanup_statuses statuses_input) _ h2 in
    let removed = filter (is_removable now limit statuses) nodes in
    let kept = delete_all-Distinct removed nodes d in
    subst (Distinct node_id) (ok_injective h1) (
      subst (λ (r : List RuntimeNode × List RuntimeNode). Distinct node_id r.0) (ok_injective h3)
        kept)

after_call-Distinct :
    (call : Call) (nodes : List RuntimeNode) (result : Result (List RuntimeNode))
    → Distinct node_id nodes
    → perform call nodes ≡ result
    → Distinct node_id (after_call nodes result)
after_call-Distinct call nodes (ok after) d h = perform-Distinct call nodes after d h
after_call-Distinct call nodes (err code) d h = d

-- After any registrations, heartbeats, status changes and cleanups, those that throw included, the
-- ids of the runtime nodes are distinct, if they were so before.
pub run-Distinct :
    (calls : List Call) (nodes : List RuntimeNode)
    → Distinct node_id nodes
    → Distinct node_id (run calls nodes)
unfolding run
run-Distinct [] nodes d = d
run-Distinct (call ∷ calls) nodes d =
    run-Distinct calls (after_call nodes (perform call nodes))
      (after_call-Distinct call nodes (perform call nodes) d refl)
