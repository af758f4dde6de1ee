-- ===== src/Tests/Publishing.antt =====
-- A snapshot is published to a node that answers late, and sent to replicas in two orders.
use odenctl.Prelude.{
  ℕ, zero, suc, ◌≡◌, refl, inl, inr, ◌↔◌, String, Bool, true, false, Option, none, some, [], ◌∷◌,
  arith, All, Member, ◌==◌, string_eq, if◌then◌else◌,
}
use odenctl.Prelude.Text.{codes}
use odenctl.Contracts.{RouteSnapshot}
use odenctl.ControlPlane.Publisher.{
  Answer, unreachable, refused, acked, Network, RuntimeNodeTarget, RouteSnapshotPublishOptions,
  NormalizedPublishOptions, normalize_publish_options, publish_to_runtime_node,
  publish_route_snapshot,
}
use odenctl.ControlPlane.Publisher.Attempts.{IsLast, attempt_of, publish_to_runtime_node-IsLast}
use odenctl.ControlPlane.Publisher.Reports.{IsDelivered, publish_route_snapshot-delivers}
use odenctl.ControlPlane.Replication.{RouteSnapshotReplicaState, apply, apply_all}
use odenctl.ControlPlane.Replication.Fresh.{IsStrictOrder}
use odenctl.ControlPlane.Replication.Converges.{IsFresher, apply_all-converges}
use odenctl.ControlPlane.Replication.Acks.{sent, replica_ack-holds}

-- nothing is reached, then a status to try again, then an acknowledgement
abbrev pub late_answer : ℕ → Answer
late_answer (suc zero) = unreachable (codes "refused")
late_answer (suc (suc zero)) = refused 503 (codes "busy")
late_answer _ = acked 200 (record { routes = some 0; generated_at = none; snapshot_id = some "s" })

abbrev pub late_network : Network
late_network = record {
  url_error = λ url. none;
  answer = λ url snapshot n. late_answer n;
  started_ms = λ target. 5;
  ended_ms = λ target. 9;
}

abbrev pub snapshot : RouteSnapshot
snapshot = record { id = some "s"; generated_at = "1"; routes = [] }

abbrev pub node_target : RuntimeNodeTarget
node_target = record { id = some "n"; url = codes "http://n/"; snapshot = none }

abbrev options : RouteSnapshotPublishOptions
options = record { max_attempts = none; retry_on_statuses = none }

abbrev three_attempts : NormalizedPublishOptions
three_attempts = record { max_attempts = 3; retry_on_statuses = 503 ∷ [] }

published-attempts :
    (publish_to_runtime_node late_network snapshot node_target three_attempts).attempts ≡ 3
unfolding publish_to_runtime_node
published-attempts = refl

publish_to_runtime_node-IsLast_example :
    ((publish_to_runtime_node late_network snapshot node_target three_attempts).result
      ≡ attempt_of late_network snapshot node_target three_attempts
          (publish_to_runtime_node late_network snapshot node_target three_attempts).attempts)
    × IsLast
        (attempt_of late_network snapshot node_target three_attempts)
        1
        3
        (publish_to_runtime_node late_network snapshot node_target three_attempts).attempts
publish_to_runtime_node-IsLast_example =
    publish_to_runtime_node-IsLast late_network snapshot node_target three_attempts refl
      (omega arith)

publish_route_snapshot-delivers_example :
    ((publish_route_snapshot late_network snapshot (node_target ∷ []) options).is_ok ≡ true)
    ↔ All (IsDelivered late_network snapshot (normalize_publish_options options)) (node_target ∷ [])
publish_route_snapshot-delivers_example =
    publish_route_snapshot-delivers late_network snapshot (node_target ∷ []) options

-- the time of a snapshot is one digit
abbrev digit : String → Option ℕ
digit text = if text == "1" then some 1 else if text == "2" then some 2 else none

abbrev never : String → String → Bool
never a b = false

never-IsStrictOrder : IsStrictOrder never
never-IsStrictOrder = record { asym = λ a b h. refl; cotrans = λ a b c h k. refl }

abbrev old_input : RouteSnapshotReplicaState
old_input = record { snapshot = snapshot; source_region = none; received_at = "t1" }

abbrev new_input : RouteSnapshotReplicaState
new_input = record old_input {
  snapshot = record { id = some "t"; generated_at = "2"; routes = [] };
}

swapped :
    (s : RouteSnapshotReplicaState)
    → Member s (old_input ∷ new_input ∷ [])
    → Member s (new_input ∷ old_input ∷ [])
swapped s (inl e) = inr (inl e)
swapped s (inr (inl e)) = inl e
swapped s (inr (inr m)) = absurd m

back :
    (s : RouteSnapshotReplicaState)
    → Member s (new_input ∷ old_input ∷ [])
    → Member s (old_input ∷ new_input ∷ [])
back s (inl e) = inr (inl e)
back s (inr (inl e)) = inl e
back s (inr (inr m)) = absurd m

stale-refused : apply_all digit never (new_input ∷ old_input ∷ []) none ≡ some new_input
unfolding apply_all
stale-refused = refl

apply_all-converges_example :
    (a b : RouteSnapshotReplicaState) × (apply_all digit never (old_input ∷ new_input ∷ []) none
      ≡ some a)
    × (apply_all digit never (new_input ∷ old_input ∷ []) none ≡ some b)
    × IsFresher digit never never-IsStrictOrder a b
    × IsFresher digit never never-IsStrictOrder b a
    × (digit a.snapshot.generated_at ≡ digit b.snapshot.generated_at)
apply_all-converges_example =
    apply_all-converges digit never never-IsStrictOrder old_input new_input (new_input ∷ [])
      (old_input ∷ []) ((1, refl), ((2, refl), tt)) swapped back

replica_ack-holds_example :
    (sent digit never old_input (some new_input) ≡ true)
    ↔ ((apply digit never old_input (some new_input)).0 ≡ some old_input)
replica_ack-holds_example = replica_ack-holds digit never old_input (some new_input)
