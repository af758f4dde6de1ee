-- ===== src/Tests/Nodes.antt =====
-- Runtime nodes are registered, seen, cleaned up, scaled and activated.
use odenctl.Prelude.{
  ◌≡◌, refl, ◌↔◌, ◌⊎◌, inl, inr, String, Bool, true, none, some, List, [], ◌∷◌, map, filter, Member,
  max, length, if◌then◌else◌, ne_of_beq, string_eq,
}
use odenctl.Prelude.Keyed.{Distinct}
use odenctl.Prelude.Sort.{IsTotalPreorder}
use odenctl.Prelude.Text.{codes}
use odenctl.Contracts.{active, draining, offline}
use odenctl.ControlPlane.Errors.{ok, err, not_found}
use odenctl.ControlPlane.Nodes.{
  RuntimeNode, NodeDescription, node_id, cleanup_statuses, get_runtime_node,
  normalize_runtime_node_capacity, normalize_runtime_node_load,
}
use odenctl.ControlPlane.Routes.{positive_integer}
use odenctl.ControlPlane.Nodes.Activity.{Call, register, heartbeat, update_status, cleanup, run}
use odenctl.ControlPlane.Autoscaling.{
  RuntimeAutoscalingPolicy, decide_runtime_autoscaling, is_active_node,
}
use odenctl.ControlPlane.Autoscaling.Bounds.{IsBounded, decide_runtime_autoscaling-IsBounded}
use odenctl.ControlPlane.Autoscaling.Candidates.{IsNoBusier, decide_runtime_autoscaling-least}
use odenctl.ControlPlane.Autoscaling.Activation.{
  NewNode, Times, target_of, default_options, warm_up, report_on, warm_and_activate_runtime_node,
  warm_and_activate_runtime_node-active,
}
use odenctl.ControlPlane.Publisher.{normalize_publish_options}
use odenctl.ControlPlane.Publisher.Reports.{IsDelivered}
use odenctl.Tests.Publishing.{late_network, snapshot}

abbrev description : NodeDescription
description = record { url = "http://n"; region = none; labels = none }

abbrev idle_node : RuntimeNode
idle_node = record {
  id = "a";
  description = description;
  status = active;
  registered_at = 10;
  last_seen_at = none;
  version = none;
  capacity = some (record { concurrent_requests = 10; memory_mb = 64 });
  load = some (record { active_requests = 1 });
}

abbrev busy_node : RuntimeNode
busy_node = record idle_node { id = "b"; load = some (record { active_requests = 9 }) }

abbrev gone_node : RuntimeNode
gone_node = record idle_node { id = "c"; status = offline }

abbrev nodes : List RuntimeNode
nodes = idle_node ∷ busy_node ∷ gone_node ∷ []

nodes-Distinct : Distinct node_id nodes
nodes-Distinct = (refl, (refl, (refl, tt)))

abbrev calls : List Call
calls =
    register 20 "d" (ok description) none
    ∷ register 21 "a" (ok description) none
    ∷ heartbeat 30 (record {
      id = "d";
      status = some (some draining);
      version = none;
      capacity = none;
      load = some (some 2);
    })
    ∷ update_status "b" none
    ∷ cleanup 100 (some 50) none
    ∷ []

-- the second registration is refused, and the offline node goes
calls-ids : map node_id (run calls nodes) ≡ "a" ∷ "b" ∷ "d" ∷ []
unfolding run
calls-ids = refl

known_statuses :
    cleanup_statuses (some (some offline ∷ some draining ∷ [])) ≡ ok (offline ∷ draining ∷ [])
unfolding cleanup_statuses
known_statuses = refl

positive-ok : positive_integer (some 50) ≡ ok 50
unfolding positive_integer
positive-ok = refl

abbrev always : String → String → Bool
always a b = true

always-order : IsTotalPreorder always
always-order = record { total = λ a b h. refl; trans = λ a b c h k. refl }

abbrev policy : RuntimeAutoscalingPolicy
policy = record {
  min_nodes = 1;
  max_nodes = 4;
  target_load_ratio = record { numerator = 7; denominator = 10 };
  scale_up_threshold = none;
  scale_down_threshold = some (record { numerator = 6; denominator = 10 });
  scale_up_step = none;
  scale_down_step = none;
}

decide_runtime_autoscaling-IsBounded_example :
    IsBounded
      (length (filter is_active_node nodes))
      1
      (max 1 4)
      (decide_runtime_autoscaling always nodes policy)
decide_runtime_autoscaling-IsBounded_example =
    decide_runtime_autoscaling-IsBounded always nodes policy

-- an average of one half is below the threshold
decided : (decide_runtime_autoscaling always nodes policy).candidate_node_ids ≡ "a" ∷ []
unfolding decide_runtime_autoscaling
decided = refl

named : Member "a" (decide_runtime_autoscaling always nodes policy).candidate_node_ids
named = rw decided (inl refl)

not_named : Member "b" (decide_runtime_autoscaling always nodes policy).candidate_node_ids → ⊥
not_named m =
    let split : Member "b" ("a" ∷ []) = rw decided at m in
    elim split [ inl e ↦ ne_of_beq "b" "a" refl e | inr n ↦ n ]

decide_runtime_autoscaling-least_example :
    (x : RuntimeNode) × Member x (filter is_active_node nodes)
    × (x.id ≡ "a")
    × IsNoBusier x busy_node
decide_runtime_autoscaling-least_example =
    decide_runtime_autoscaling-least always nodes policy "a" busy_node always-order named
      (inr (inl refl)) not_named

abbrev new_node : NewNode
new_node = record {
  id = "n";
  url = codes "http://n";
  described = ok description;
  version = none;
  capacity = none;
  load = none;
}

abbrev times : Times
times = record { registered = 1; warmed = 2; activated = 3 }

no_capacity : normalize_runtime_node_capacity none ≡ ok none
unfolding normalize_runtime_node_capacity
no_capacity = refl

no_load : normalize_runtime_node_load (some (some 0)) ≡ ok (some (record { active_requests = 0 }))
unfolding normalize_runtime_node_load
no_load = refl

-- the node is set offline while the snapshot is on its way, and another one comes
abbrev meanwhile : List Call
meanwhile = update_status "n" (some (some offline)) ∷ register 2 "d" (ok description) none ∷ []

warm_and_activate_runtime_node-active_example :
    let report = report_on late_network new_node snapshot in
    (warmed : List RuntimeNode) × (row : RuntimeNode) × (warm_up times new_node nodes ≡ ok warmed)
    × (get_runtime_node "n" warmed ≡ some row)
    × (row.status ≡ draining)
    × ((report.is_ok ≡ true)
        ↔ IsDelivered late_network snapshot
            (normalize_publish_options default_options)
            (target_of new_node))
    × (((before : RuntimeNode) × (after : List RuntimeNode) × (new : RuntimeNode)
          × (get_runtime_node "n" (run meanwhile warmed) ≡ some before)
          × (warm_and_activate_runtime_node late_network times new_node snapshot meanwhile nodes
              ≡ ok (after, report))
          × (get_runtime_node "n" after ≡ some new)
          × (new.status ≡ (if report.is_ok then active else before.status)))
        ⊎ ((get_runtime_node "n" (run meanwhile warmed) ≡ none)
            × (warm_and_activate_runtime_node late_network times new_node snapshot meanwhile nodes
                ≡ (if report.is_ok then err not_found else ok (run meanwhile warmed, report)))))
warm_and_activate_runtime_node-active_example =
    warm_and_activate_runtime_node-active late_network times new_node snapshot meanwhile nodes
      description none (some (record { active_requests = 0 })) refl no_capacity no_load refl
