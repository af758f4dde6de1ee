-- ===== src/Tests/Routing.antt =====
-- Runs of the router and of the weighted choice.
use odenctl.Prelude.{◌≤◌, ◌≡◌, refl, inl, none, some, length, filter, sum_by, string_eq, ◌==◌}
use odenctl.Prelude.Text.{codes}
use odenctl.Runtime.RouteCache.{
  RouteMatchInput, normalize_host, normalize_path, path_prefix_matches, match_route,
}
use odenctl.Runtime.RouteCache.Match.{Serves, match_route-longest}
use odenctl.Runtime.Targets.{total_weight, select_slot, select_route_target}
use odenctl.Runtime.Targets.Shares.{count_slots, select_slot-shares}
use odenctl.Tests.Samples.{canary_route, api_route, sample_snapshot, by_length, by_length-order}

abbrev api_request : RouteMatchInput
api_request = record { host = codes " A.Test:8080"; path = codes "/api/users" }

abbrev other_request : RouteMatchInput
other_request = record { host = codes "b.test"; path = codes "/" }

api_request-match : match_route by_length sample_snapshot api_request ≡ some api_route
unfolding match_route
api_request-match = refl

other_request-match : match_route by_length sample_snapshot other_request ≡ none
unfolding match_route
other_request-match = refl

canary_route-Serves : Serves canary_route api_request
unfolding normalize_host normalize_path path_prefix_matches
canary_route-Serves = (refl, refl)

match_route-longest_example : length canary_route.path_prefix ≤ length api_route.path_prefix
match_route-longest_example =
    match_route-longest by_length by_length-order sample_snapshot api_request canary_route
      api_request-match (inl refl) canary_route-Serves

select_slot-shares_example :
    count_slots
      (λ slot. (select_slot canary_route slot).deployment_id == "next")
      0
      (total_weight canary_route.targets)
    ≡ sum_by
        (λ target. target.weight)
        (filter (λ target. target.deployment_id == "next") canary_route.targets)
select_slot-shares_example = select_slot-shares canary_route "next"

select_route_target_run : (select_route_target canary_route api_request).deployment_id ≡ "stable"
unfolding select_route_target
select_route_target_run = refl
