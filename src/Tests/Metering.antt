-- ===== src/Tests/Metering.antt =====
-- A project with a limit of ten invocations.
use odenctl.Prelude.{ℕ, ◌≡◌, ◌≢◌, ◌↔◌, refl, some, none}
use odenctl.ControlPlane.Errors.{ok}
use odenctl.ControlPlane.UsageQuotas.{
  invocations, invocation, exceeded, ProjectUsageQuotaPolicy, ProjectUsageSummary,
  usage_metric_to_quota_metric, create_project_usage_quota_report, enforce_project_usage_quota,
  enforce_project_usage_quota-reported,
}

abbrev ten_invocations : ProjectUsageQuotaPolicy
ten_invocations invocations = some 10
ten_invocations _ = none

abbrev used : ℕ → ProjectUsageSummary
used n = record { project_id = "p"; organization_id = none; totals = λ metric. n }

-- the limit itself may be reached
enforce-reached : enforce_project_usage_quota (some ten_invocations) (used 7) invocation 3 ≡ ok tt
unfolding enforce_project_usage_quota
enforce-reached = refl

enforce_project_usage_quota-reported_example :
    (enforce_project_usage_quota (some ten_invocations) (used 7) invocation 4 ≡ ok tt) ↔ (
      ((create_project_usage_quota_report "t" (some ten_invocations) (used 11)).enforcement
        (usage_metric_to_quota_metric invocation)).status
      ≢ exceeded)
enforce_project_usage_quota-reported_example =
    enforce_project_usage_quota-reported (some ten_invocations) (used 7) (used 11) invocation 4 "t"
      refl
