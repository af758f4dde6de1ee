-- ===== src/ControlPlane/UsageQuotas.antt =====
-- Usage quotas: control-plane/usage-quota.ts. Quantities and limits are whole numbers, so each limit
-- that is given counts. The one kind of period is left out, with the reading of the environment.
use odenctl.Prelude.{
  ℕ, ◌+◌, ◌-◌, ◌≡◌, ◌≢◌, ◌↔◌, refl, inl, inr, String, false, Option, none, some, ltb, not,
  Bool-cases, if◌then◌else◌,
}
use odenctl.ControlPlane.Errors.{Result, ok, validation, guard}

pub data UsageQuotaMetric : Type 0 where
  invocations cpu_ms wall_ms memory_mb_ms egress_bytes storage_bytes sqlite_units : UsageQuotaMetric

pub data UsageMetricName : Type 0 where
  invocation cpu_ms_metric wall_ms_metric memory_mb_ms_metric : UsageMetricName
  egress_bytes_metric storage_bytes_metric sqlite_unit : UsageMetricName

-- a number for each metric: the totals of a summary
abbrev pub Totals : Type 0
Totals = UsageQuotaMetric → ℕ

abbrev pub ProjectUsageQuotaPolicy : Type 0
ProjectUsageQuotaPolicy = UsageQuotaMetric → Option ℕ

pub data Status : Type 0 where
  ok_status exceeded unlimited : Status

pub record UsageQuotaMeteredStatus : Type 0 where
  pub used : ℕ
  pub limit : Option ℕ
  pub remaining : Option ℕ
  pub status : Status

pub record ProjectUsageQuotaReport : Type 0 where
  pub project_id : String
  pub organization_id : Option String
  pub generated_at : String
  pub limits : ProjectUsageQuotaPolicy
  pub usage : Totals
  pub enforcement : UsageQuotaMetric → UsageQuotaMeteredStatus

pub record ProjectUsageSummary : Type 0 where
  pub project_id : String
  pub organization_id : Option String
  pub totals : Totals

unfoldable pub usage_metric_to_quota_metric : UsageMetricName → UsageQuotaMetric
usage_metric_to_quota_metric invocation = invocations
usage_metric_to_quota_metric cpu_ms_metric = cpu_ms
usage_metric_to_quota_metric wall_ms_metric = wall_ms
usage_metric_to_quota_metric memory_mb_ms_metric = memory_mb_ms
usage_metric_to_quota_metric egress_bytes_metric = egress_bytes
usage_metric_to_quota_metric storage_bytes_metric = storage_bytes
usage_metric_to_quota_metric sqlite_unit = sqlite_units

-- `Math.max(0, limit - used)` is subtraction that stops at zero.
unfoldable pub metered : ℕ → Option ℕ → UsageQuotaMeteredStatus
metered used none = record { used = used; limit = none; remaining = none; status = unlimited }
metered used (some limit) = record {
  used = used;
  limit = some limit;
  remaining = some (limit - used);
  status = if ltb limit used then exceeded else ok_status;
}

-- `input.policy ?? {}`
abbrev pub limits_of : Option ProjectUsageQuotaPolicy → ProjectUsageQuotaPolicy
limits_of none = λ metric. none
limits_of (some policy) = policy

unfoldable pub create_project_usage_quota_report :
    String → Option ProjectUsageQuotaPolicy → ProjectUsageSummary → ProjectUsageQuotaReport
unfolding metered
create_project_usage_quota_report generated_at policy summary = record {
  project_id = summary.project_id;
  organization_id = summary.organization_id;
  generated_at = generated_at;
  limits = limits_of policy;
  usage = summary.totals;
  enforcement = λ metric. metered (summary.totals metric) (limits_of policy metric);
}

unfoldable pub check_limit : ℕ → Option ℕ → Result (Unit {0})
check_limit next none = ok tt
check_limit next (some limit) = guard (not (ltb limit next)) validation

unfoldable pub enforce_project_usage_quota :
    Option ProjectUsageQuotaPolicy → ProjectUsageSummary → UsageMetricName → ℕ → Result (Unit {0})
unfolding usage_metric_to_quota_metric check_limit
enforce_project_usage_quota policy summary metric quantity =
    let quota_metric = usage_metric_to_quota_metric metric in
    check_limit (summary.totals quota_metric + quantity) (limits_of policy quota_metric)

metered-status :
    (next : ℕ) (limit : Option ℕ)
    → (check_limit next limit ≡ ok tt) ↔ ((metered next limit).status ≢ exceeded)
unfolding check_limit metered
metered-status next none = (λ h. apart, λ h. refl)
  where
    apart : unlimited ≢ exceeded
    apart e = cc
metered-status next (some limit) = elim (Bool-cases (ltb limit next)) [
  | inl over ↦ (λ h. absurd (refused (rw over at h)), λ h. absurd (h (rw over refl)))
  | inr under ↦ (λ h e. apart (rw under at e), λ h. rw under refl)
]
  where
    refused : guard false validation ≡ ok tt → ⊥
    refused e = cc

    apart : ok_status ≢ exceeded
    apart e = cc

-- The quota lets a quantity of a metric be recorded exactly when the report on a summary whose
-- total of that metric is greater by this quantity does not show the metric as exceeded.
pub enforce_project_usage_quota-reported :
    (policy : Option ProjectUsageQuotaPolicy) (summary after : ProjectUsageSummary)
    (metric : UsageMetricName) (quantity : ℕ) (generated_at : String)
    → after.totals (usage_metric_to_quota_metric metric)
      ≡ summary.totals (usage_metric_to_quota_metric metric) + quantity
    → (enforce_project_usage_quota policy summary metric quantity ≡ ok tt) ↔ (
        ((create_project_usage_quota_report generated_at policy after).enforcement
          (usage_metric_to_quota_metric metric)).status
        ≢ exceeded)
unfolding enforce_project_usage_quota create_project_usage_quota_report
enforce_project_usage_quota-reported policy summary after metric quantity generated_at h =
    let quota_metric = usage_metric_to_quota_metric metric in
    rw h (metered-status (summary.totals quota_metric + quantity) (limits_of policy quota_metric))
