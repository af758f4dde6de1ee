-- ===== src/ControlPlane/Quotas.antt =====
-- The quotas of a project: enforceProjectQuota of control-plane/quotas.ts. A limit is a number from n
-- up to, and not including, n + 1, a negative number, or one that is not finite.
use odenctl.Prelude.{ℕ, Option, none, some, ltb}
use odenctl.ControlPlane.Errors.{validation, Result, ok, guard}

pub data Limit : Type 0 where
  finite : ℕ → Limit
  negative : Limit
  not_finite : Limit

pub record ProjectQuotas : Type 0 where
  pub max_artifacts : Option Limit
  pub max_deployments : Option Limit
  pub max_routes : Option Limit
  pub max_secrets : Option Limit
  pub max_kv_namespaces : Option Limit
  pub max_durable_object_namespaces : Option Limit

pub record ProjectResourceUsage : Type 0 where
  pub artifacts : ℕ
  pub deployments : ℕ
  pub routes : ℕ
  pub secrets : ℕ
  pub kv_namespaces : ℕ
  pub durable_object_namespaces : ℕ

pub data ProjectQuotaResource : Type 0 where
  artifact deployment route secret kv_namespace durable_object_namespace : ProjectQuotaResource

abbrev pub positive_limit : Option Limit → Option ℕ
positive_limit none = none
positive_limit (some not_finite) = none
positive_limit (some negative) = some 0
positive_limit (some (finite n)) = some n

abbrev pub limit_of : ProjectQuotas → ProjectQuotaResource → Option Limit
limit_of quotas artifact = quotas.max_artifacts
limit_of quotas deployment = quotas.max_deployments
limit_of quotas route = quotas.max_routes
limit_of quotas secret = quotas.max_secrets
limit_of quotas kv_namespace = quotas.max_kv_namespaces
limit_of quotas durable_object_namespace = quotas.max_durable_object_namespaces

abbrev pub quota_limit : Option ProjectQuotas → ProjectQuotaResource → Option ℕ
quota_limit none resource = none
quota_limit (some quotas) resource = positive_limit (limit_of quotas resource)

abbrev pub usage_count : ProjectResourceUsage → ProjectQuotaResource → ℕ
usage_count usage artifact = usage.artifacts
usage_count usage deployment = usage.deployments
usage_count usage route = usage.routes
usage_count usage secret = usage.secrets
usage_count usage kv_namespace = usage.kv_namespaces
usage_count usage durable_object_namespace = usage.durable_object_namespaces

unfoldable pub enforce_limit : Option ℕ → ℕ → Result (Unit {0})
enforce_limit none count = ok tt
enforce_limit (some limit) count = guard (ltb count limit) validation

unfoldable pub enforce_project_quota :
    Option ProjectQuotas → ProjectResourceUsage → ProjectQuotaResource → Result (Unit {0})
unfolding enforce_limit
enforce_project_quota quotas usage resource =
    enforce_limit (quota_limit quotas resource) (usage_count usage resource)
