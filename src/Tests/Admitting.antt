-- ===== src/Tests/Admitting.antt =====
-- A deployment is admitted, and another is refused for the path of a service.
use odenctl.Prelude.{
  ◌≡◌, refl, ◌↔◌, String, true, Option, none, some, [], ◌∷◌, string_eq, ◌==◌, if◌then◌else◌,
}
use odenctl.Prelude.Text.{codes}
use odenctl.Contracts.{CapabilityPolicy}
use odenctl.ControlPlane.Errors.{validation, ok, err}
use odenctl.ControlPlane.Admission.{
  Url, ControlPlaneAdmissionPolicy, DeploymentAdmissionInput, url_prefix_allows,
  enforce_deployment_admission_policy,
}
use odenctl.ControlPlane.Admission.Prefixes.{HasPrefix, url_prefix_allows-HasPrefix}
use odenctl.ControlPlane.Admission.Allowed.{Decides}
use odenctl.ControlPlane.Admission.Deployments.{
  IsAdmitted, enforce_deployment_admission_policy-Decides,
}

-- two URLs of one host
abbrev parse : String → Option Url
parse value =
    if value == "https://a/api"
    then some (record { protocol = "https:"; host = "a"; pathname = codes "/api" })
    else if value == "https://a/apis"
    then some (record { protocol = "https:"; host = "a"; pathname = codes "/apis" })
    else if value == "https://a/api/x"
    then some (record { protocol = "https:"; host = "a"; pathname = codes "/api/x" })
    else none

abbrev policy : ControlPlaneAdmissionPolicy
policy = record {
  require_artifact_signature = true;
  allowed_artifact_signature_key_ids = some ("k" ∷ []);
  max_artifact_size_bytes = some 10;
  allowed_worlds = some ("http" ∷ []);
  allowed_world_versions = none;
  allowed_outbound_http_prefixes = some ("https://a/api" ∷ []);
  allowed_kv_namespace_ids = some ("ns" ∷ []);
  allowed_durable_object_namespace_ids = none;
  allowed_secret_ids = some [];
  allowed_service_project_ids = none;
  allowed_service_url_prefixes = some ("https://a/api" ∷ []);
}

abbrev capabilities_to : String → CapabilityPolicy
capabilities_to url = record {
  outbound_http = record { enabled = true; allow = "https://a/api/x" ∷ [] };
  kv = record { binding = "KV"; namespace_id = "ns" } ∷ [];
  durable_objects = [];
  secrets = [];
  services = record { binding = "S"; target_project_id = "p"; url = url } ∷ [];
}

abbrev deployment_to : String → DeploymentAdmissionInput
deployment_to url = record {
  artifact = record {
    id = "a";
    project_id = "p";
    digest = "d";
    location = "l";
    size_bytes = 10;
    signature = some (record { key_id = "k"; value = "v" });
    provenance = none;
    created_at = "t";
  };
  world = "http";
  world_version = "1";
  capabilities = capabilities_to url;
}

admitted :
    enforce_deployment_admission_policy parse (some policy) (deployment_to "https://a/api") ≡ ok tt
unfolding enforce_deployment_admission_policy
admitted = refl

not_admitted :
    enforce_deployment_admission_policy parse (some policy) (deployment_to "https://a/apis")
    ≡ err validation
unfolding enforce_deployment_admission_policy
not_admitted = refl

enforce_deployment_admission_policy-Decides_example :
    Decides
      (enforce_deployment_admission_policy parse (some policy) (deployment_to "https://a/apis"))
      (IsAdmitted parse policy (deployment_to "https://a/apis"))
enforce_deployment_admission_policy-Decides_example =
    enforce_deployment_admission_policy-Decides parse policy (deployment_to "https://a/apis")

url_prefix_allows-HasPrefix_example :
    (url_prefix_allows parse "https://a/api" "https://a/api/x" ≡ true)
    ↔ HasPrefix parse "https://a/api" "https://a/api/x"
url_prefix_allows-HasPrefix_example =
    url_prefix_allows-HasPrefix parse "https://a/api" "https://a/api/x"
