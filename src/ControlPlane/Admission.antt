-- ===== src/ControlPlane/Admission.antt =====
-- The admission policy of control-plane/admission.ts for artifacts and deployments. The parser of
-- URLs (`new URL`) is a parameter, `none` where it throws. The reading of the environment is left
-- out.
use odenctl.Prelude.{
  ℕ, String, Bool, true, false, ◌&&◌, ◌||◌, Option, none, some, List, [], ◌∷◌, ◌++◌, any, ltb, leb,
  nat_eq, string_eq, ◌==◌, not, if◌then◌else◌, is_some,
}
use odenctl.Prelude.Text.{Text, text_eq, starts_with, ends_with}
use odenctl.Contracts.{
  Artifact, ArtifactSignature, CapabilityPolicy, OutboundHttpCapability, KvBinding, SecretBinding,
  DurableObjectBinding, ServiceBinding,
}
use odenctl.ControlPlane.Errors.{validation, Result, ok, err, ◌>>=◌, ◌>>◌, guard}
pub mod Allowed
pub mod Prefixes
pub mod Deployments

pub record ControlPlaneAdmissionPolicy : Type 0 where
  pub require_artifact_signature : Bool
  pub allowed_artifact_signature_key_ids : Option (List String)
  pub max_artifact_size_bytes : Option ℕ
  pub allowed_worlds : Option (List String)
  pub allowed_world_versions : Option (List String)
  pub allowed_outbound_http_prefixes : Option (List String)
  pub allowed_kv_namespace_ids : Option (List String)
  pub allowed_durable_object_namespace_ids : Option (List String)
  pub allowed_secret_ids : Option (List String)
  pub allowed_service_project_ids : Option (List String)
  pub allowed_service_url_prefixes : Option (List String)

pub record DeploymentAdmissionInput : Type 0 where
  pub artifact : Artifact
  pub world : String
  pub world_version : String
  pub capabilities : CapabilityPolicy

pub record Url : Type 0 where
  pub protocol : String
  pub host : String
  pub pathname : Text

abbrev pub includes : List String → String → Bool
includes allowed id = any (λ a. a == id) allowed

-- `allowed !== undefined && !allowed.includes(id)` throws
unfoldable pub check_listed : Option (List String) → String → Result (Unit {0})
check_listed none id = ok tt
check_listed (some allowed) id = guard (includes allowed id) validation

abbrev pub key_is_allowed : List String → Option ArtifactSignature → Bool
key_is_allowed allowed none = false
key_is_allowed allowed (some signature) =
    not (signature.key_id == "") && includes allowed signature.key_id

unfoldable pub check_key : Option (List String) → Option ArtifactSignature → Result (Unit {0})
check_key none signature = ok tt
check_key (some allowed) signature = guard (key_is_allowed allowed signature) validation

unfoldable pub check_size : Option ℕ → ℕ → Result (Unit {0})
check_size none size = ok tt
check_size (some limit) size = guard (leb size limit) validation

unfoldable pub enforce_artifact : ControlPlaneAdmissionPolicy → Artifact → Result (Unit {0})
unfolding check_key check_size
enforce_artifact policy artifact = do
  guard (not policy.require_artifact_signature || is_some artifact.signature) validation
  check_key policy.allowed_artifact_signature_key_ids artifact.signature
  check_size policy.max_artifact_size_bytes artifact.size_bytes

unfoldable pub enforce_artifact_admission_policy :
    Option ControlPlaneAdmissionPolicy → Artifact → Result (Unit {0})
unfolding enforce_artifact
enforce_artifact_admission_policy none artifact = ok tt
enforce_artifact_admission_policy (some policy) artifact = enforce_artifact policy artifact

-- `for (const item of items) { ... }` with a body that may throw
unfoldable pub each {ℓ} : {A : Type ℓ} → (A → Result (Unit {0})) → List A → Result (Unit {0})
each check [] = ok tt
each check (item ∷ items) = do check item; each check items

unfoldable pub enforce_kv_policy :
    ControlPlaneAdmissionPolicy → CapabilityPolicy → Result (Unit {0})
unfolding each check_listed
enforce_kv_policy policy capabilities =
    each (λ (b : KvBinding). check_listed policy.allowed_kv_namespace_ids b.namespace_id)
      capabilities.kv

unfoldable pub enforce_durable_object_policy :
    ControlPlaneAdmissionPolicy → CapabilityPolicy → Result (Unit {0})
unfolding each check_listed
enforce_durable_object_policy policy capabilities =
    each
      (λ (b : DurableObjectBinding).
        check_listed policy.allowed_durable_object_namespace_ids b.namespace_id)
      capabilities.durable_objects

unfoldable pub enforce_secret_policy :
    ControlPlaneAdmissionPolicy → CapabilityPolicy → Result (Unit {0})
unfolding each check_listed
enforce_secret_policy policy capabilities =
    each (λ (b : SecretBinding). check_listed policy.allowed_secret_ids b.secret_id)
      capabilities.secrets

-- the path below which all paths are allowed
unfoldable pub allowed_path : Text → Text
unfolding ends_with
allowed_path path = if ends_with path b'/' then path else path ++ b'/' ∷ []

-- `url_prefix_allows`, of two URLs that were read
unfoldable pub covers : Url → Url → Bool
unfolding allowed_path starts_with
covers allowed requested =
    if not (allowed.protocol == requested.protocol) || not (allowed.host == requested.host)
    then false
    else if allowed.pathname == b'/' ∷ [] || allowed.pathname == []
    then true
    else requested.pathname == allowed.pathname
      || starts_with requested.pathname (allowed_path allowed.pathname)

module _ (parse : String → Option Url) where
  unfoldable pub url_prefix_allows : String → String → Bool
  unfolding covers
  url_prefix_allows prefix value = elim (parse prefix) [
    | none ↦ false
    | some allowed ↦ elim (parse value) [ none ↦ false | some requested ↦ covers allowed requested ]
  ]

  unfoldable pub check_prefixes : Option (List String) → String → Result (Unit {0})
  unfolding url_prefix_allows
  check_prefixes none url = ok tt
  check_prefixes (some prefixes) url =
      guard (any (λ prefix. url_prefix_allows prefix url) prefixes) validation

  unfoldable pub enforce_outbound_http_policy :
      ControlPlaneAdmissionPolicy → CapabilityPolicy → Result (Unit {0})
  unfolding each check_prefixes
  enforce_outbound_http_policy policy capabilities =
      each (check_prefixes policy.allowed_outbound_http_prefixes) capabilities.outbound_http.allow

  unfoldable pub enforce_service_policy :
      ControlPlaneAdmissionPolicy → CapabilityPolicy → Result (Unit {0})
  unfolding each check_listed check_prefixes
  enforce_service_policy policy capabilities =
      each
        (λ (b : ServiceBinding).
          check_listed policy.allowed_service_project_ids b.target_project_id
          >> check_prefixes policy.allowed_service_url_prefixes b.url)
        capabilities.services

  unfoldable pub enforce_deployment :
      ControlPlaneAdmissionPolicy → DeploymentAdmissionInput → Result (Unit {0})
  unfolding enforce_artifact check_listed enforce_outbound_http_policy enforce_kv_policy
      enforce_durable_object_policy enforce_secret_policy enforce_service_policy
  enforce_deployment policy input = do
    enforce_artifact policy input.artifact
    check_listed policy.allowed_worlds input.world
    check_listed policy.allowed_world_versions input.world_version
    enforce_outbound_http_policy policy input.capabilities
    enforce_kv_policy policy input.capabilities
    enforce_durable_object_policy policy input.capabilities
    enforce_secret_policy policy input.capabilities
    enforce_service_policy policy input.capabilities

  unfoldable pub enforce_deployment_admission_policy :
      Option ControlPlaneAdmissionPolicy → DeploymentAdmissionInput → Result (Unit {0})
  unfolding enforce_deployment
  enforce_deployment_admission_policy none input = ok tt
  enforce_deployment_admission_policy (some policy) input = enforce_deployment policy input
