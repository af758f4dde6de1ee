-- ===== src/ControlPlane/Admission/Deployments.antt =====
-- The whole policy: what an admitted artifact and an admitted deployment are.
use odenctl.Prelude.{
  refl, inl, String, Option, none, some, List, any, Member, All, any-witness, any_of_Member,
}
use odenctl.Contracts.{Artifact, KvBinding, SecretBinding, DurableObjectBinding, ServiceBinding}
use odenctl.ControlPlane.Errors.{◌>>◌}
use odenctl.ControlPlane.Admission.{
  Url, ControlPlaneAdmissionPolicy, DeploymentAdmissionInput, check_listed, enforce_artifact,
  enforce_kv_policy, enforce_durable_object_policy, enforce_secret_policy, url_prefix_allows,
  check_prefixes, enforce_outbound_http_policy, enforce_service_policy, enforce_deployment,
  enforce_deployment_admission_policy,
}
use odenctl.ControlPlane.Admission.Prefixes.{HasPrefix, url_prefix_allows-HasPrefix}
use odenctl.ControlPlane.Admission.Allowed.{
  Decides, Decides-guard, Decides-map, Decides-seq, Decides-each, IsListed, IsSmall, IsKeyed,
  IsSigned, check_listed-Decides, check_size-Decides, check_key-Decides, signature-Decides,
}

pub record IsAdmittedArtifact (policy : ControlPlaneAdmissionPolicy) (artifact : Artifact)
    : Type 0 where
  pub signed : IsSigned policy.require_artifact_signature artifact.signature
  pub keyed : IsKeyed policy.allowed_artifact_signature_key_ids artifact.signature
  pub small : IsSmall policy.max_artifact_size_bytes artifact.size_bytes

enforce_artifact-Decides :
    (policy : ControlPlaneAdmissionPolicy) (artifact : Artifact)
    → Decides (enforce_artifact policy artifact) (IsAdmittedArtifact policy artifact)
unfolding enforce_artifact
enforce_artifact-Decides policy artifact =
    let d =
      Decides-seq _ _ _ _ (signature-Decides policy.require_artifact_signature artifact.signature) (
        Decides-seq _ _ _ _
          (check_key-Decides policy.allowed_artifact_signature_key_ids artifact.signature)
          (check_size-Decides policy.max_artifact_size_bytes artifact.size_bytes)) in
    Decides-map _ _ _ d (λ (a, (b, c)). record { signed = a; keyed = b; small = c })
      (λ h. (h.signed, (h.keyed, h.small)))

module _ (parse : String → Option Url) where
  -- The policy says nothing, or some listed prefix allows the URL.
  abbrev pub IsPrefixed : Option (List String) → String → Type 0
  IsPrefixed none url = Unit
  IsPrefixed (some prefixes) url =
      (prefix : String) × Member prefix prefixes × HasPrefix parse prefix url

  check_prefixes-Decides :
      (prefixes : Option (List String)) (url : String)
      → Decides (check_prefixes parse prefixes url) (IsPrefixed prefixes url)
  unfolding check_prefixes
  check_prefixes-Decides none url = inl (refl, tt)
  check_prefixes-Decides (some prefixes) url =
      let test = λ (prefix : String). url_prefix_allows parse prefix url in
      Decides-guard (any test prefixes) (IsPrefixed (some prefixes) url)
        (λ h.
          let (prefix, m, e) = any-witness test prefixes h in
          (prefix, m, (url_prefix_allows-HasPrefix parse prefix url).0 e))
        (λ (prefix, m, h).
          any_of_Member test prefixes prefix m ((url_prefix_allows-HasPrefix parse prefix url).1 h))

  abbrev pub IsService : ControlPlaneAdmissionPolicy → ServiceBinding → Type 0
  IsService policy b =
      IsListed policy.allowed_service_project_ids b.target_project_id
      × IsPrefixed policy.allowed_service_url_prefixes b.url

  pub record IsAdmitted (policy : ControlPlaneAdmissionPolicy) (input : DeploymentAdmissionInput)
      : Type 0 where
    pub artifact : IsAdmittedArtifact policy input.artifact
    pub world : IsListed policy.allowed_worlds input.world
    pub world_version : IsListed policy.allowed_world_versions input.world_version
    pub outbound :
        All
          (IsPrefixed policy.allowed_outbound_http_prefixes)
          input.capabilities.outbound_http.allow
    pub kv :
        All
          (λ (b : KvBinding). IsListed policy.allowed_kv_namespace_ids b.namespace_id)
          input.capabilities.kv
    pub durable_objects :
        All
          (λ (b : DurableObjectBinding).
            IsListed policy.allowed_durable_object_namespace_ids b.namespace_id)
          input.capabilities.durable_objects
    pub secrets :
        All
          (λ (b : SecretBinding). IsListed policy.allowed_secret_ids b.secret_id)
          input.capabilities.secrets
    pub services : All (IsService policy) input.capabilities.services

  enforce_deployment-Decides :
      (policy : ControlPlaneAdmissionPolicy) (input : DeploymentAdmissionInput)
      → Decides (enforce_deployment parse policy input) (IsAdmitted policy input)
  unfolding enforce_deployment enforce_outbound_http_policy enforce_kv_policy
      enforce_durable_object_policy enforce_secret_policy enforce_service_policy
  enforce_deployment-Decides policy input =
      let capabilities = input.capabilities in
      let kv =
        Decides-each
          (λ (b : KvBinding). check_listed policy.allowed_kv_namespace_ids b.namespace_id)
          (λ (b : KvBinding). IsListed policy.allowed_kv_namespace_ids b.namespace_id)
          (λ b. check_listed-Decides policy.allowed_kv_namespace_ids b.namespace_id)
          capabilities.kv in
      let objects =
        Decides-each
          (λ (b : DurableObjectBinding).
            check_listed policy.allowed_durable_object_namespace_ids b.namespace_id)
          (λ (b : DurableObjectBinding).
            IsListed policy.allowed_durable_object_namespace_ids b.namespace_id)
          (λ b. check_listed-Decides policy.allowed_durable_object_namespace_ids b.namespace_id)
          capabilities.durable_objects in
      let secrets =
        Decides-each (λ (b : SecretBinding). check_listed policy.allowed_secret_ids b.secret_id)
          (λ (b : SecretBinding). IsListed policy.allowed_secret_ids b.secret_id)
          (λ b. check_listed-Decides policy.allowed_secret_ids b.secret_id) capabilities.secrets in
      let services =
        Decides-each
          (λ (b : ServiceBinding).
            check_listed policy.allowed_service_project_ids b.target_project_id
            >> check_prefixes parse policy.allowed_service_url_prefixes b.url)
          (IsService policy)
          (λ b.
            Decides-seq _ _ _ _
              (check_listed-Decides policy.allowed_service_project_ids b.target_project_id)
              (check_prefixes-Decides policy.allowed_service_url_prefixes b.url))
          capabilities.services in
      let outbound =
        Decides-each (check_prefixes parse policy.allowed_outbound_http_prefixes)
          (IsPrefixed policy.allowed_outbound_http_prefixes)
          (check_prefixes-Decides policy.allowed_outbound_http_prefixes)
          capabilities.outbound_http.allow in
      let rest = Decides-seq _ _ _ _ secrets services in
      let bindings = Decides-seq _ _ _ _ kv (Decides-seq _ _ _ _ objects rest) in
      let worlds = Decides-seq _ _ _ _ (check_listed-Decides policy.allowed_worlds input.world) (
        Decides-seq _ _ _ _ (check_listed-Decides policy.allowed_world_versions input.world_version)
          (Decides-seq _ _ _ _ outbound bindings)) in
      let all = Decides-seq _ _ _ _ (enforce_artifact-Decides policy input.artifact) worlds in
      Decides-map _ _ _ all
        (λ (a, (b, (c, (d, (e, (f, (g, h))))))). record {
          artifact = a;
          world = b;
          world_version = c;
          outbound = d;
          kv = e;
          durable_objects = f;
          secrets = g;
          services = h;
        })
        (λ h. (
          h.artifact,
          (
            h.world,
            (h.world_version, (h.outbound, (h.kv, (h.durable_objects, (h.secrets, h.services))))),
          ),
        ))

  -- Under a policy, the admission of a deployment either passes, and then every part of the
  -- deployment is one that the policy allows, or throws a validation error, and then some part is
  -- not: the signature, its key and the size of the artifact, the world and its version, every URL
  -- for outbound requests, and every key-value store, durable object namespace, secret and service
  -- that the deployment is bound to.
  pub enforce_deployment_admission_policy-Decides :
      (policy : ControlPlaneAdmissionPolicy) (input : DeploymentAdmissionInput)
      → Decides
          (enforce_deployment_admission_policy parse (some policy) input)
          (IsAdmitted policy input)
  unfolding enforce_deployment_admission_policy
  enforce_deployment_admission_policy-Decides policy input = enforce_deployment-Decides policy input
