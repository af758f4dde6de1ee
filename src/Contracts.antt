-- ===== src/Contracts.antt =====
-- The data of control-plane/contracts.ts that the components exchange. Identifiers, versions and
-- timestamps that are only stored or compared are native texts; hosts and paths are lists of code
-- units, since the router walks them.
use odenctl.Prelude.{ℕ, String, Bool, Option, List}
use odenctl.Prelude.Text.{Text}

pub record RuntimeSpec : Type 0 where
  pub backend : String
  pub version : String
  pub wasi : String

pub record RuntimeLimits : Type 0 where
  pub cpu_ms : ℕ
  pub memory_mb : ℕ
  pub wall_ms : ℕ
  pub request_bytes : ℕ
  pub subrequests : ℕ
  pub response_bytes : ℕ

pub record OutboundHttpCapability : Type 0 where
  pub enabled : Bool
  pub allow : List String

pub record KvBinding : Type 0 where
  pub binding : String
  pub namespace_id : String

pub record SecretBinding : Type 0 where
  pub binding : String
  pub secret_id : String

pub record DurableObjectBinding : Type 0 where
  pub binding : String
  pub namespace_id : String

pub record ServiceBinding : Type 0 where
  pub binding : String
  pub target_project_id : String
  pub url : String

-- The three fields of the literal type `false` hold nothing.
pub record CapabilityPolicy : Type 0 where
  pub outbound_http : OutboundHttpCapability
  pub kv : List KvBinding
  pub durable_objects : List DurableObjectBinding
  pub secrets : List SecretBinding
  pub services : List ServiceBinding

pub record ArtifactSignature : Type 0 where
  pub key_id : String
  pub value : String

pub record ArtifactProvenance : Type 0 where
  pub builder : Option String
  pub source : Option String
  pub revision : Option String
  pub build_id : Option String

pub record Artifact : Type 0 where
  pub id : String
  pub project_id : String
  pub digest : String
  pub location : String
  pub size_bytes : ℕ
  pub signature : Option ArtifactSignature
  pub provenance : Option ArtifactProvenance
  pub created_at : String

-- The `artifact` member of a snapshot entry.
pub record SnapshotArtifact : Type 0 where
  pub id : String
  pub digest : String
  pub location : String
  pub signature : Option ArtifactSignature
  pub provenance : Option ArtifactProvenance

pub record RouteSnapshotTarget : Type 0 where
  pub deployment_id : String
  pub weight : ℕ
  pub world : String
  pub world_version : String
  pub runtime : RuntimeSpec
  pub limits : RuntimeLimits
  pub capabilities : CapabilityPolicy
  pub artifact : SnapshotArtifact

pub record RouteSnapshotEntry : Type 0 where
  pub host : Text
  pub path_prefix : Text
  pub project_id : String
  pub deployment_id : String
  pub targets : List RouteSnapshotTarget
  pub world : String
  pub world_version : String
  pub runtime : RuntimeSpec
  pub limits : RuntimeLimits
  pub capabilities : CapabilityPolicy
  pub artifact : SnapshotArtifact

pub record RouteSnapshot : Type 0 where
  pub id : Option String
  pub generated_at : String
  pub routes : List RouteSnapshotEntry

pub data RuntimeNodeStatus : Type 0 where
  active draining offline : RuntimeNodeStatus

pub record RuntimeNodeCapacity : Type 0 where
  pub concurrent_requests : ℕ
  pub memory_mb : ℕ

pub record RuntimeNodeLoad : Type 0 where
  pub active_requests : ℕ
