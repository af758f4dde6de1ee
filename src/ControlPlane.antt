-- ===== src/ControlPlane.antt =====
-- The control plane: control-plane/.
pub mod Errors
pub mod Memberships
pub mod Placement
pub mod Routes
pub mod Canary
pub mod RouteCanary
pub mod Quotas
pub mod Domains
pub mod Publisher
pub mod Replication
pub mod Nodes
pub mod Autoscaling
pub mod Admission
pub mod Snapshots
pub mod Alarms
pub mod UsageQuotas
