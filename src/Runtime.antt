-- ===== src/Runtime.antt =====
-- The runtime node: runtime/.
pub mod RouteCache
pub mod Targets
pub mod Packing
pub mod ResponseCache
pub mod CachePolicy
pub mod CacheRetention
