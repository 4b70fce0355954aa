-- ===== src/Domain.antt =====
-- internal/domain: the canonical models, and their validation.
pub mod Hack
pub mod Tree
pub mod Runtime
pub mod Coordination
pub mod Snapshots
pub mod Config
pub mod Validate
