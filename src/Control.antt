-- ===== src/Control.antt =====
-- The control plane (backend/control_plane).
pub mod Records
pub mod World
pub mod Ports
pub mod Store
pub mod Registry
pub mod Distinctness
pub mod Provisioning
pub mod Onboarding
pub mod Census
pub mod Recovery
pub mod Scan
pub mod Trail
pub mod Operations
mod Tests
