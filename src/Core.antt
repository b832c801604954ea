-- ===== src/Core.antt =====
-- The core application (backend/apps/core): what every module stands on.
pub mod Sync
pub mod Holds
pub mod Sequences
