-- ===== src/Config.antt =====
-- The configuration: config of the core.
pub mod DagSort
