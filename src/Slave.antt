-- ===== src/Slave.antt =====
-- The master's view of its slaves: internal/master/types.go and internal/master/file_manager.go.
pub mod Paths
pub mod Registry
pub mod Limited
pub mod Files
