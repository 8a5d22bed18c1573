-- ===== src/Collecting.antt =====
-- What becomes of a collect info: handleCollectInfo of internal/mod/rule/handler.go and
-- ComputeRuleFileInfos of pkg/upload/file.go.
pub mod RuleFiles
pub mod Handle
pub mod Kept
pub mod Scan
pub mod Pending
mod Tests
