-- ===== src/Registry.antt =====
-- A shared chart source as a set of users, and the annotation as its representation:
-- `ensureChartSourceRef` and `cleanupChartSourceRef` of internal/controller/release_controller.go.
pub mod Users
pub mod Names
pub mod Server
pub mod Written
pub mod Ensure
pub mod Dropped
pub mod Cleanup
pub mod Replay
pub mod Runs
pub mod Stranded
