-- ===== src/SharedSources.antt =====
-- The list of Releases that share a chart source, as its annotation keeps it:
-- `ensureChartSourceRef` and `cleanupChartSourceRef` of internal/controller/release_controller.go.
pub mod Encoding
pub mod Names
pub mod Deletion
