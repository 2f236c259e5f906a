-- ===== src/Controller.antt =====
-- The reconciler of Release resources: internal/controller/release_controller.go.
mod Returns
mod Storage
mod Options
mod Backoff
mod Outcomes
mod SourceRefs
mod HelmChart
mod ChartRef
mod Install
mod Delete
mod Reconcile
pub use Returns.*
unfoldable pub use Storage.*
unfoldable pub use Options.*
unfoldable pub use Backoff.*
unfoldable pub use Outcomes.*
unfoldable pub use SourceRefs.*
unfoldable pub use HelmChart.*
unfoldable pub use ChartRef.*
unfoldable pub use Install.*
unfoldable pub use Delete.*
unfoldable pub use Reconcile.*
