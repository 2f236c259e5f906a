-- ===== src/Source.antt =====
-- Building the Flux objects that a Release's inline chart asks for: internal/source.
mod Objects
mod Repositories
mod HelmChart
mod Build
pub use Objects.*
unfoldable pub use Repositories.*
unfoldable pub use HelmChart.*
unfoldable pub use Build.*
