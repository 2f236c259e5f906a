-- ===== src/Api.antt =====
-- The Release resource: api/v1alpha1/release_types.go and api/v1alpha1/const.go.
mod Common
mod Chart
mod Settings
mod Resource
pub mod Constants
pub use Common.*
pub use Chart.*
pub use Settings.*
unfoldable pub use Resource.*
