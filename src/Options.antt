-- ===== src/Options.antt =====
-- The options that the controller hands to Nelm.
mod Types
mod Shared
pub use Types.*
unfoldable pub use Shared.*
