-- ===== src/World.antt =====
-- What the controller talks to, and the actions in which it does.
mod Effects
mod Services
mod Actions
pub use Effects.*
pub use Services.*
unfoldable pub use Actions.*
