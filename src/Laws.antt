-- ===== src/Laws.antt =====
-- What the proofs rest on: rules for actions, the behaviour of the services outside the repository,
-- and what the methods of the controller keep of their record of calls.
pub mod Keeps
pub mod Services
pub mod Quiet
