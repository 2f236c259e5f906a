-- ===== src/Examples.antt =====
-- A small cluster to try the controller on: a client, a Nelm and a host by simple functions.
pub mod Cluster
pub mod Lawful
pub mod Releases
pub mod Sharing
pub mod Watching
pub mod Serving
pub mod Tests
pub mod StatusTests
pub mod SharingTests
pub mod WatchingTests
