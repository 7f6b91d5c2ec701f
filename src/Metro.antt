-- ===== src/Metro.antt =====
-- pkg/webhook/preflight/nutanix/metro.go: the preflight checks of a cluster on a NutanixMetro, whose
-- nodes stand on two Prism Elements with synchronous replication between them.
pub mod Report
pub mod Domains
pub mod Pools
pub mod Elements
pub mod Sites
pub mod Network
pub mod Plan
pub mod Tests
