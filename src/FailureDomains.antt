-- ===== src/FailureDomains.antt =====
-- pkg/controllers/failuredomainrollout/controller.go: when the control plane's machines are rolled
-- out again because of its failure domains. The children follow the parts of the file.
pub mod Distribution
pub mod Decision
pub mod Reconcile
pub mod Tests
