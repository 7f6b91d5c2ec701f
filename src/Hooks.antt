-- ===== src/Hooks.antt =====
-- common/pkg/capi/clustertopology/handlers/lifecycle/parallel.go: the hooks of one lifecycle event,
-- run in parallel, and the aggregation of their responses.
pub mod Aggregate
pub mod Run
pub mod Tests
