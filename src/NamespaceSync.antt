-- ===== src/NamespaceSync.antt =====
-- pkg/controllers/namespacesync: the ClusterClasses of the source namespace and the templates that
-- they refer to are copied to a target namespace.
pub mod Objects
pub mod Server
pub mod Copy
pub mod Watch
pub mod Tests
