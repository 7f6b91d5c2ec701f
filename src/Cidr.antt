-- ===== src/Cidr.antt =====
-- pkg/webhook/preflight/nutanix/cidrvalidation.go: the Pod and Service CIDRs of a cluster against
-- each other and against the subnets of its nodes.
pub mod Prefix
pub mod Resolve
pub mod Collect
pub mod Check
pub mod Tests
