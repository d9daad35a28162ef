-- ===== src/Integ.antt =====
-- internal/integ: what sets a test cluster up, installs the driver on it and takes it down again.
pub mod Text
pub mod Flags
pub mod Retry
pub mod Kubernetes
pub mod Egoscale
pub mod K8s
pub mod Namespace
pub mod Cluster
pub mod Events
