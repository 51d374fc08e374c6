-- ===== src/Protocol.antt =====
-- pkg/certproto: the data of the public v2 protocol, its validation and its URL paths.
pub mod Errors
pub mod Codec
pub mod Identifiers
pub mod Domain
pub mod Manifest
pub mod Jobs
pub mod Reconcile
pub mod Deployment
pub mod Paths
pub mod Capabilities
mod Tests
