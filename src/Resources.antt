-- ===== src/Resources.antt =====
-- The resource classes of pack/nodejs/provider.ts, a module for each namespace.
pub mod Class
pub mod Instance
pub mod Admissionregistration
pub mod Apiextensions
pub mod Apiregistration
pub mod Apps
pub mod Authentication
pub mod Authorization
pub mod Autoscaling
pub mod Batch
pub mod Certificates
pub mod Core
pub mod Events
pub mod Extensions
pub mod Meta
pub mod Networking
pub mod Policy
pub mod Rbac
pub mod Scheduling
pub mod Settings
pub mod Storage
