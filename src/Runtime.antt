-- ===== src/Runtime.antt =====
-- services/_runtime: the services behind the NATS-based path.
pub mod Reconciler
pub mod Tenant
pub mod Worker
pub mod Jwt
pub mod EventSeq
pub mod Secrets
pub mod Cancel
pub mod Subjects
pub mod Glue
