-- ===== src/Runtime.antt =====
-- src/runtime: the host thread policy.
pub mod ThreadPolicy
