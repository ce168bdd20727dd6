-- ===== src/SessionKernel.antt =====
-- src/session-kernel/index.ts: the relay's wire format and the lifecycle of a session.
pub mod Wire
pub mod Lifecycle
