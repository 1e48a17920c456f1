-- ===== src/Protocol.antt =====
-- packages/shared-contracts/src/protocol.
pub mod Checks
