-- ===== src/Agents.antt =====
-- apps/api/src/agent-gateway: which local agents are connected, and what they may do.
pub mod Registry
pub mod Binding
pub mod Capabilities
pub mod Delivery
pub mod Gateway
pub mod Authentication
