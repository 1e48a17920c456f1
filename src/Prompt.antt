-- ===== src/Prompt.antt =====
-- packages/local-agent/src/session/prompt-runner.ts: one prompt on the developer's machine.
pub mod Effects
pub mod Runner
pub mod Api
pub mod Triples
pub mod Protocol
pub mod Costs
pub mod Bounds
pub mod Restart
mod Tests
