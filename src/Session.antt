-- ===== src/Session.antt =====
-- apps/api/src/sessions.
pub mod Attachments
pub mod Prompts
pub mod Machine
pub mod Events
pub mod Start
pub mod Parse
pub mod Close
