-- ===== src/Review.antt =====
-- When a review request may be created.
pub mod Create
pub mod Policy
pub mod AfterChecks
mod Tests
