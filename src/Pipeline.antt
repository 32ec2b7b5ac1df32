-- ===== src/Pipeline.antt =====
-- src/app/pipeline: the application's facade, and what it stores and enqueues.
pub mod Input
pub mod Payloads
pub mod Service
pub mod Confirm
mod Tests
