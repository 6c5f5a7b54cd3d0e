-- ===== src/Api.antt =====
-- The crates api_server_db, api_server, api_server_submission and submission_processor: problems,
-- their test cases, and submissions on their way to a verdict.
pub mod Store
pub mod Problems
pub mod Cases
pub mod Submissions
pub mod Routes
pub mod Queue
pub mod Processor
mod Samples
mod Tests
