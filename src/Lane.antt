-- ===== src/Lane.antt =====
-- app/services/upload_service.py.
pub mod Client
pub mod Chunks
pub mod Action
pub mod Records
pub mod Setup
pub mod Transfer
pub mod Gate
pub mod Finish
pub mod Batch
pub mod Calls
pub mod Runs
pub mod Outcomes
pub mod Worker
