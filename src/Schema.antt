-- ===== src/Schema.antt =====
-- automation/jobs/viz_schema.py: the validation of the dashboard's payloads.
pub mod Json
pub mod Entry
pub mod Families
pub mod Patrol
pub mod Routes
pub mod Validate
pub mod Accepted
pub mod Graphs
pub mod Sound
pub mod Accepts
