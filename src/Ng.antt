-- ===== src/Ng.antt =====
-- automation/ng: the beat loop.
pub mod Guard
pub mod Contract
pub mod Ledger
pub mod Cadence
pub mod Jev
pub mod Tiering
pub mod Watch
