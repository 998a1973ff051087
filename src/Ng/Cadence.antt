-- ===== src/Ng/Cadence.antt =====
-- automation/ng/cadence.py: the executive cadence driver.
pub mod Config
pub mod State
pub mod Handle
pub mod Beat
