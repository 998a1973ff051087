-- ===== src/Tests.antt =====
-- Runs on small inputs, and the theorems at inputs that meet their hypotheses.
mod Acceptance
mod Cadence
mod Candidates
mod Tiers
mod Linting
mod Audits
mod Filings
mod Guard
mod Judgments
mod Payloads
mod Queue
mod Reports
mod Router
mod Scrubbing
mod Supervision
