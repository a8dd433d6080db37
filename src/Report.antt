-- ===== src/Report.antt =====
-- code/ai-gateway/report_loop.py and modules/report: the reports of a session.
pub mod Quality
pub mod FaceSummary
pub mod Orchestrator
pub mod Windowing
pub mod Sanitize
pub mod Stub
pub mod Round
