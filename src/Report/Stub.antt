-- ===== src/Report/Stub.antt =====
-- code/ai-gateway/modules/report/stub_builder.py: the report that the gateway builds by itself.
pub mod Collect
pub mod Json
pub mod Render
pub mod Meeting
pub mod Summaries
pub mod Totals
