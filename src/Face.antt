-- ===== src/Face.antt =====
-- code/ai-gateway/modules/face: analysis of video frames.
pub mod Region
pub mod Schema
pub mod Params
pub mod Analysis
