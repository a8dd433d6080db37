-- ===== src/Face/Analysis.antt =====
-- code/ai-gateway/modules/face/analysis.py: a video frame, from its message to what is sent for it.
pub mod Landmarks
pub mod Emit
pub mod Gate
pub mod Process
