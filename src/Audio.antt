-- ===== src/Audio.antt =====
-- code/ai-gateway/modules/audio: chunks of audio.
pub mod Signal
pub mod Pipeline
