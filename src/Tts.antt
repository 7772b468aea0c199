-- ===== src/Tts.antt =====
-- Text to speech (lens-core/src/tts).
pub mod Scene
pub mod Snac
pub mod Orpheus
