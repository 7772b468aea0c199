-- ===== src/Asr.antt =====
-- What a cloud transcription sends (lens-core/src/asr/cloud): the windows of a recording and their
-- WAV form. A sample is a value of a type that is a parameter, as are the operations on f32.
pub mod Wav
pub mod Windows
