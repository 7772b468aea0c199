-- ===== src/Dialogue.antt =====
-- lens-core/src/dialogue.rs: a script and its check.
pub mod Salvage
pub mod Generate
pub mod Script
