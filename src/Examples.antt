-- ===== src/Examples.antt =====
-- Runs of the models at concrete inputs, and the theorems applied to them.
mod Chunks
mod Answers
mod Assembled
mod Audio
mod Chats
mod Enriched
mod Parsed
mod Scenes
mod Downloads
mod Dialogues
mod Entities
