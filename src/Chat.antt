-- ===== src/Chat.antt =====
-- lens-core/src/chat.rs: the roles, feedback and states that are stored as text, and the history that
-- a question takes along.
pub mod Stored
pub mod History
