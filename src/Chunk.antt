-- ===== src/Chunk.antt =====
-- The parent-child chunker (lens-core/src/chunk.rs): a module for each stage, proofs below it.
pub mod Types
pub mod Ends
pub mod Split
pub mod Parent
pub mod Overlap
pub mod Child
pub mod Retile
pub mod Pipeline
