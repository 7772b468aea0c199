-- ===== src/Retrieval.antt =====
-- The assembly of what a question takes from the sources (lens-core/src/retrieval).
pub mod Structural
pub mod Trim
pub mod Fusion
