-- ===== src/Resolution.antt =====
-- Cross-document entity resolution (lens-core/src/resolution/mod.rs).
pub mod UnionFind
pub mod Tiers
pub mod Veto
pub mod Merging
