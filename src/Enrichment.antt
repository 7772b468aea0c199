-- ===== src/Enrichment.antt =====
-- The enrichment of a notebook's sources (lens-core/src/enrichment): its budget, the structural map
-- and the JSON of a reply.
pub mod Budget
pub mod Coref
pub mod Json
pub mod Meta
pub mod Map
