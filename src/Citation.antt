-- ===== src/Citation.antt =====
-- Citation extraction (lens-core/src/citation.rs): the marker scanner, the grouping, the
-- diagnosis and the hydration of locators.
pub mod Markers
pub mod Extract
pub mod Grouping
pub mod Order
pub mod Tidy
pub mod Hydrate
pub mod Diagnosis
