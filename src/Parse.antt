-- ===== src/Parse.antt =====
-- lens-core/src/parse.rs: the plain-text path and the trail of headings.
pub mod Text
pub mod Trail
