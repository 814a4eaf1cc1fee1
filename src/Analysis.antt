-- ===== src/Analysis.antt =====
-- src/analysis: checks of the members that an analysis is given.
pub mod Membership
