-- ===== src/Ic.antt =====
-- src/ic: the random numbers of the initial conditions.
pub mod Philox
