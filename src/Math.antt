-- ===== src/Math.antt =====
-- include/cosmo_nbody/math: the exact reductions.
pub mod ExactPositiveSum
pub mod ExactSignedSum
pub mod ExactProductSum
pub mod MpiExactUint64Sum
pub mod MpiExactNonnegativeSum
