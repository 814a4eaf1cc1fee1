-- ===== src/Core.antt =====
-- include/cosmo_nbody/core: the storage of particles.
pub mod Columns
pub mod ParticleStore
pub mod IdUniqueness
