-- ===== src/Mesh.antt =====
-- include/cosmo_nbody/mesh and src/mesh: the partition of mesh planes over workers and over ranks.
pub mod PlanePartition
pub mod SlabLayout
mod Examples
pub mod CicWorkspacePlan
pub mod XPlaneBins
