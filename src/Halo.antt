-- ===== src/Halo.antt =====
-- src/halo: the halo finders.
pub mod DisjointSet
pub mod Grid
