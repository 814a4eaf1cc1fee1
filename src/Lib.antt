-- ===== src/Lib.antt =====
-- HYOWON, a cosmological N-body code in C++: a model of its exact integer and control logic.
--
-- Math.ExactPositiveSum models include/cosmo_nbody/math/exact_positive_sum.hpp, the accumulator that
--   adds non-negative binary64 numbers exactly. A `double` is its bit pattern, a number below 2 ^ 64,
--   and a limb array is a list, the least significant limb first. `Outcome` is what a call leaves: the
--   new state, or an exception with the state that the object is left in. `carry_loop` counts the
--   limbs that are left, so it needs no fuel; `repeat_loop` has fuel 64, one round for each digit of a
--   64-bit count. `std::ldexp` is a parameter, with the law that it is exact on representable results.
--   `log_value` (long double logarithms) is left out.
-- Math.ExactSignedSum models include/cosmo_nbody/math/exact_signed_sum.hpp: two such accumulators, and
--   the comparison, borrow subtraction and rounding of their limbs. `std::ldexp` is a parameter here too;
--   Math.ExactPositiveSum.Rounding.Ldexp is a function that meets what is asked of it.
-- Math.ExactProductSum models include/cosmo_nbody/math/exact_binary64_product_sum.hpp: sums of products
--   of up to five binary64 factors, in 166 limbs. Math.ExactProductSum.Rounding is the rounding to a
--   bit pattern. The integer of a sum counts units of 2 ^ -5370.
-- Math.MpiExactUint64Sum models src/math/mpi_exact_uint64_sum.cpp in a build with MPI, the answers of
--   the library's calls being parameters.
-- Math.MpiExactNonnegativeSum models src/math/mpi_exact_nonnegative_sum.cpp in a build with MPI: the
--   local accumulation, of segments by several workers too, and what one rank does with the others
--   (Math.MpiExactNonnegativeSum.Collective). The answers of MPI to a rank are the record `Answers`; the
--   laws that connect those of all ranks are `Communicates`. The workers of a parallel loop share
--   nothing and run in turn. Math.ExactPositiveSum does the sums.
-- Runtime.ThreadPolicy models src/runtime/thread_policy.cpp; the OpenMP library is the record `OpenMp`,
--   a state with the calls that read and write its control variables. The sums of segments ask it for
--   their count of workers.
-- Core.IdUniqueness models include/cosmo_nbody/core/id_uniqueness.hpp, the check of ids by order, by a
--   bitmap or by a sorted copy; sorting numbers has one result, which an insertion sort computes.
-- Mesh.CicWorkspacePlan models src/mesh/cic_workspace_plan.cpp, the checked sizes of the arrays of a
--   deposit, for integers of eight bytes.
-- Mesh.XPlaneBins models the stable order of particles in src/mesh/mass_assignment_workspace.inc: the
--   counts of the threads, the offsets of the bins, and the second pass that writes each particle. The
--   threads write to different places between two barriers and run in turn; each loop counts what is
--   left of it.
-- Io.ContentHash models src/io/content_hash.cpp: the streaming SHA-256 with its staging buffer
--   (`Impl`, `update`, `finalize`), the compression function (Io.ContentHash.Compression, kept shut in
--   the proofs and run on a published digest) and the canonical encodings (Io.ContentHash.Canonical).
--   A loop over input has the count of its items as fuel; each round takes at least one. `sha256_file`
--   (system calls) and `sha256_particle_state` are left out.
-- Core.ParticleStore models include/cosmo_nbody/core/particle_store.hpp, the arrays of one rank
--   (Core.Columns: the vectors of its columns). A call is a function on the store that leaves an
--   `Outcome`; `Call` and `run` collect the calls that change it. Capacities are parameters of the one
--   call that reads them, and an allocation succeeds.
-- Analysis.Membership models src/analysis/membership_validation.hpp, the check of a group's members
--   against the particle store; a `std::unordered_set` is the list of its elements.
-- Halo.DisjointSet and Halo.Grid model the integer parts of src/halo/fof_membership.cpp: the
--   disjoint-set forest, for an index type of any width, and the checked sizes of the grid. `find` has
--   as much fuel as there are members; the floor of `std::cbrt` is a parameter.
-- Ic.Philox models src/ic/philox_rng.cpp: the rounds of the generator on words, and the 53-bit number
--   of two words; Box-Muller and the conversion to a real number are left out.
-- Mesh.PlanePartition models include/cosmo_nbody/mesh/detail/weighted_plane_partition.hpp, the ranges
--   of plane tasks for the workers; its binary search has fuel 64, as the bounds are 64-bit numbers.
-- Mesh.SlabLayout models src/mesh/mpi_slab_layout.cpp in a build without the FFTW MPI library, the
--   slabs of mesh planes for the ranks.
-- The floating-point solvers, statistics and integrators, and the other code that calls MPI, HDF5 and
--   FFTW, are not modelled.
pub mod Analysis
pub mod Common
pub mod Core
pub mod Halo
pub mod Ic
pub mod Io
pub mod Math
pub mod Mesh
pub mod Runtime
