-- ===== src/Lib.antt =====
-- Verification of the core data structures and algorithms of FleCSI.
--
-- FleCSI partitions a mesh or a grid over the ranks of a machine (the coloring), keeps the connections
-- between the entities of the local part (the topology), and schedules its own start-up actions along a
-- graph of dependencies. The modules model this core; what a rank computes is a function of its
-- arguments, the rank and the size, which MPI gives.
--
-- The parts and their files:
--   Base, StdSet, Words   shared names and lemmas: lists under native indices, Boolean tests,
--                         `std::set<size_t>` as a sorted list, and 64-bit differences.
--   Partition             flecsi/coloring/dcrs_utils.h: `subdivide`, `rank_owner` and `naive_coloring`.
--                         Bounds has the boundaries in closed form, Owner the search of a rank among
--                         them, Coloring the indices of a rank.
--   Crs                   flecsi/coloring/crs.h: `crs_t` as its two vectors. Rows reads it as a list of
--                         rows, Keeping and Erase follow `erase`.
--   Dag                   flecsi/utils/dag.h: `dag_u`, the map as an association list by its
--                         keys, the node policy as a parameter. Settle, Round, Nodes and Sort have the
--                         lemmas on `sort`, Order its theorems.
--   Box                   flecsi/coloring/box_types.h and flecsi/coloring/simple_box_colorer.h: one axis
--                         of a box in Box itself, the loops of dimension 2 and 3 in Plane and Space,
--                         `color` in Color. Indices is about the numbering of the colors, Spans, Primary
--                         and Neighbors about the parts of one axis, Axis about segments and counting,
--                         PlaneRounds, PlaneTiles, SpaceRounds and SpaceTiles about the loops, PlaneParts,
--                         PlaneColor, SpaceParts and SpaceColor about `color`.
--   Connectivity          flecsi/topology/connectivity.h with the offsets of
--                         flecsi/topology/common/entity_storage.h, over arrays of fixed capacity
--                         (flecsi/utils/array_ref.h, `vector_ref`), and `transpose` and `intersect` of
--                         flecsi/topology/mesh_topology.h. Rows reads the storage as a list of rows,
--                         Init and Fill follow `init`, `resize` and the writes, Refs says which entities
--                         refer to which, Filling and Transpose follow `transpose`. Intersect has
--                         `intersect`, with flecsi/utils/set_intersection.h, and Picks what it adds;
--                         Sorting is about the order by
--                         global ids, Ascending about sorted lists, Merge about the merge loops.
--   Branch                flecsi/topology/tree_topology.h: the branch ids of the tree topology. Depth is
--                         about the loop of `depth` and shifts, Path about the operations.
--   Offset                flecsi/utils/offset.h: `offset_u`, a start and a count in one integer.
--   Concurrency           flecsi/concurrency/virtual_semaphore.h and flecsi/concurrency/thread_pool.h.
--                         Semaphore has the semaphore's operations as one thread runs them, Counts what
--                         they keep; Pool where a thread stands and its moves, Schedule the
--                         interleavings of any number of workers and clients. Family is about values
--                         given for each thread; Weights, Effects, Invariant and Keeping are the
--                         invariant of all schedules, Safety and Stall what follows.
--   Graph                 The graph of entities that share vertices: `make_dcrs` and
--                         `make_dcrs_have_connectivity` of flecsi/coloring/dcrs_utils.h, and
--                         flecsi/topology/closure_utils.h, over the abstract mesh of
--                         flecsi/topology/mesh_definition.h. Counts and Cells follow the loops that
--                         count shared vertices, Chosen is about numbers that pass a test; Closure has
--                         the functions of closure_utils.h and Neighbors what they compute; Rows is
--                         about the rows of `make_dcrs`, Through and Distinct about the other function.
--   Ids                   flecsi/utils/id.h: the packed id of an entity, at the widths of
--                         flecsi/utils/common.h. Order is about what the packing keeps.
--   Build                 `build_connectivity` of flecsi/topology/mesh_topology.h, with
--                         `reorder_destructive` of flecsi/utils/reorder.h in Reorder. Firsts follows the
--                         loop over the entities of a cell, Unique that over the cells, Cycles the loops of
--                         the reordering; Result is about the two connectivities.
--   Registry              flecsi/execution/context.h: what the context registers, with the types of
--                         flecsi/coloring/coloring_types.h and index_coloring.h. Indices is about index
--                         maps, Fields about field information, Reverse about intermediate entities.
--   RowVector             flecsi/data/common/row_vector.h: `row_vector_u`, a growing buffer. Copies has
--                         the loops that copy elements, Rows `insert` and `erase`, Assign the rest.
--
-- How the parts interact: `naive_coloring` and `rank_owner` compute the same partition twice and are
-- proved to agree; `transpose` calls `resize`, `set` and `get_entities` of the connectivity, in the order
-- of the code; the storage of a connectivity and that of a `crs_t` have the same offsets, and share the
-- lemmas of Crs/Rows. The graph takes its distribution from `subdivide` and its rows are a `crs_t`; the
-- neighbours of closure_utils.h are proved to be those of the graph. The thread pool is built on the
-- semaphore: a step of the pool that changes the count is an operation of the semaphore. The mesh
-- topology builds entities from vertex ids, compared by their packed form, and stores the result by
-- `init` of the connectivity; the maps it asks the context for are those of Registry.
--
-- Numbers are natural numbers. `size_t` differences and the colors of neighbours wrap modulo 2^64, ids,
-- offsets and counts of a connectivity modulo 2^32; sums of bounds, sizes and ranks are taken to fit in
-- their type, which the theorems state as a hypothesis where it matters. A failed assertion, a full
-- array and an access out of bounds are the result `none`; `erase` of a `crs_t` tells them apart.
--
-- The threads of a pool take steps in any order, each a single access to what others may change, or a run
-- of accesses under the mutex that protects them. A wait may return without a notification. The count of
-- a semaphore is a natural number that is not bounded by the range of `int`.
--
-- Loops over containers are structural recursion. The `while` loop of `dag_u::sort` runs on as much fuel
-- as there are nodes, which is proved to be enough; the visits of a node in one round run on the length
-- of its edge list, which shrinks at each visit but the last. The loop of `branch_id_u::depth` runs on
-- the width of the integer, and each round shifts out at least one bit. The merge loops of `intersects`
-- and `std::includes` run on the sum of the lengths of the two lists and one more; each round drops an
-- element. The loops of `reorder_destructive` run on the length of the order, which is enough for a
-- permutation; where the order is none, the fuel may run out, which is the result `none`.
--
-- Not modelled: the specialisation of a mesh, whose `create_entities` is a function given to the model;
-- the sorting branch of `build_reverse_intermediate_maps`; the back ends for Legion, HPX and MPI with their task launchers and storage, the
-- colorers that call ParMETIS and Metis, the HDF5 and Exodus files, the front end of templates that
-- declares tasks, data handles and control points, the tools around the library, and the functions that
-- print.
pub mod Base
pub mod StdSet
pub mod Words
pub mod Partition
pub mod Crs
pub mod Dag
pub mod Box
pub mod Connectivity
pub mod Branch
pub mod Offset
pub mod Concurrency
pub mod Graph
pub mod Ids
pub mod Build
pub mod Registry
pub mod RowVector
