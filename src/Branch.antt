-- ===== src/Branch.antt =====
-- topology/tree_topology.h, `branch_id_u`: the path of a branch in groups of `dimension` bits below a
-- leading bit, in an integer of `bits` bits. `none` is a failed assertion or a shift by the width of
-- the integer or more.
pub mod Depth
pub mod Path
mod Tests
use flecsi.Base.{
  ℕ, zero, suc, ◌+◌, ◌-◌, ◌*◌, ◌/◌, ◌%◌, ◌^◌, Bool, true, false, ◌&&◌, Option, none, some, ltb, leb,
  ◌==◌, if◌then◌else◌,
}

module _ (bits dimension : ℕ) where
  unfoldable pub max_depth : ℕ
  max_depth = (bits - 1) / dimension

  unfoldable pub root : ℕ
  root = 2 ^ ((bits - 1) % dimension)

  unfoldable pub is_null : ℕ → Bool
  is_null id = id == 0

  -- The loop of `depth`, with the number of bits as fuel.
  unfoldable pub depth_loop : ℕ → ℕ → ℕ
  depth_loop zero id = 0
  depth_loop (suc fuel) id =
      let rest = depth_loop fuel (id / 2 ^ dimension) in
      if id / 2 ^ dimension == 0 then 0 else suc rest

  unfoldable pub depth : ℕ → ℕ
  depth id = depth_loop bits id

  -- The bits go where the shift has put zeros.
  unfoldable pub push : ℕ → ℕ → Option ℕ
  push id group =
      if ltb group (2 ^ dimension) then some ((id * 2 ^ dimension) % 2 ^ bits + group) else none

  unfoldable pub pop : ℕ → Option ℕ
  pop id = if ltb 0 (depth id) then some (id / 2 ^ dimension) else none

  -- `pop(size_t d)`
  unfoldable pub pop_by : ℕ → ℕ → Option ℕ
  pop_by d id =
      if leb (depth id) d && ltb (d * dimension) bits then some (id / 2 ^ (d * dimension)) else none

  unfoldable pub parent : ℕ → ℕ
  parent id = id / 2 ^ dimension

  unfoldable pub truncate : ℕ → ℕ → ℕ
  truncate to_depth id =
      let d = depth id in if ltb d to_depth then id else id / 2 ^ ((d - to_depth) * dimension)
