-- ===== src/Ids.antt =====
-- utils/id.h: the packed id of an entity, at the widths of utils/common.h: 2 bits for the dimension
-- and the domain, 20 for the partition, 40 for the entity, 4 for the flags, 60 for the global part.
-- What is stored in a bit field is cut to its width. Fields that do not overlap are joined by `+`
-- for `|`. `none` is a failed assertion.
pub mod Order
mod Tests
use flecsi.Base.{
  ℕ, ◌+◌, ◌*◌, ◌/◌, ◌%◌, ◌^◌, Bool, not, Option, none, some, ltb, ◌==◌, if◌then◌else◌,
}

-- `id_`
pub record EntityId : Type 0 where
  pub dimension : ℕ
  pub domain : ℕ
  pub partition : ℕ
  pub entity : ℕ
  pub flags : ℕ
  pub global : ℕ

-- `make<D, M>(local_id, partition_id, global, flags)`
unfoldable pub make_id : ℕ → ℕ → ℕ → ℕ → ℕ → ℕ → EntityId
make_id d m local_id partition_id global flags = record {
  dimension = d % 2 ^ 2;
  domain = m % 2 ^ 2;
  partition = partition_id % 2 ^ 20;
  entity = local_id % 2 ^ 40;
  flags = flags % 2 ^ 4;
  global = global % 2 ^ 60;
}

-- the constructor from a local id
unfoldable pub id_of : ℕ → EntityId
id_of local_id = make_id 0 0 local_id 0 0 0

unfoldable pub set_partition : EntityId → ℕ → EntityId
set_partition id partition = record id { partition = partition % 2 ^ 20 }

unfoldable pub set_flags : EntityId → ℕ → Option EntityId
set_flags id flags = if ltb flags (2 ^ 4) then some (record id { flags = flags % 2 ^ 4 }) else none

unfoldable pub set_global : EntityId → ℕ → EntityId
set_global id global = record id { global = global % 2 ^ 60 }

unfoldable pub set_local : EntityId → ℕ → EntityId
set_local id local = record id { entity = local % 2 ^ 40 }

-- `local_id()`, in a 64-bit integer
unfoldable pub local_id : EntityId → ℕ
local_id id =
    (id.dimension
      + (id.domain * 2 ^ 2) % 2 ^ 64
      + (id.partition * 2 ^ 4) % 2 ^ 64
      + (id.entity * 2 ^ (4 + 20)) % 2 ^ 64)
    % 2 ^ 64

-- `operator<`, `operator==` and `operator!=`
unfoldable pub less_id : EntityId → EntityId → Bool
less_id a b = ltb (local_id a) (local_id b)

unfoldable pub equal_id : EntityId → EntityId → Bool
equal_id a b = local_id a == local_id b

unfoldable pub differ_id : EntityId → EntityId → Bool
differ_id a b = not (equal_id a b)
