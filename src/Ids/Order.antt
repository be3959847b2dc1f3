-- ===== src/Ids/Order.antt =====
-- What the packing keeps, and the order of ids.
use flecsi.Base.{ℕ, ◌+◌, ◌*◌, ◌/◌, ◌%◌, ◌^◌, ◌<◌, ◌≡◌, ◌↔◌, ◌⊎◌, true, arith, ltb→lt, lt→ltb}
use flecsi.Ids.{EntityId, make_id, local_id, less_id}

-- Each field is within its width.
pub record Packed (id : EntityId) : Type 0 where
  pub dimension_fits : id.dimension < 4
  pub domain_fits : id.domain < 4
  pub partition_fits : id.partition < 2 ^ 20
  pub entity_fits : id.entity < 2 ^ 40

pub make_id-Packed : (d m l p g f : ℕ) → Packed (make_id d m l p g f)
unfolding make_id
make_id-Packed d m l p g f = record {
  dimension_fits = omega arith;
  domain_fits = omega arith;
  partition_fits = omega arith;
  entity_fits = omega arith;
}

-- The packed value, without wrap-around.
pub local_id_sum :
    (id : EntityId)
    → Packed id
    → local_id id ≡ id.dimension + 4 * id.domain + 16 * id.partition + 16777216 * id.entity
unfolding local_id
local_id_sum id h = omega (arith, h.dimension_fits, h.domain_fits, h.partition_fits, h.entity_fits)

-- What is read back from a packed value.
abbrev pub entity_of : ℕ → ℕ
entity_of l = l / 2 ^ 24

-- The dimension, the domain, the partition and the entity of an id whose fields fit can be read
-- back from its local id.
pub local_id-fields :
    (id : EntityId)
    → Packed id
    → (local_id id % 4 ≡ id.dimension)
      × (local_id id / 4 % 4 ≡ id.domain)
      × (local_id id / 16 % 2 ^ 20 ≡ id.partition)
      × (entity_of (local_id id) ≡ id.entity)
local_id-fields id h =
    let e = local_id_sum id h in
    (
      omega (arith, h.dimension_fits, h.domain_fits, h.partition_fits, h.entity_fits),
      omega (arith, h.dimension_fits, h.domain_fits, h.partition_fits, h.entity_fits),
      omega (arith, h.dimension_fits, h.domain_fits, h.partition_fits, h.entity_fits),
      omega (arith, h.dimension_fits, h.domain_fits, h.partition_fits, h.entity_fits),
    )

-- Ids whose fields fit are ordered by their entities first, then their partitions, their domains and
-- their dimensions; flags and global parts do not count.
pub less_id_iff :
    (a b : EntityId)
    → Packed a
    → Packed b
    → (less_id a b ≡ true) ↔ (
        (a.entity < b.entity)
        ⊎ ((a.entity ≡ b.entity)
            × ((a.partition < b.partition)
                ⊎ ((a.partition ≡ b.partition)
                    × ((a.domain < b.domain)
                        ⊎ ((a.domain ≡ b.domain) × (a.dimension < b.dimension)))))))
unfolding less_id
less_id_iff a b ha hb =
    let ea = local_id_sum a ha in
    let eb = local_id_sum b hb in
    let step = ltb→lt (local_id a) (local_id b) in
    let back = lt→ltb (local_id a) (local_id b) in
    (
      λ less.
          let lt = step less in
          ground (
            arith, ha.dimension_fits, ha.domain_fits, ha.partition_fits, hb.dimension_fits,
            hb.domain_fits, hb.partition_fits,
          ),
      λ lex. back (
          ground (
            arith, ha.dimension_fits, ha.domain_fits, ha.partition_fits, hb.dimension_fits,
            hb.domain_fits, hb.partition_fits,
          )),
    )
