-- ===== src/Build/Reorder.antt =====
-- utils/reorder.h: `reorder_destructive`, which moves value `i` to the place that the order gives it,
-- along the cycles of the order. `none` is an access out of bounds or fuel that runs out; an entry
-- of the order that is -1 is the largest `size_t`.
use flecsi.Base.{
  ℕ, zero, suc, ◌-◌, ◌^◌, Option, none, some, List, ◌==◌, if◌then◌else◌, length, get_elem?, set,
}
use flecsi.Connectivity.{and_then}

-- `index_t(-1)`
abbrev pub minus_one : ℕ
minus_one = 2 ^ 64 - 1

pub record Moving : Type 0 where
  pub order : List ℕ
  pub values : List (List ℕ)
  pub remaining : ℕ

-- The inner loop: `temp` is the value that goes to `d`. A negative `remaining` counts as 0.
unfoldable pub cycle_loop : ℕ → ℕ → ℕ → List ℕ → Moving → Option (Moving × List ℕ)
cycle_loop zero s d temp st = none
cycle_loop (suc fuel) s d temp st =
    if d == s
    then some (st, temp)
    else and_then (get_elem? st.values d) (λ out. and_then (get_elem? st.order d) (λ d2.
      cycle_loop fuel s d2 out (record {
        order = set st.order d minus_one;
        values = set st.values d temp;
        remaining = st.remaining - 1;
      })))

-- The outer loop, from `s` on.
unfoldable pub reorder_loop : ℕ → ℕ → Moving → Option (List (List ℕ))
reorder_loop zero s st = if st.remaining == 0 then some st.values else none
reorder_loop (suc fuel) s st =
    if st.remaining == 0
    then some st.values
    else and_then (get_elem? st.order s) (λ d.
      if d == minus_one
      then reorder_loop fuel (suc s) st
      else and_then (get_elem? st.values s) (λ temp.
        and_then
          (cycle_loop (suc (length st.order)) s d temp
            (record { order = st.order; values = st.values; remaining = st.remaining - 1 }))
          (λ moved. reorder_loop fuel (suc s) (record {
            order = moved.0.order;
            values = set moved.0.values s moved.1;
            remaining = moved.0.remaining;
          }))))

-- The whole routine; the order has as many entries as there are values.
unfoldable pub reorder_destructive : List ℕ → List (List ℕ) → Option (List (List ℕ))
reorder_destructive order values =
    reorder_loop (length order) 0
      (record { order = order; values = values; remaining = length order - 1 })
