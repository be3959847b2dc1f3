-- ===== src/Graph/Rows.antt =====
-- `make_dcrs` in coloring/dcrs_utils.h: the rows that a rank gets, and how the rows of all ranks
-- fit together.
use flecsi.Base.{
  ℕ, zero, suc, ◌+◌, ◌-◌, ◌≤◌, ◌<◌, ◌≡◌, refl, sym, ap, ◌∙◌, none, some, List, [], ◌∷◌, ◌++◌, arith,
  ltb, if◌then◌else◌, length, get_or, lt→ltb, le→ltb_false, subst, if_some, ltb→lt, ==_iff, concat,
  length-append, append-nil, append_assoc,
}
use native.Mathlib.Decide.{dec_lt}
use flecsi.Crs.{Crs, row_at}
use flecsi.Crs.Rows.{
  offsets_from, get_elem?-none, Represents, stored, row_at_lem, concat-append, offsets_from-snoc,
  get_or-offsets_from,
}
use flecsi.Connectivity.Refs.{table, length-table, get_elem?-table}
use flecsi.Partition.{part_size, subdivide}
use flecsi.Partition.Bounds.{bound, bound-suc, bound_end, bound_mono, get_or-subdivide}
use flecsi.Graph.{MeshDefinition, row_loop, make_dcrs, cell2cells_of}
use flecsi.Graph.Counts.{shared_comm}
use flecsi.Graph.Cells.{neighbors_of, cell2cells_of-neighbors, member-neighbors}
use flecsi.StdSet.{member}

end_offset :
    (rows : List (List ℕ)) → get_or (offsets_from 0 rows) (length rows) 0 ≡ 0 + length (concat rows)
end_offset rows =
    let sum : get_or (offsets_from 0 (rows ++ [])) (length rows) 0 ≡ 0 + length (concat rows) =
      get_or-offsets_from 0 rows [] in
    ap (λ l. get_or (offsets_from 0 l) (length rows) 0) (sym (append-nil rows)) ∙ sum

-- The loop appends the lists of the cells from `base + i` on.
pub row_loop-Represents :
    (c2c : ℕ → List ℕ) (distribution : List ℕ) (rank base rounds i : ℕ) (crs : Crs)
    (rows : List (List ℕ))
    → get_or distribution rank 0 ≡ base
    → length rows ≡ i
    → crs.offsets ≡ offsets_from 0 rows
    → crs.indices ≡ concat rows
    → Represents
        (row_loop c2c distribution rank rounds i crs)
        (rows ++ table i rounds (λ k. c2c (base + k)))
unfolding row_loop table
row_loop-Represents c2c distribution rank base zero i crs rows hb hl ho hi =
    rw (append-nil rows) (stored ho hi)
row_loop-Represents c2c distribution rank base (suc rounds) i crs rows hb hl ho hi =
    let others : List ℕ = c2c (base + i) in
    let at_base : c2c (get_or distribution rank 0 + i) ≡ others = rw (hb) refl in
    let end : get_or crs.offsets i 0 ≡ 0 + length (concat rows) = rw (ho, ← hl) (end_offset rows) in
    rw (at_base, ← append_assoc rows (others ∷ []) (table (suc i) rounds (λ k. c2c (base + k))))
      (row_loop-Represents c2c distribution rank base rounds (suc i) _ (rows ++ others ∷ []) hb
        (length-append rows (others ∷ []) ∙ omega arith)
        (rw (end, ho) (sym (offsets_from-snoc 0 rows others)))
        (rw (hi) (
          sym (concat-append rows (others ∷ []) ∙ ap (λ l. concat rows ++ l) (append-nil others)))))

module _ (md : MeshDefinition) (from thru size rank : ℕ) where
  abbrev n : ℕ
  n = md.num_entities from

  cell_below : (i : ℕ) → rank < size → i < part_size n size rank → bound n size rank + i < n
  cell_below i lt le =
      let rest : ℕ = size - suc rank in
      let e : suc rank + rest ≡ size = omega arith in
      let top : bound n size (suc rank) ≤ bound n size size =
        subst (λ k. bound n size (suc rank) ≤ bound n size k) e
          (bound_mono n size (suc rank) rest) in
      let next = bound-suc n size rank in let last = bound_end n size (omega arith) in omega arith

  -- `make_dcrs` gives a rank the boundaries of all ranks, and as its row `i` the neighbours of the
  -- `i`-th cell of its own part; it has a row for each cell of the part and no other.
  pub make_dcrs-row_at :
      (i : ℕ)
      → rank < size
      → ((make_dcrs md from thru size rank).distribution ≡ subdivide n size [])
        × (row_at (make_dcrs md from thru size rank).crs i ≡ (
            if ltb i (part_size n size rank)
            then some (neighbors_of md from thru (bound n size rank + i))
            else none))
  unfolding make_dcrs offsets_from
  make_dcrs-row_at i lt =
      let c2c : ℕ → List ℕ = cell2cells_of md from thru in
      let rows : List (List ℕ) =
        table 0 (part_size n size rank) (λ k. c2c (bound n size rank + k)) in
      let held : Represents (make_dcrs md from thru size rank).crs rows =
        row_loop-Represents c2c (subdivide n size []) rank (bound n size rank)
          (part_size n size rank) 0 (record { offsets = 0 ∷ []; indices = [] }) []
          (get_or-subdivide n size rank (omega arith)) refl refl refl in
      (
        refl,
        row_at_lem (make_dcrs md from thru size rank).crs rows i held
            ∙ elim (dec_lt i (part_size n size rank)) [
              | yes le ↦ rw (lt→ltb i (part_size n size rank) le) (
                  get_elem?-table (part_size n size rank) i (λ k. c2c (bound n size rank + k)) le
                  ∙ ap some (
                      cell2cells_of-neighbors md from thru (bound n size rank + i)
                        (cell_below i lt le)))
              | no ge ↦ rw (le→ltb_false i (part_size n size rank) (omega arith)) (
                  get_elem?-none rows i (
                    omega (
                      arith,
                      length-table 0 (part_size n size rank) (λ k. c2c (bound n size rank + k)),
                    )))
            ],
      )

module _ (md : MeshDefinition) (from thru size : ℕ) where
  abbrev total : ℕ
  total = md.num_entities from

  made_row :
      (rank i : ℕ) (xs : List ℕ)
      → rank < size
      → row_at (make_dcrs md from thru size rank).crs i ≡ some xs
      → (i < part_size total size rank)
        × (neighbors_of md from thru (bound total size rank + i) ≡ xs)
  made_row rank i xs lt e =
      let got =
        if_some (ltb i (part_size total size rank))
          (neighbors_of md from thru (bound total size rank + i)) xs
          (sym (make_dcrs-row_at md from thru size rank i lt).1 ∙ e) in
      (ltb→lt i (part_size total size rank) got.0, sym got.1)

  -- The graph is symmetric across ranks: if `xs` is row `i` of rank `r` and `ys` row `j` of rank
  -- `q`, then `xs` has the cell of `ys` exactly when `ys` has the cell of `xs`.
  pub make_dcrs-symmetric :
      (r q i j : ℕ) (xs ys : List ℕ)
      → r < size
      → q < size
      → row_at (make_dcrs md from thru size r).crs i ≡ some xs
      → row_at (make_dcrs md from thru size q).crs j ≡ some ys
      → member (get_or (make_dcrs md from thru size q).distribution q 0 + j) xs
        ≡ member (get_or (make_dcrs md from thru size r).distribution r 0 + i) ys
  unfolding make_dcrs
  make_dcrs-symmetric r q i j xs ys lt lt' at_i at_j =
      let a = made_row r i xs lt at_i in
      let b = made_row q j ys lt' at_j in
      let c : ℕ = bound total size r + i in
      let d : ℕ = bound total size q + j in
      let below = cell_below md from thru size r i lt a.0 in
      let below' = cell_below md from thru size q j lt' b.0 in
      rw
        (
          get_or-subdivide total size q (omega arith),
          get_or-subdivide total size r (omega arith),
          ← a.1,
          ← b.1,
        )
        (ground (
          arith,
          member-neighbors md from thru c d,
          member-neighbors md from thru d c,
          shared_comm (md.entities from 0 c) (md.entities from 0 d),
          ==_iff c d,
          ==_iff d c,
          lt→ltb c total below,
          lt→ltb d total below',
        ))
