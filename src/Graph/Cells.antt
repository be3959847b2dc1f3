-- ===== src/Graph/Cells.antt =====
-- What the loop over the cells computes: each cell's list has exactly the other cells that share
-- more vertices with it than the dimension through which they are connected, in increasing order.
use flecsi.Base.{
  ℕ, zero, suc, ◌+◌, ◌≤◌, ◌<◌, ◌≡◌, ◌≢◌, refl, sym, ap, ◌∙◌, Bool, true, false, not, ◌&&◌, List, [],
  ◌∷◌, ◌++◌, arith, ltb, ◌==◌, if◌then◌else◌, ==_iff, ==_refl, append-nil, append_assoc, lt→ltb,
  le→ltb_false,
}
use native.Mathlib.Decide.{ℕ_discrete, dec_lt}
use flecsi.StdSet.{member, AllAbove, IsSorted}
use flecsi.Graph.{
  MeshDefinition, CellMaps, push_at, vertex_loop, link_loop, cell_round, cell_loop, cell2cells_of,
}
use flecsi.Graph.Counts.{
  occurrences, shared, shared_comm, shared-nil, lookup, keys, lookup-above, occurrences-vertex_loop,
  vertex_loop-IsSorted, lookup-vertex_loop, lookup-vertex_loop_self,
}
use flecsi.Graph.Chosen.{chosen, member-chosen, chosen-IsSorted, sorted_ext}

-- The cells that are counted more often than `thru`.
unfoldable links : ℕ → List (ℕ × ℕ) → List ℕ
links thru [] = []
links thru ((o, n) ∷ m) = if ltb thru n then o ∷ links thru m else links thru m

AllAbove-links : (b thru : ℕ) (m : List (ℕ × ℕ)) → AllAbove b (keys m) → AllAbove b (links thru m)
unfolding links keys
AllAbove-links b thru [] above = tt
AllAbove-links b thru ((o, n) ∷ m) above = ground (arith, AllAbove-links b thru m above.1)

links-IsSorted : (thru : ℕ) (m : List (ℕ × ℕ)) → IsSorted (keys m) → IsSorted (links thru m)
unfolding links keys
links-IsSorted thru [] srt = tt
links-IsSorted thru ((o, n) ∷ m) srt =
    ground (arith, links-IsSorted thru m srt.1, AllAbove-links o thru m srt.0)

member-links :
    (x thru : ℕ) (m : List (ℕ × ℕ))
    → IsSorted (keys m)
    → member x (links thru m) ≡ ltb thru (lookup x m)
unfolding links keys lookup member
member-links x thru [] srt = ground arith
member-links x thru ((o, n) ∷ m) srt =
    ground (arith, member-links x thru m srt.1, lookup-above x o m srt.0, ==_iff x o)

-- What the loop over the counts appends to the list of cell `x`.
link_loop_self :
    (thru cell : ℕ) (m : List (ℕ × ℕ)) (c2c : ℕ → List ℕ)
    → member cell (links thru m) ≡ false
    → link_loop thru cell m c2c cell ≡ c2c cell ++ links thru m
unfolding link_loop links member
link_loop_self thru cell [] c2c out = sym (append-nil (c2c cell))
link_loop_self thru cell ((o, n) ∷ m) c2c out =
    let next : ℕ → List ℕ = if ltb thru n then push_at o cell (push_at cell o c2c) else c2c in
    let out' : member cell (links thru m) ≡ false = ground arith in
    let here : next cell ≡ c2c cell ++ (if ltb thru n then o ∷ [] else []) =
      ground (arith, ==_iff cell o, append-nil (c2c cell)) in
    ground (
      arith,
      link_loop_self thru cell m next out',
      here,
      append_assoc (c2c cell) (o ∷ []) (links thru m),
      append-nil (c2c cell),
    )

link_loop_other :
    (thru cell x : ℕ) (m : List (ℕ × ℕ)) (c2c : ℕ → List ℕ)
    → x ≢ cell
    → IsSorted (keys m)
    → link_loop thru cell m c2c x ≡ c2c x ++ (if member x (links thru m) then cell ∷ [] else [])
unfolding link_loop links member keys
link_loop_other thru cell x [] c2c ne srt = sym (append-nil (c2c x))
link_loop_other thru cell x ((o, n) ∷ m) c2c ne srt =
    let next : ℕ → List ℕ = if ltb thru n then push_at o cell (push_at cell o c2c) else c2c in
    let out : ((x == o) ≡ true) → member x (links thru m) ≡ false = λ e.
      member-links x thru m srt.1
      ∙ rw (lookup-above x o m srt.0 (ground (arith, e))) (ground arith) in
    let here : next x ≡ c2c x ++ (if ltb thru n && x == o then cell ∷ [] else []) =
      ground (arith, ==_iff x cell, ==_iff x o, append-nil (c2c x)) in
    ground (
      arith,
      link_loop_other thru cell x m next ne srt.1,
      here,
      out,
      append-nil (c2c x),
      append-nil (c2c x ++ cell ∷ []),
    )

module _ (md : MeshDefinition) (from thru : ℕ) where
  abbrev vertices : ℕ → List ℕ
  vertices = md.entities from 0

  -- Two different cells share more than `thru` vertices.
  unfoldable pub linked : ℕ → ℕ → Bool
  linked x o = not (o == x) && ltb thru (shared (vertices x) (vertices o))

  linked_comm : (x o : ℕ) → linked x o ≡ linked o x
  unfolding linked
  linked_comm x o = ground (arith, shared_comm (vertices x) (vertices o), ==_iff o x, ==_iff x o)

  linked_self : (x : ℕ) → linked x x ≡ false
  unfolding linked
  linked_self x = rw (==_refl x) refl

  -- What the maps have when the cells below `c` are done.
  record Filled (c : ℕ) (maps : CellMaps) : Type 0 where
    seen :
        (o v : ℕ)
        → occurrences o (maps.vertex2cells v) ≡ (if ltb o c then occurrences v (vertices o) else 0)
    met : (x : ℕ) → maps.cell2cells x ≡ (if ltb x c then chosen (linked x) c else [])

  abbrev counts_of : ℕ → CellMaps → List (ℕ × ℕ)
  counts_of c maps = (vertex_loop c (vertices c) maps.vertex2cells []).1

  counts-IsSorted : (c : ℕ) (maps : CellMaps) → IsSorted (keys (counts_of c maps))
  unfolding keys
  counts-IsSorted c maps = vertex_loop-IsSorted c (vertices c) maps.vertex2cells [] tt

  lookup-counts :
      (c : ℕ) (maps : CellMaps)
      → Filled c maps
      → (o : ℕ)
      → lookup o (counts_of c maps) ≡ (if ltb o c then shared (vertices c) (vertices o) else 0)
  unfolding keys lookup occurrences
  lookup-counts c maps h o = elim (ℕ_discrete o c) [
    | yes e ↦ rw e (lookup-vertex_loop_self c (vertices c) maps.vertex2cells [] tt ∙ ground arith)
    | no ne ↦ elim (dec_lt o c) [
      | yes lt ↦
          let same : (v : ℕ) → occurrences o (maps.vertex2cells v) ≡ occurrences v (vertices o) =
            λ v. h.seen o v ∙ rw (lt→ltb o c lt) refl in
          rw (lt→ltb o c lt) (
            lookup-vertex_loop o c (vertices o) (vertices c) maps.vertex2cells [] ne tt same
            ∙ omega arith)
      | no ge ↦
          let none : (v : ℕ) → occurrences o (maps.vertex2cells v) ≡ occurrences v [] =
            λ v. h.seen o v ∙ rw (le→ltb_false o c (omega arith)) refl in
          rw (le→ltb_false o c (omega arith)) (
            lookup-vertex_loop o c [] (vertices c) maps.vertex2cells [] ne tt none
            ∙ omega (arith, shared-nil (vertices c)))
    ]
  ]

  links-counts :
      (c : ℕ) (maps : CellMaps)
      → Filled c maps
      → links thru (counts_of c maps) ≡ chosen (linked c) c
  unfolding linked
  links-counts c maps h =
      sorted_ext (links thru (counts_of c maps)) (chosen (linked c) c)
        (links-IsSorted thru (counts_of c maps) (counts-IsSorted c maps))
        (chosen-IsSorted (linked c) c)
        (λ x.
          member-links x thru (counts_of c maps) (counts-IsSorted c maps)
          ∙ ap (ltb thru) (lookup-counts c maps h x)
          ∙ ground (arith, member-chosen (linked c) c x, ==_iff x c))

  met_self :
      (c : ℕ) (maps : CellMaps)
      → Filled c maps
      → link_loop thru c (counts_of c maps) maps.cell2cells c ≡ chosen (linked c) (suc c)
  unfolding chosen
  met_self c maps h =
      let e = links-counts c maps h in
      let out : member c (links thru (counts_of c maps)) ≡ false =
        rw (e) (member-chosen (linked c) c c ∙ ground arith) in
      let none : maps.cell2cells c ≡ [] = h.met c ∙ rw (le→ltb_false c c (omega arith)) refl in
      link_loop_self thru c (counts_of c maps) maps.cell2cells out
      ∙ rw (none, e, linked_self c) (sym (append-nil (chosen (linked c) c)))

  met_other :
      (c : ℕ) (maps : CellMaps)
      → Filled c maps
      → (x : ℕ) → x ≢ c
      → link_loop thru c (counts_of c maps) maps.cell2cells x
        ≡ (if ltb x (suc c) then chosen (linked x) (suc c) else [])
  unfolding chosen
  met_other c maps h x ne =
      let e = links-counts c maps h in
      let first =
        link_loop_other thru c x (counts_of c maps) maps.cell2cells ne (counts-IsSorted c maps) in
      let own : member x (links thru (counts_of c maps)) ≡ (ltb x c && linked c x) =
        rw (e) (member-chosen (linked c) c x) in
      first ∙ ground (arith, own, h.met x, linked_comm c x)

  cell_round-Filled :
      (c : ℕ) (maps : CellMaps) → Filled c maps → Filled (suc c) (cell_round md from thru c maps)
  unfolding cell_round
  cell_round-Filled c maps h = record {
    seen = λ o v. ground (
      arith,
      occurrences-vertex_loop o c v (vertices c) maps.vertex2cells [],
      h.seen o v,
      ==_iff o c,
    );
    met = λ x. elim (ℕ_discrete x c) [
      | yes e ↦ rw (e, lt→ltb c (suc c) (omega arith)) (met_self c maps h)
      | no ne ↦ met_other c maps h x ne
    ];
  }

  cell_loop-Filled :
      (rounds c n : ℕ) (maps : CellMaps)
      → c + rounds ≡ n
      → Filled c maps
      → Filled n (cell_loop md from thru rounds c maps)
  unfolding cell_loop
  cell_loop-Filled zero c n maps e h = let e' : c ≡ n = omega arith in rw (← e') h
  cell_loop-Filled (suc rounds) c n maps e h =
      cell_loop-Filled rounds (suc c) n (cell_round md from thru c maps) (omega arith)
        (cell_round-Filled c maps h)

  -- The neighbours of a cell, in increasing order: the other cells of the mesh with which it has
  -- more than `thru` pairs of equal vertices.
  unfoldable pub neighbors_of : ℕ → List ℕ
  neighbors_of cell = chosen (linked cell) (md.num_entities from)

  -- At the end of the loop the list of each cell of the mesh is that of its neighbours.
  pub cell2cells_of-neighbors :
      (cell : ℕ) → cell < md.num_entities from → cell2cells_of md from thru cell ≡ neighbors_of cell
  unfolding cell2cells_of neighbors_of occurrences
  cell2cells_of-neighbors cell lt =
      let n : ℕ = md.num_entities from in
      let nothing : CellMaps = record { vertex2cells = λ v. []; cell2cells = λ c. [] } in
      let start : Filled 0 nothing = record {
        seen = λ o v. ground arith;
        met = λ x. ground arith;
      } in
      (cell_loop-Filled n 0 n nothing (omega arith) start).met cell ∙ rw (lt→ltb cell n lt) refl

  -- It is empty for a number that is no cell, so `cell2cells` has no other entry.
  pub cell2cells_of-outside :
      (cell : ℕ) → md.num_entities from ≤ cell → cell2cells_of md from thru cell ≡ []
  unfolding cell2cells_of occurrences
  cell2cells_of-outside cell ge =
      let n : ℕ = md.num_entities from in
      let nothing : CellMaps = record { vertex2cells = λ v. []; cell2cells = λ c. [] } in
      let start : Filled 0 nothing = record {
        seen = λ o v. ground arith;
        met = λ x. ground arith;
      } in
      (cell_loop-Filled n 0 n nothing (omega arith) start).met cell
      ∙ rw (le→ltb_false cell n ge) refl

  pub member-neighbors :
      (cell other : ℕ)
      → member other (neighbors_of cell) ≡ (
          ltb other (md.num_entities from)
          && not (other == cell)
          && ltb thru (shared (vertices cell) (vertices other)))
  unfolding neighbors_of linked
  member-neighbors cell other =
      ground (arith, member-chosen (linked cell) (md.num_entities from) other)
