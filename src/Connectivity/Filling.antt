-- ===== src/Connectivity/Filling.antt =====
-- The filling loops of `transpose`, as tables of rows.
use flecsi.Base.{
  ℕ, suc, ◌+◌, ◌<◌, ◌≡◌, refl, sym, ap, ◌∙◌, some, List, [], ◌∷◌, ◌++◌, append_assoc, append-nil,
  arith, length, get_elem?, get_or, set, length-append, ◌==◌, length-replicate, Bool-cases, ⊎_elim,
  ==_iff,
}
use flecsi.Connectivity.{Connectivity, set_id, fill_row, fill_all, bump}
use flecsi.Connectivity.Rows.{holding}
use flecsi.Connectivity.Refs.{
  tos_row, tos, RowBelow, RowsBelow, table, table_ext, length-table, get_elem?-table, get_or-table,
  update, set-table,
}
use flecsi.Connectivity.Fill.{zeros, set_id_lem}

-- Rows that are filled up to a point, with room for some more ids.
abbrev pub filling : ℕ → (ℕ → List ℕ) → (ℕ → ℕ) → List (List ℕ)
filling n filled room = table 0 n (λ f. filled f ++ zeros (room f))

abbrev positions : ℕ → (ℕ → List ℕ) → List ℕ
positions n filled = table 0 n (λ f. length (filled f))

set_next :
    (xs : List ℕ) (m v : ℕ) → set (xs ++ zeros (suc m)) (length xs) v ≡ (xs ++ v ∷ []) ++ zeros m
set_next [] m v = refl
set_next (x ∷ xs) m v = ap (λ l. x ∷ l) (set_next xs m v)

-- One id written into a row with room.
write_lem :
    (c : Connectivity) (n to g m : ℕ) (filled : ℕ → List ℕ) (room : ℕ → ℕ)
    → g < n
    → room g ≡ suc m
    → set_id (holding c (filling n filled room)) g to (get_or (positions n filled) g 0)
      ≡ holding c (filling n (update filled g (filled g ++ to ∷ [])) (update room g m))
write_lem c n to g m filled room lt e =
    let pos = get_or-table n g (λ f. length (filled f)) 0 lt in
    let row : get_elem? (filling n filled room) g ≡ some (filled g ++ zeros (suc m)) =
      get_elem?-table n g (λ f. filled f ++ zeros (room f)) lt
      ∙ ap (λ r. some (filled g ++ zeros r)) e in
    let z : length (zeros (suc m)) ≡ suc m = length-replicate (suc m) 0 in
    let below : length (filled g) < length (filled g ++ zeros (suc m)) =
      omega (arith, length-append (filled g) (zeros (suc m)), z) in
    let in_rows : g < length (filling n filled room) =
      omega (arith, length-table 0 n (λ f. filled f ++ zeros (room f))) in
    rw (pos) (
      set_id_lem c (filling n filled room) g (length (filled g)) to _ in_rows row below
      ∙ ap (λ r. holding c (set (filling n filled room) g r)) (set_next (filled g) m to)
      ∙ ap (holding c) (
          set-table n g (λ f. filled f ++ zeros (room f)) _ lt
          ∙ table_ext 0 n _ _
              (λ k lt'. ⊎_elim (λ t. rw t refl) (λ t. rw t refl) (Bool-cases (k == g)))))

bump_lem :
    (n to g : ℕ) (filled : ℕ → List ℕ)
    → g < n
    → bump (positions n filled) g ≡ positions n (update filled g (filled g ++ to ∷ []))
bump_lem n to g filled lt =
    let pos = get_or-table n g (λ f. length (filled f)) 0 lt in
    rw (pos) (
      set-table n g (λ f. length (filled f)) _ lt
      ∙ table_ext 0 n _ _ (λ k lt'.
        ⊎_elim (λ t. rw t (sym (length-append (filled g) (to ∷ [])))) (λ t. rw t refl)
          (Bool-cases (k == g))))

abbrev State : Type 0
State = Connectivity × List ℕ

abbrev pub state : Connectivity → ℕ → (ℕ → List ℕ) → (ℕ → ℕ) → State
state c n filled room = (holding c (filling n filled room), positions n filled)

state_ext :
    (c : Connectivity) (n : ℕ) (filled filled' : ℕ → List ℕ) (room room' : ℕ → ℕ)
    → ((f : ℕ) → filled f ≡ filled' f)
    → ((f : ℕ) → room f ≡ room' f)
    → state c n filled room ≡ state c n filled' room'
state_ext c n filled filled' room room' e r =
    let t =
      table_ext 0 n (λ f. filled f ++ zeros (room f)) (λ f. filled' f ++ zeros (room' f))
        (λ k lt. rw (e k, r k) refl) in
    let p =
      table_ext 0 n (λ f. length (filled f)) (λ f. length (filled' f)) (λ k lt. ap length (e k)) in
    rw (t, p) refl

-- The filling of one "from" entity of a row.
step_lem :
    (c : Connectivity) (n to g : ℕ) (row : List ℕ) (filled : ℕ → List ℕ) (room : ℕ → ℕ)
    → g < n
    → (
      set_id
          (holding c (filling n filled (λ f. length (tos_row f to (g ∷ row)) + room f)))
          g
          to
          (get_or (positions n filled) g 0),
      bump (positions n filled) g,
    )
      ≡ state c n (update filled g (filled g ++ to ∷ [])) (λ f. length (tos_row f to row) + room f)
unfolding tos_row
step_lem c n to g row filled room lt =
    let m = length (tos_row g to row) + room g in
    let more : length (tos_row g to (g ∷ row)) + room g ≡ suc m = ground arith in
    rw
      (
        write_lem c n to g m filled (λ f. length (tos_row f to (g ∷ row)) + room f) lt more,
        bump_lem n to g filled lt,
      )
      (state_ext c n _ _ _ _ (λ f. refl)
        (λ f.
          ⊎_elim (λ t. rw t (ap (λ k. length (tos_row k to row) + room k) (sym ((==_iff f g).0 t))))
            (λ t. rw t refl) (Bool-cases (f == g))))

fill_row_lem :
    (c : Connectivity) (n to : ℕ) (row : List ℕ) (filled : ℕ → List ℕ) (room : ℕ → ℕ)
    → RowBelow n row
    → fill_row to row (state c n filled (λ f. length (tos_row f to row) + room f))
      ≡ state c n (λ f. filled f ++ tos_row f to row) room
unfolding fill_row tos_row
fill_row_lem c n to [] filled room h =
    state_ext c n _ _ _ _ (λ f. sym (append-nil (filled f))) (λ f. omega arith)
fill_row_lem c n to (g ∷ row) filled room h =
    ap (fill_row to row) (step_lem c n to g row filled room h.0)
    ∙ fill_row_lem c n to row (update filled g (filled g ++ to ∷ [])) room h.1
    ∙ state_ext c n _ _ _ _
        (λ f.
          ⊎_elim
            (λ t.
              let e : f ≡ g = (==_iff f g).0 t in
              rw t (
                ap (λ x. (x ++ to ∷ []) ++ tos_row f to row) (ap filled (sym e))
                ∙ append_assoc (filled f) (to ∷ []) (tos_row f to row)))
            (λ t. rw t refl) (Bool-cases (f == g)))
        (λ f. refl)

pub fill_all_lem :
    (c : Connectivity) (n to : ℕ) (rows : List (List ℕ)) (filled : ℕ → List ℕ)
    → RowsBelow n rows
    → fill_all to rows (state c n filled (λ f. length (tos f to rows)))
      ≡ state c n (λ f. filled f ++ tos f to rows) (λ f. 0)
unfolding fill_all tos
fill_all_lem c n to [] filled h =
    state_ext c n _ _ (λ f. 0) (λ f. 0) (λ f. sym (append-nil (filled f))) (λ f. refl)
fill_all_lem c n to (row ∷ rows) filled h =
    ap (λ s. fill_all (suc to) rows (fill_row to row s))
      (state_ext c n _ _ _ _ (λ f. refl)
        (λ f. length-append (tos_row f to row) (tos f (suc to) rows)))
    ∙ ap (fill_all (suc to) rows)
        (fill_row_lem c n to row filled (λ f. length (tos f (suc to) rows)) h.0)
    ∙ fill_all_lem c n (suc to) rows (λ f. filled f ++ tos_row f to row) h.1
    ∙ state_ext c n _ _ (λ f. 0) (λ f. 0)
        (λ f. append_assoc (filled f) (tos_row f to row) (tos f (suc to) rows)) (λ f. refl)
