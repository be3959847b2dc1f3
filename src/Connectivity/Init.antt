-- ===== src/Connectivity/Init.antt =====
-- `init` gives back the rows that it is given.
use flecsi.Base.{
  ℕ, ◌+◌, ◌%◌, ◌^◌, ◌≤◌, ◌≡◌, refl, sym, subst, ap, ◌∙◌, true, some, List, [], ◌∷◌, ◌++◌,
  append_assoc, append-nil, arith, length, get_elem?, concat, length-append, ltb,
}
use flecsi.Crs.Rows.{concat-append}
use flecsi.Connectivity.{
  Connectivity, with_ids, with_offsets, push, push_all, init_loop, init, clear, get_entities,
  and_then,
}
use flecsi.Connectivity.Rows.{stored, add_count_lem, holding, Fits, get_entities_lem}

push_all_lem :
    (iv : List ℕ) (c : Connectivity)
    → length c.ids + length iv ≤ c.id_capacity
    → push_all iv c ≡ some (with_ids c (c.ids ++ iv))
unfolding push_all push
push_all_lem [] c h = ap (λ l. some (with_ids c l)) (sym (append-nil c.ids))
push_all_lem (id ∷ iv) c h =
    let a : ltb (length c.ids) c.id_capacity ≡ true = ground arith in
    let l = length-append c.ids (id ∷ []) in
    rw (a) (push_all_lem iv (with_ids c (c.ids ++ id ∷ [])) (omega (arith, l)))
    ∙ ap (λ l. some (with_ids c l)) (append_assoc c.ids (id ∷ []) iv)

init_loop_lem :
    (c : Connectivity) (cv rows : List (List ℕ))
    → Fits c (rows ++ cv)
    → init_loop cv (holding c rows) ≡ some (holding c (rows ++ cv))
unfolding init_loop
init_loop_lem c [] rows fits = ap (λ l. some (holding c l)) (sym (append-nil rows))
init_loop_lem c (iv ∷ cv) rows fits =
    let l1 = length-append rows (iv ∷ cv) in
    let l2 = ap length (concat-append rows (iv ∷ cv)) in
    let l3 = length-append (concat rows) (iv ++ concat cv) in
    let l4 = length-append iv (concat cv) in
    let p = push_all_lem iv (holding c rows) (omega arith) in
    let m : length iv % 2 ^ 32 ≡ length iv = omega arith in
    let q =
      add_count_lem (with_ids (holding c rows) (concat rows ++ iv)) rows iv refl (omega arith)
        (omega arith) in
    let e : concat rows ++ iv ≡ concat (rows ++ iv ∷ []) =
      ap (λ l. concat rows ++ l) (sym (append-nil iv)) ∙ sym (concat-append rows (iv ∷ [])) in
    let a = append_assoc rows (iv ∷ []) cv in
    rw (p, m, q)
      (ap (λ l. init_loop cv (with_offsets (with_ids c l) (stored (rows ++ iv ∷ [])))) e
        ∙ init_loop_lem c cv (rows ++ iv ∷ []) (subst (Fits c) (sym a) fits)
        ∙ ap (λ l. some (holding c l)) a)

pub init_lem : (c : Connectivity) (cv : List (List ℕ)) → Fits c cv → init cv c ≡ some (holding c cv)
unfolding init clear stored
init_lem c cv fits = init_loop_lem c cv [] fits

-- Where the rows fit, `init` succeeds and stores them in place of what was there, and afterwards
-- `get_entities` gives each of them back.
pub init-get_entities :
    (c : Connectivity) (cv : List (List ℕ)) (i : ℕ) (r : List ℕ)
    → Fits c cv
    → get_elem? cv i ≡ some r
    → and_then (init cv c) (λ c. get_entities c i) ≡ some r
unfolding init clear stored
init-get_entities c cv i r fits at =
    rw (init_loop_lem c cv [] fits) (get_entities_lem c cv i r fits at)
