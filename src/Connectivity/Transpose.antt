-- ===== src/Connectivity/Transpose.antt =====
-- `transpose` stores, for each "from" entity, the "to" entities that refer to it.
use mathlib.Core.List.{Permᴰ}
use flecsi.Base.{
  Option, ℕ, zero, suc, ◌+◌, ◌<◌, ◌≡◌, refl, sym, subst, ap, ◌∙◌, true, false, some, List, [], ◌∷◌,
  ◌++◌, append-nil, arith, length, get_elem?, set, concat, length-append, ltb, ◌==◌, if◌then◌else◌,
  replicate, length-replicate, map, Bool-cases, ⊎_elim, ==_iff,
}
use flecsi.Connectivity.{
  Connectivity, get_entities, and_then, fill_all, insert_by, sort_by, sort_rows, transpose,
}
use flecsi.Connectivity.Rows.{holding, Fits, get_entities_lem}
use flecsi.Connectivity.Sorting.{
  AscendingBy, AllKnown, sort_by-AscendingBy, sort_by-perm, sort_row_lem, tos-AllKnown,
  rows_within_lem,
}
use flecsi.Connectivity.Refs.{
  tos, RowsBelow, table, table_ext, length-table, get_elem?-table, update, set-table,
  replicate-table, count_all_lem,
}
use flecsi.Connectivity.Fill.{zeros, resize_lem, put_row_lem}
use flecsi.Connectivity.Filling.{filling, state, fill_all_lem}

-- The rows before `k` are sorted.
abbrev sorting : (ℕ → ℕ) → (ℕ → List ℕ) → ℕ → ℕ → List ℕ
sorting gid g k f = if ltb f k then sort_by gid (g f) else g f

length-insert_by :
    (gid : ℕ → ℕ) (x : ℕ) (ys : List ℕ) → length (insert_by gid x ys) ≡ suc (length ys)
unfolding insert_by
length-insert_by gid x [] = refl
length-insert_by gid x (y ∷ ys) = ground (arith, length-insert_by gid x ys)

length-sort_by : (gid : ℕ → ℕ) (xs : List ℕ) → length (sort_by gid xs) ≡ length xs
unfolding sort_by
length-sort_by gid [] = refl
length-sort_by gid (x ∷ xs) =
    length-insert_by gid x (sort_by gid xs) ∙ ap suc (length-sort_by gid xs)

length-concat-table :
    (s n : ℕ) (g h : ℕ → List ℕ)
    → ((k : ℕ) → length (g k) ≡ length (h k))
    → length (concat (table s n g)) ≡ length (concat (table s n h))
unfolding table
length-concat-table s zero g h e = refl
length-concat-table s (suc n) g h e = omega (
  arith,
  length-append (g s) (concat (table (suc s) n g)),
  length-append (h s) (concat (table (suc s) n h)),
  e s,
  length-concat-table (suc s) n g h e,
)

-- Whether rows fit depends on their lengths.
Fits-same :
    (c : Connectivity) (n : ℕ) (g h : ℕ → List ℕ)
    → ((k : ℕ) → length (g k) ≡ length (h k))
    → Fits c (table 0 n g)
    → Fits c (table 0 n h)
Fits-same c n g h e fits =
    let l = length-concat-table 0 n g h e in
    let a = length-table 0 n g in
    let b = length-table 0 n h in (omega arith, omega arith, omega arith, omega arith)

length-sorting :
    (gid : ℕ → ℕ) (g : ℕ → List ℕ) (k f : ℕ) → length (g f) ≡ length (sorting gid g k f)
length-sorting gid g k f = ground (arith, length-sort_by gid (g f))

sort_rows_lem :
    (c : Connectivity) (gid : ℕ → ℕ) (gid_at : ℕ → Option ℕ) (g : ℕ → List ℕ) (n k left : ℕ)
    → ((f : ℕ) → AllKnown gid gid_at (g f))
    → k + left ≡ n
    → Fits c (table 0 n g)
    → sort_rows gid_at left k (holding c (table 0 n (sorting gid g k)))
      ≡ some (holding c (table 0 n (sorting gid g n)))
unfolding sort_rows
sort_rows_lem c gid gid_at g n k zero known e fits =
    ap (λ k. some (holding c (table 0 n (sorting gid g k)))) (omega arith)
sort_rows_lem c gid gid_at g n k (suc left) known e fits =
    let rows = table 0 n (sorting gid g k) in
    let lt : k < n = omega arith in
    let here : ltb k k ≡ false = ground arith in
    let at : get_elem? rows k ≡ some (g k) =
      get_elem?-table n k (sorting gid g k) lt ∙ rw here refl in
    let got =
      get_entities_lem c rows k (g k)
        (Fits-same c n g (sorting gid g k) (length-sorting gid g k) fits) at in
    let put =
      put_row_lem c rows k (g k) (sort_by gid (g k))
        (omega (arith, length-table 0 n (sorting gid g k))) at (length-sort_by gid (g k)) in
    let next : set rows k (sort_by gid (g k)) ≡ table 0 n (sorting gid g (suc k)) =
      set-table n k (sorting gid g k) (sort_by gid (g k)) lt
      ∙ table_ext 0 n _ _ (λ f lt'. sorted_next f) in
    rw (got, sort_row_lem gid gid_at (g k) (known k), put, next)
      (sort_rows_lem c gid gid_at g n (suc k) left known (omega arith) fits)
  where
    sorted_next :
        (f : ℕ) → update (sorting gid g k) k (sort_by gid (g k)) f ≡ sorting gid g (suc k) f
    sorted_next f =
        ⊎_elim
          (λ t.
            let e : f ≡ k = (==_iff f k).0 t in
            let le : ltb f (suc k) ≡ true = ground arith in
            rw (t, le) (ap (λ j. sort_by gid (g j)) (sym e)))
          (λ t.
            let same : ltb f k ≡ ltb f (suc k) = ground arith in
            rw t (ap (λ b. if b then sort_by gid (g f) else g f) same))
          (Bool-cases (f == k))

map-table : (s n : ℕ) (h : ℕ → ℕ) → map zeros (table s n h) ≡ table s n (λ f. zeros (h f))
unfolding table
map-table s zero h = refl
map-table s (suc n) h = ap (λ l. zeros (h s) ∷ l) (map-table (suc s) n h)

-- The resized storage is filled with the transposed rows.
filled_lem :
    (c : Connectivity) (rows : List (List ℕ)) (n : ℕ)
    → RowsBelow n rows
    → fill_all 0 rows
        (holding c (map zeros (table 0 n (λ f. length (tos f 0 rows)))), replicate n 0)
      ≡ state c n (λ f. tos f 0 rows) (λ f. 0)
filled_lem c rows n h =
    let z : zeros n ≡ table 0 n (λ k. 0) = replicate-table 0 n 0 in
    rw (map-table 0 n (λ f. length (tos f 0 rows)), z) (fill_all_lem c n 0 rows (λ f. []) h)

transpose_run :
    (gid : ℕ → ℕ) (gid_at : ℕ → Option ℕ) (rows : List (List ℕ)) (n f : ℕ) (c : Connectivity)
    → ((to : ℕ) → to < length rows → gid_at to ≡ some (gid to))
    → RowsBelow n rows
    → Fits c (table 0 n (λ f. tos f 0 rows))
    → c.ids ≡ []
    → f < n
    → and_then (transpose gid_at rows n c) (λ c. get_entities c f)
      ≡ some (sort_by gid (tos f 0 rows))
unfolding transpose
transpose_run gid gid_at rows n f c known h fits none_yet lt =
    let g : ℕ → List ℕ = λ f. tos f 0 rows in
    let all : (f : ℕ) → AllKnown gid gid_at (g f) =
      λ f. tos-AllKnown gid gid_at f 0 rows (λ to ge lt. known to (omega arith)) in
    let counts = table 0 n (λ f. length (g f)) in
    let empty_rows : ltb 0 (length c.ids) ≡ false = rw none_yet refl in
    let fits0 : Fits c (map zeros counts) =
      subst (Fits c) (sym (map-table 0 n (λ f. length (g f)))) (
        Fits-same c n g (λ f. zeros (length (g f))) (λ k. sym (length-replicate (length (g k)) 0))
          fits) in
    let full : filling n g (λ f. 0) ≡ table 0 n (sorting gid g 0) =
      table_ext 0 n (λ k. g k ++ []) (sorting gid g 0)
        (λ k lt.
          append-nil (g k) ∙ (let above : ltb k 0 ≡ false = ground arith in rw above refl)) in
    let fitsn = Fits-same c n g (sorting gid g n) (length-sorting gid g n) fits in
    let at : get_elem? (table 0 n (sorting gid g n)) f ≡ some (sort_by gid (g f)) =
      get_elem?-table n f (sorting gid g n) lt
      ∙ (let below : ltb f n ≡ true = ground arith in rw below refl) in
    rw
      (
        empty_rows,
        rows_within_lem n rows h,
        count_all_lem n rows h,
        resize_lem c counts fits0,
        filled_lem c rows n h,
        full,
        sort_rows_lem c gid gid_at g n 0 n (λ f. all f) (omega arith) fits,
      )
      (get_entities_lem c (table 0 n (sorting gid g n)) f (sort_by gid (g f)) fitsn at)

-- Where no "to" entity has an id out of range, the context has a global id for each "to" entity, the
-- transposed rows fit and there is no connectivity yet, `transpose` succeeds, and afterwards
-- `get_entities` of a "from" entity gives the "to" entities that refer to it, each as often as it
-- does, in ascending order of their global ids.
pub transpose-get_entities :
    (gid : ℕ → ℕ) (gid_at : ℕ → Option ℕ) (rows : List (List ℕ)) (n f : ℕ) (c : Connectivity)
    → ((to : ℕ) → to < length rows → gid_at to ≡ some (gid to))
    → RowsBelow n rows
    → Fits c (table 0 n (λ f. tos f 0 rows))
    → c.ids ≡ []
    → f < n
    → (row : List ℕ) × (and_then (transpose gid_at rows n c) (λ c. get_entities c f) ≡ some row)
      × Permᴰ row (tos f 0 rows)
      × AscendingBy gid row
transpose-get_entities gid gid_at rows n f c known h fits none_yet lt = (
  sort_by gid (tos f 0 rows),
  transpose_run gid gid_at rows n f c known h fits none_yet lt,
  sort_by-perm gid (tos f 0 rows),
  sort_by-AscendingBy gid (tos f 0 rows),
)
