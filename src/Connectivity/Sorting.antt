-- ===== src/Connectivity/Sorting.antt =====
-- `std::sort` by the global ids: what it does to a row, and the global ids that it reads.
use mathlib.Core.List.{Permᴰ}
use mathlib.Core.List.Permᴰ
use flecsi.Base.{
  ℕ, suc, ◌+◌, ◌≤◌, ◌<◌, ◌≡◌, refl, ap, ◌∙◌, true, Option, some, List, [], ◌∷◌, ◌++◌, arith, leb,
  length, ◌==◌, Bool-cases, ⊎_elim,
}
use flecsi.Connectivity.{
  insert_by, sort_by, all_known, global_of, sort_row, row_within, rows_within,
}
use flecsi.Connectivity.Refs.{tos_row, tos, RowBelow, RowsBelow}

module _ (gid : ℕ → ℕ) where
  -- No element has a global id below that of `a`.
  abbrev pub AllFromBy : ℕ → List ℕ → Type 0
  AllFromBy a [] = Unit
  AllFromBy a (y ∷ ys) = (gid a ≤ gid y) × AllFromBy a ys

  -- The global ids ascend.
  abbrev pub AscendingBy : List ℕ → Type 0
  AscendingBy [] = Unit
  AscendingBy (y ∷ ys) = AllFromBy y ys × AscendingBy ys

  AllFromBy-trans : (a b : ℕ) (xs : List ℕ) → gid a ≤ gid b → AllFromBy b xs → AllFromBy a xs
  AllFromBy-trans a b [] le h = tt
  AllFromBy-trans a b (x ∷ xs) le h = (omega arith, AllFromBy-trans a b xs le h.1)

  AllFromBy-insert_by :
      (a x : ℕ) (ys : List ℕ) → gid a ≤ gid x → AllFromBy a ys → AllFromBy a (insert_by gid x ys)
  unfolding insert_by
  AllFromBy-insert_by a x [] le h = (le, tt)
  AllFromBy-insert_by a x (y ∷ ys) le h = ground (arith, AllFromBy-insert_by a x ys le h.1)

  insert_by-AscendingBy : (x : ℕ) (ys : List ℕ) → AscendingBy ys → AscendingBy (insert_by gid x ys)
  unfolding insert_by
  insert_by-AscendingBy x [] h = (tt, tt)
  insert_by-AscendingBy x (y ∷ ys) h =
      ground
        (arith, insert_by-AscendingBy x ys h.1, AllFromBy-insert_by y x ys, AllFromBy-trans x y ys)

  pub sort_by-AscendingBy : (xs : List ℕ) → AscendingBy (sort_by gid xs)
  unfolding sort_by
  sort_by-AscendingBy [] = tt
  sort_by-AscendingBy (x ∷ xs) = insert_by-AscendingBy x (sort_by gid xs) (sort_by-AscendingBy xs)

  insert_by-perm : (x : ℕ) (ys : List ℕ) → Permᴰ (insert_by gid x ys) (x ∷ ys)
  unfolding insert_by
  insert_by-perm x [] = Permᴰ.cons refl Permᴰ.nil
  insert_by-perm x (y ∷ ys) =
      ⊎_elim (λ le. rw (le) (Permᴰ.refl (x ∷ y ∷ ys)))
        (λ gt. rw (gt) (Permᴰ.trans (Permᴰ.cons refl (insert_by-perm x ys)) (Permᴰ.swap refl refl)))
        (Bool-cases (leb (gid x) (gid y)))

  pub sort_by-perm : (xs : List ℕ) → Permᴰ (sort_by gid xs) xs
  unfolding sort_by
  sort_by-perm [] = Permᴰ.nil
  sort_by-perm (x ∷ xs) =
      Permᴰ.trans (insert_by-perm x (sort_by gid xs)) (Permᴰ.cons refl (sort_by-perm xs))

  module _ (gid_at : ℕ → Option ℕ) where
    -- The map of the context has the global ids of a row.
    abbrev pub AllKnown : List ℕ → Type 0
    AllKnown [] = Unit
    AllKnown (x ∷ xs) = (gid_at x ≡ some (gid x)) × AllKnown xs

    AllKnown-append : (xs ys : List ℕ) → AllKnown xs → AllKnown ys → AllKnown (xs ++ ys)
    AllKnown-append [] ys h h' = h'
    AllKnown-append (x ∷ xs) ys h h' = (h.0, AllKnown-append xs ys h.1 h')

    all_known_lem : (xs : List ℕ) → AllKnown xs → all_known gid_at xs ≡ true
    unfolding all_known
    all_known_lem [] h = refl
    all_known_lem (x ∷ xs) h = rw (h.0, all_known_lem xs h.1) refl

    insert_by_same :
        (x : ℕ) (ys : List ℕ)
        → gid_at x ≡ some (gid x)
        → AllKnown ys
        → insert_by (global_of gid_at) x ys ≡ insert_by gid x ys
    unfolding insert_by global_of
    insert_by_same x [] e h = refl
    insert_by_same x (y ∷ ys) e h = rw (insert_by_same x ys e h.1, e, h.0) refl

    insert_by-AllKnown :
        (x : ℕ) (ys : List ℕ)
        → gid_at x ≡ some (gid x)
        → AllKnown ys
        → AllKnown (insert_by gid x ys)
    unfolding insert_by
    insert_by-AllKnown x [] e h = (e, tt)
    insert_by-AllKnown x (y ∷ ys) e h =
        let rest = insert_by-AllKnown x ys e h.1 in
        ⊎_elim (λ le. rw (le) (e, h)) (λ gt. rw (gt) (h.0, rest)) (Bool-cases (leb (gid x) (gid y)))

    sort_by-AllKnown : (xs : List ℕ) → AllKnown xs → AllKnown (sort_by gid xs)
    unfolding sort_by
    sort_by-AllKnown [] h = tt
    sort_by-AllKnown (x ∷ xs) h =
        insert_by-AllKnown x (sort_by gid xs) h.0 (sort_by-AllKnown xs h.1)

    sort_by_same : (xs : List ℕ) → AllKnown xs → sort_by (global_of gid_at) xs ≡ sort_by gid xs
    unfolding sort_by
    sort_by_same [] h = refl
    sort_by_same (x ∷ xs) h =
        ap (insert_by (global_of gid_at) x) (sort_by_same xs h.1)
        ∙ insert_by_same x (sort_by gid xs) h.0 (sort_by-AllKnown xs h.1)

    pub sort_row_lem : (xs : List ℕ) → AllKnown xs → sort_row gid_at xs ≡ some (sort_by gid xs)
    unfolding sort_row
    sort_row_lem xs h = rw (all_known_lem xs h) (ap some (sort_by_same xs h))

    tos_row-AllKnown :
        (f to : ℕ) (row : List ℕ) → gid_at to ≡ some (gid to) → AllKnown (tos_row f to row)
    unfolding tos_row
    tos_row-AllKnown f to [] e = tt
    tos_row-AllKnown f to (g ∷ row) e =
        let rest = tos_row-AllKnown f to row e in
        ⊎_elim (λ same. rw (same) (e, rest)) (λ apart. rw (apart) rest) (Bool-cases (f == g))

    pub tos-AllKnown :
        (f s : ℕ) (rows : List (List ℕ))
        → ((to : ℕ) → s ≤ to → to < s + length rows → gid_at to ≡ some (gid to))
        → AllKnown (tos f s rows)
    unfolding tos
    tos-AllKnown f s [] known = tt
    tos-AllKnown f s (row ∷ rows) known =
        AllKnown-append (tos_row f s row) (tos f (suc s) rows)
          (tos_row-AllKnown f s row (known s (omega arith) (omega arith)))
          (tos-AllKnown f (suc s) rows (λ to ge lt. known to (omega arith) (omega arith)))

row_within_lem : (n : ℕ) (row : List ℕ) → RowBelow n row → row_within n row ≡ true
unfolding row_within
row_within_lem n [] h = refl
row_within_lem n (f ∷ row) h = ground (arith, row_within_lem n row h.1)

-- The counting loop stays within its array.
pub rows_within_lem : (n : ℕ) (rows : List (List ℕ)) → RowsBelow n rows → rows_within n rows ≡ true
unfolding rows_within
rows_within_lem n [] h = refl
rows_within_lem n (row ∷ rows) h =
    ground (arith, row_within_lem n row h.0, rows_within_lem n rows h.1)
