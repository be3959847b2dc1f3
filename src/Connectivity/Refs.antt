-- ===== src/Connectivity/Refs.antt =====
-- The entities that refer to an entity, and tables by functions.
use flecsi.Base.{
  ℕ, zero, suc, ◌+◌, ◌≤◌, ◌<◌, ◌≡◌, refl, ap, ◌∙◌, true, false, some, List, [], ◌∷◌, ◌++◌, arith,
  length, get_elem?, get_or, set, length-append, ◌==◌, if◌then◌else◌, replicate,
}
use flecsi.Connectivity.{count_row, count_all}

-- The "to" entities whose ids have `f`, in order, as often as they have it: the transposed row.
unfoldable pub tos_row : ℕ → ℕ → List ℕ → List ℕ
tos_row f to [] = []
tos_row f to (g ∷ row) = if f == g then to ∷ tos_row f to row else tos_row f to row

unfoldable pub tos : ℕ → ℕ → List (List ℕ) → List ℕ
tos f to [] = []
tos f to (row ∷ rows) = tos_row f to row ++ tos f (suc to) rows

-- All ids are below the number of entities.
abbrev pub RowBelow : ℕ → List ℕ → Type 0
RowBelow n [] = Unit
RowBelow n (f ∷ row) = (f < n) × RowBelow n row

abbrev pub RowsBelow : ℕ → List (List ℕ) → Type 0
RowsBelow n [] = Unit
RowsBelow n (row ∷ rows) = RowBelow n row × RowsBelow n rows

-- The values of a function at `s`, `s + 1`, ...
unfoldable pub table {ℓ} : {A : Type ℓ} → ℕ → ℕ → (ℕ → A) → List A
table s zero g = []
table s (suc n) g = g s ∷ table (suc s) n g

module _ {ℓ} {A : Type ℓ} where
  table_ext_above :
      (s n : ℕ) (g h : ℕ → A) → ((k : ℕ) → s ≤ k → g k ≡ h k) → table s n g ≡ table s n h
  unfolding table
  table_ext_above s zero g h e = refl
  table_ext_above s (suc n) g h e =
      cc (e s (omega arith), table_ext_above (suc s) n g h (λ k le. e k (omega arith)))

  pub table_ext :
      (s n : ℕ) (g h : ℕ → A) → ((k : ℕ) → k < s + n → g k ≡ h k) → table s n g ≡ table s n h
  unfolding table
  table_ext s zero g h e = refl
  table_ext s (suc n) g h e =
      cc (e s (omega arith), table_ext (suc s) n g h (λ k lt. e k (omega arith)))

  pub length-table : (s n : ℕ) (g : ℕ → A) → length (table s n g) ≡ n
  unfolding table
  length-table s zero g = refl
  length-table s (suc n) g = ap suc (length-table (suc s) n g)

  get_elem?-table_from :
      (s n i : ℕ) (g : ℕ → A) → i < n → get_elem? (table s n g) i ≡ some (g (s + i))
  unfolding table
  get_elem?-table_from s zero i g h = absurd (omega arith)
  get_elem?-table_from s (suc n) zero g h = ap (λ k. some (g k)) (omega arith)
  get_elem?-table_from s (suc n) (suc i) g h =
      get_elem?-table_from (suc s) n i g (omega arith) ∙ ap (λ k. some (g k)) (omega arith)

  pub get_elem?-table : (n i : ℕ) (g : ℕ → A) → i < n → get_elem? (table 0 n g) i ≡ some (g i)
  get_elem?-table n i g h = get_elem?-table_from 0 n i g h ∙ ap (λ k. some (g k)) (omega arith)

  get_or-table_from : (s n i : ℕ) (g : ℕ → A) (d : A) → i < n → get_or (table s n g) i d ≡ g (s + i)
  unfolding table
  get_or-table_from s zero i g d h = absurd (omega arith)
  get_or-table_from s (suc n) zero g d h = ap g (omega arith)
  get_or-table_from s (suc n) (suc i) g d h =
      get_or-table_from (suc s) n i g d (omega arith) ∙ ap g (omega arith)

  pub get_or-table : (n i : ℕ) (g : ℕ → A) (d : A) → i < n → get_or (table 0 n g) i d ≡ g i
  get_or-table n i g d h = get_or-table_from 0 n i g d h ∙ ap g (omega arith)

  abbrev pub update : (ℕ → A) → ℕ → A → ℕ → A
  update g i v k = if k == i then v else g k

  set-table_from :
      (s n i : ℕ) (g : ℕ → A) (v : A)
      → i < n
      → set (table s n g) i v ≡ table s n (update g (s + i) v)
  unfolding table
  set-table_from s zero i g v h = absurd (omega arith)
  set-table_from s (suc n) zero g v h =
      let e : (s == s + 0) ≡ true = ground arith in
      let t =
        table_ext_above (suc s) n g (update g (s + 0) v)
          (λ k le. let ne : (k == s + 0) ≡ false = ground arith in rw ne refl) in
      rw e (ap (λ l. v ∷ l) t)
  set-table_from s (suc n) (suc i) g v h =
      let e : (s == s + suc i) ≡ false = ground arith in
      let m : suc s + i ≡ s + suc i = omega arith in
      rw e (
        ap (λ l. g s ∷ l)
          (set-table_from (suc s) n i g v (omega arith)
            ∙ ap (λ j. table (suc s) n (update g j v)) m))

  pub set-table :
      (n i : ℕ) (g : ℕ → A) (v : A) → i < n → set (table 0 n g) i v ≡ table 0 n (update g i v)
  set-table n i g v h =
      set-table_from 0 n i g v h ∙ ap (λ j. table 0 n (update g j v)) (omega arith)

-- What the counting loops of `transpose` count.
count_row_lem :
    (n to : ℕ) (row : List ℕ) (g : ℕ → ℕ)
    → RowBelow n row
    → count_row row (table 0 n g) ≡ table 0 n (λ f. g f + length (tos_row f to row))
unfolding count_row tos_row
count_row_lem n to [] g h = table_ext 0 n _ _ (λ k lt. omega arith)
count_row_lem n to (f ∷ row) g h =
    ap (count_row row) (rw (get_or-table n f g 0 h.0) (set-table n f g (g f + 1) h.0))
    ∙ count_row_lem n to row (update g f (g f + 1)) h.1
    ∙ table_ext 0 n _ _ (λ k lt. ground arith)

count_all_from :
    (n to : ℕ) (rows : List (List ℕ)) (g : ℕ → ℕ)
    → RowsBelow n rows
    → count_all rows (table 0 n g) ≡ table 0 n (λ f. g f + length (tos f to rows))
unfolding count_all tos
count_all_from n to [] g h = table_ext 0 n _ _ (λ k lt. omega arith)
count_all_from n to (row ∷ rows) g h =
    ap (count_all rows) (count_row_lem n to row g h.0)
    ∙ count_all_from n (suc to) rows (λ f. g f + length (tos_row f to row)) h.1
    ∙ table_ext 0 n _ _
        (λ k lt. omega (arith, length-append (tos_row k to row) (tos k (suc to) rows)))

pub replicate-table {ℓ} : {A : Type ℓ} (s n : ℕ) (a : A) → replicate n a ≡ table s n (λ k. a)
unfolding table
replicate-table s zero a = refl
replicate-table s (suc n) a = ap (λ l. a ∷ l) (replicate-table (suc s) n a)

pub count_all_lem :
    (n : ℕ) (rows : List (List ℕ))
    → RowsBelow n rows
    → count_all rows (replicate n 0) ≡ table 0 n (λ f. length (tos f 0 rows))
count_all_lem n rows h =
    ap (count_all rows) (replicate-table 0 n 0)
    ∙ count_all_from n 0 rows (λ k. 0) h
    ∙ table_ext 0 n _ _ (λ k lt. omega arith)
