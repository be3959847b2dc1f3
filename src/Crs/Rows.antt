-- ===== src/Crs/Rows.antt =====
-- The rows that a compressed storage stands for, and the operations in terms of them.
use native.Mathlib.Decide.{dec_lt}
use flecsi.Base.{
  ℕ, zero, suc, ◌+◌, ◌-◌, ◌<◌, ◌≤◌, ◌≡◌, ◌≢◌, refl, sym, ap, ◌∙◌, none, some, List, [], ◌∷◌, ◌++◌,
  append_assoc, append-nil, arith, length, get_elem?, get_or, last_or, concat, length-append,
  take-append_left, drop-append_left,
}
use flecsi.Crs.{Crs, size, row, row_at, append, append_to, with_start}

-- The offsets of rows that start at `s`.
unfoldable pub offsets_from : ℕ → List (List ℕ) → List ℕ
offsets_from s [] = s ∷ []
offsets_from s (r ∷ rs) = s ∷ offsets_from (s + length r) rs

-- Storage of `rss`; without rows the offsets may be missing.
pub data Represents : Crs → List (List ℕ) → Type 0 where
  nothing : {c : Crs} → c.offsets ≡ [] → c.indices ≡ [] → Represents c []
  stored :
      {c : Crs} {rss : List (List ℕ)}
      → c.offsets ≡ offsets_from 0 rss
      → c.indices ≡ concat rss
      → Represents c rss

pub concat-append : (xss yss : List (List ℕ)) → concat (xss ++ yss) ≡ concat xss ++ concat yss
concat-append [] yss = refl
concat-append (xs ∷ xss) yss =
    ap (◌++◌ xs) (concat-append xss yss) ∙ sym (append_assoc xs (concat xss) (concat yss))

pub length-offsets_from :
    (s : ℕ) (rss : List (List ℕ)) → length (offsets_from s rss) ≡ suc (length rss)
unfolding offsets_from
length-offsets_from s [] = refl
length-offsets_from s (r ∷ rs) = ap suc (length-offsets_from (s + length r) rs)

pub offsets_from-snoc :
    (s : ℕ) (rss : List (List ℕ)) (r : List ℕ)
    → offsets_from s (rss ++ r ∷ [])
      ≡ offsets_from s rss ++ (s + length (concat rss) + length r) ∷ []
unfolding offsets_from
offsets_from-snoc s [] r = ground arith
offsets_from-snoc s (q ∷ rss) r =
    ground (arith, offsets_from-snoc (s + length q) rss r, length-append q (concat rss))

pub last_or-offsets_from :
    (s d : ℕ) (rss : List (List ℕ)) → last_or (offsets_from s rss) d ≡ s + length (concat rss)
unfolding offsets_from
last_or-offsets_from s d [] = omega arith
last_or-offsets_from s d (r ∷ rss) =
    omega (arith, last_or-offsets_from (s + length r) s rss, length-append r (concat rss))

pub get_or-offsets_from :
    (s : ℕ) (pre rest : List (List ℕ))
    → get_or (offsets_from s (pre ++ rest)) (length pre) 0 ≡ s + length (concat pre)
unfolding offsets_from
get_or-offsets_from s [] [] = omega arith
get_or-offsets_from s [] (r ∷ rest) = omega arith
get_or-offsets_from s (q ∷ pre) rest =
    omega (arith, get_or-offsets_from (s + length q) pre rest, length-append q (concat pre))

pub get_or-offsets_from-suc :
    (s : ℕ) (pre rest : List (List ℕ)) (r : List ℕ)
    → get_or (offsets_from s (pre ++ r ∷ rest)) (suc (length pre)) 0
      ≡ s + length (concat pre) + length r
unfolding offsets_from
get_or-offsets_from-suc s [] [] r = omega arith
get_or-offsets_from-suc s [] (q ∷ rest) r = omega arith
get_or-offsets_from-suc s (q ∷ pre) rest r =
    omega (arith, get_or-offsets_from-suc (s + length q) pre rest r, length-append q (concat pre))

-- The row behind a prefix of rows.
pub row-split :
    (c : Crs) (pre rest : List (List ℕ)) (r : List ℕ)
    → c.offsets ≡ offsets_from 0 (pre ++ r ∷ rest)
    → c.indices ≡ concat (pre ++ r ∷ rest)
    → row c (length pre) ≡ r
unfolding row
row-split c pre rest r ho hi =
    let a : get_or c.offsets (length pre) 0 ≡ length (concat pre) =
      rw ho (omega (arith, get_or-offsets_from 0 pre (r ∷ rest))) in
    let b : get_or c.offsets (suc (length pre)) 0 - get_or c.offsets (length pre) 0 ≡ length r =
      rw ho (
        omega
          (arith, get_or-offsets_from 0 pre (r ∷ rest), get_or-offsets_from-suc 0 pre rest r)) in
    rw (b, a, hi, concat-append pre (r ∷ rest), drop-append_left (concat pre) (r ++ concat rest))
      (take-append_left r (concat rest))

pub split_at :
    (rss : List (List ℕ)) (i : ℕ)
    → i < length rss
    → (pre : List (List ℕ)) × (r : List ℕ) × (rest : List (List ℕ)) × (rss ≡ pre ++ r ∷ rest)
      × (length pre ≡ i)
      × (get_elem? rss i ≡ some r)
split_at [] i h = absurd (omega arith)
split_at (r ∷ rss) zero h = ([], r, rss, refl, refl, refl)
split_at (q ∷ rss) (suc i) h =
    let (pre, r, rest, e, len, at) = split_at rss i (omega arith) in
    (q ∷ pre, r, rest, ap (◌∷◌ q) e, ap suc len, at)

pub get_elem?-none : (rss : List (List ℕ)) (i : ℕ) → length rss ≤ i → get_elem? rss i ≡ none
get_elem?-none [] i h = refl
get_elem?-none (r ∷ rss) zero h = absurd (omega arith)
get_elem?-none (r ∷ rss) (suc i) h = get_elem?-none rss i (omega arith)

nil-ne-append : (pre rest : List (List ℕ)) (r : List ℕ) → [] ≢ pre ++ r ∷ rest
nil-ne-append [] rest r e = cc
nil-ne-append (q ∷ pre) rest r e = cc

pub size_lem : {c : Crs} (rss : List (List ℕ)) → Represents c rss → size c ≡ length rss
unfolding size offsets_from
size_lem _ (nothing ho hi) = rw ho
size_lem _ (stored {rss = []} ho hi) = rw (ho, offsets_from)
size_lem _ (stored {rss = r ∷ rss} ho hi) = rw ho (length-offsets_from (0 + length r) rss)

row-at_split :
    (c : Crs) (pre rest : List (List ℕ)) (r : List ℕ) (rss : List (List ℕ)) (i : ℕ)
    → Represents c rss
    → rss ≡ pre ++ r ∷ rest
    → length pre ≡ i
    → row c i ≡ r
row-at_split c pre rest r _ i (nothing ho hi) e len = absurd (nil-ne-append pre rest r e)
row-at_split c pre rest r _ i (stored ho hi) e len =
    rw (← len) (row-split c pre rest r (rw (← e) ho) (rw (← e) hi))

with_start-offsets : (rss : List (List ℕ)) → with_start (offsets_from 0 rss) ≡ offsets_from 0 rss
unfolding with_start offsets_from
with_start-offsets [] = refl
with_start-offsets (r ∷ rss) = refl

append_to-Represents :
    (c : Crs) (rss : List (List ℕ)) (offsets range : List ℕ)
    → offsets ≡ offsets_from 0 rss
    → c.indices ≡ concat rss
    → Represents (append_to offsets c range) (rss ++ range ∷ [])
unfolding append_to
append_to-Represents c rss offsets range ho hi =
    stored (rw (ho, last_or-offsets_from 0 0 rss, offsets_from-snoc 0 rss range))
      (rw (hi, concat-append rss (range ∷ []), append-nil))

append_cons :
    (c : Crs) (rss : List (List ℕ)) (x : ℕ) (xs : List ℕ)
    → Represents c rss
    → Represents (append c (x ∷ xs)) (rss ++ (x ∷ xs) ∷ [])
unfolding append with_start offsets_from
append_cons c _ x xs (nothing ho hi) =
    append_to-Represents c [] (with_start c.offsets) (x ∷ xs) (rw ho refl) hi
append_cons c rss x xs (stored ho hi) =
    append_to-Represents c rss (with_start c.offsets) (x ∷ xs)
      (ap with_start ho ∙ with_start-offsets rss) hi

-- `at(i)` of a storage of rows is the i-th row, and fails exactly where there is none.
pub row_at_lem :
    (c : Crs) (rss : List (List ℕ)) (i : ℕ) → Represents c rss → row_at c i ≡ get_elem? rss i
unfolding row_at
row_at_lem c rss i h = elim (dec_lt i (length rss)) [
  | no ge ↦ ground (arith, size_lem rss h, get_elem?-none rss i)
  | yes lt ↦
      let (pre, r, rest, e, len, at) = split_at rss i lt in
      ground (arith, size_lem rss h, row-at_split c pre rest r rss i h e len)
]

-- The rows that a range adds: none if it is empty.
abbrev pub as_row : List ℕ → List (List ℕ)
as_row [] = []
as_row (x ∷ xs) = (x ∷ xs) ∷ []

-- Appending a range adds it as the last row if it has elements, and adds no row if it has none.
pub append-Represents :
    (c : Crs) (rss : List (List ℕ)) (r : List ℕ)
    → Represents c rss
    → Represents (append c r) (rss ++ as_row r)
unfolding append
append-Represents c rss [] h = rw append-nil h
append-Represents c rss (x ∷ xs) h = append_cons c rss x xs h
