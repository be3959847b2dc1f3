-- ===== src/Connectivity/Rows.antt =====
-- The rows that a connectivity stands for, and single steps in terms of them.
use flecsi.Base.{
  ℕ, zero, suc, ◌+◌, ◌-◌, ◌%◌, ◌^◌, ◌≤◌, ◌<◌, ◌≡◌, refl, sym, subst, ap, ◌∙◌, true, false, some,
  List, [], ◌∷◌, ◌++◌, arith, length, get_elem?, get_or, last_or, concat, length-append, ltb, ◌==◌,
  drop-append_left, take-append_left,
}
use flecsi.Words.{sub64, sub64_lem}
use flecsi.Crs.Rows.{
  offsets_from, offsets_from-snoc, last_or-offsets_from, length-offsets_from, get_or-offsets_from,
  get_or-offsets_from-suc, concat-append, split_at,
}
use flecsi.Connectivity.{
  from_size, Connectivity, with_ids, with_offsets, push_offset, start_offsets, add_count, is_row,
  get_entities, sub32,
}

-- The offsets of rows; there are none before the first row.
unfoldable pub stored : List (List ℕ) → List ℕ
stored [] = []
stored (r ∷ rows) = offsets_from 0 (r ∷ rows)

-- The rows that a connectivity holds.
abbrev pub Holds : Connectivity → List (List ℕ) → Type 0
Holds c rows = (c.offsets ≡ stored rows) × (c.ids ≡ concat rows)

push_offset_lem :
    (c : Connectivity) (o : ℕ)
    → length c.offsets < c.offset_capacity
    → push_offset c o ≡ some (with_offsets c (c.offsets ++ o ∷ []))
unfolding push_offset
push_offset_lem c o h = ground arith

add_count_cons :
    (c : Connectivity) (n : ℕ)
    → 0 < length c.offsets
    → length c.offsets < c.offset_capacity
    → last_or c.offsets 0 + n < 2 ^ 32
    → add_count c n ≡ some (with_offsets c (c.offsets ++ (last_or c.offsets 0 + n) ∷ []))
unfolding add_count start_offsets
add_count_cons c n some_offsets cap fit =
    let m : (last_or c.offsets 0 + n) % 2 ^ 32 ≡ last_or c.offsets 0 + n = omega arith in
    let e : (length c.offsets == 0) ≡ false = ground arith in
    rw (e, m) (push_offset_lem c (last_or c.offsets 0 + n) cap)

add_count_nil :
    (c : Connectivity) (n : ℕ)
    → c.offsets ≡ []
    → 1 < c.offset_capacity
    → n < 2 ^ 32
    → add_count c n ≡ some (with_offsets c (0 ∷ n ∷ []))
unfolding add_count start_offsets push_offset
add_count_nil c n h cap fit =
    let m : (0 + n) % 2 ^ 32 ≡ n = omega arith in
    let a : ltb 0 c.offset_capacity ≡ true = ground arith in
    let b : ltb 1 c.offset_capacity ≡ true = ground arith in rw (h, a, b, m) refl

-- Adding the count of a row to the offsets of rows.
pub add_count_lem :
    (c : Connectivity) (rows : List (List ℕ)) (r : List ℕ)
    → c.offsets ≡ stored rows
    → length rows + 1 < c.offset_capacity
    → length (concat rows) + length r < 2 ^ 32
    → add_count c (length r) ≡ some (with_offsets c (stored (rows ++ r ∷ [])))
unfolding stored offsets_from
add_count_lem c [] r h cap fit =
    add_count_nil c (length r) h cap (omega arith)
    ∙ ap (λ n. some (with_offsets c (0 ∷ n ∷ []))) (omega arith)
add_count_lem c (q ∷ rows) r h cap fit =
    let len : length c.offsets ≡ suc (suc (length rows)) =
      ap length h ∙ length-offsets_from 0 (q ∷ rows) in
    let last : last_or c.offsets 0 ≡ 0 + length (concat (q ∷ rows)) =
      ap (λ l. last_or l 0) h ∙ last_or-offsets_from 0 0 (q ∷ rows) in
    add_count_cons c (length r) (omega arith) (omega arith) (omega arith)
    ∙ rw (last, h) (ap (λ l. some (with_offsets c l)) (sym (offsets_from-snoc 0 (q ∷ rows) r)))

pub stored_cons :
    (pre rest : List (List ℕ)) (r : List ℕ)
    → stored (pre ++ r ∷ rest) ≡ offsets_from 0 (pre ++ r ∷ rest)
unfolding stored
stored_cons [] rest r = refl
stored_cons (q ∷ pre) rest r = refl

-- The offsets around a row, and its ids.
pub row_bounds :
    (c : Connectivity) (pre rest : List (List ℕ)) (r : List ℕ)
    → c.offsets ≡ stored (pre ++ r ∷ rest)
    → (get_or c.offsets (length pre) 0 ≡ length (concat pre))
      × (get_or c.offsets (suc (length pre)) 0 ≡ length (concat pre) + length r)
      × (length c.offsets ≡ length pre + length rest + 2)
row_bounds c pre rest r h =
    let e = h ∙ stored_cons pre rest r in
    (
      ap (λ l. get_or l (length pre) 0) e ∙ get_or-offsets_from 0 pre (r ∷ rest) ∙ omega arith,
      ap (λ l. get_or l (suc (length pre)) 0) e
          ∙ get_or-offsets_from-suc 0 pre rest r
          ∙ omega arith,
      ap length e
          ∙ length-offsets_from 0 (pre ++ r ∷ rest)
          ∙ omega (arith, length-append pre (r ∷ rest)),
    )

-- The row behind a prefix of rows, in storage whose offsets fit in 32 bits.
pub get_entities-split :
    (c : Connectivity) (pre rest : List (List ℕ)) (r : List ℕ)
    → c.offsets ≡ stored (pre ++ r ∷ rest)
    → c.ids ≡ concat (pre ++ r ∷ rest)
    → length (concat pre) + length r < 2 ^ 32
    → length pre + length rest + 2 < 2 ^ 64
    → get_entities c (length pre) ≡ some r
unfolding get_entities sub32 is_row
get_entities-split c pre rest r ho hi fit len =
    let b = row_bounds c pre rest r ho in
    let s = sub64_lem (length c.offsets) 1 (omega (arith, b.2)) (omega (arith, b.2)) in
    let in0 : ltb (length pre) (sub64 (length c.offsets) 1) ≡ true = ground (arith, b.2, s) in
    let in1 : ltb (suc (length pre)) (length c.offsets) ≡ true = ground (arith, b.2) in
    let n : (length (concat pre) + length r + 2 ^ 32 - length (concat pre)) % 2 ^ 32 ≡ length r =
      omega arith in
    rw
      (
        in0,
        in1,
        b.0,
        b.1,
        n,
        hi,
        concat-append pre (r ∷ rest),
        drop-append_left (concat pre) (r ++ concat rest),
        take-append_left r (concat rest),
      )
      refl

-- A connectivity that holds the rows, in the storage of `c`.
abbrev pub holding : Connectivity → List (List ℕ) → Connectivity
holding c rows = with_offsets (with_ids c (concat rows)) (stored rows)

-- The rows fit: the offsets in 32 bits and in their storage, the ids in theirs.
abbrev pub Fits : Connectivity → List (List ℕ) → Type 0
Fits c rows =
    (length (concat rows) < 2 ^ 32)
    × (length (concat rows) ≤ c.id_capacity)
    × (length rows < c.offset_capacity)
    × (length rows < 2 ^ 32)

get_elem?-lt :
    (rows : List (List ℕ)) (i : ℕ) (r : List ℕ) → get_elem? rows i ≡ some r → i < length rows
get_elem?-lt [] i r e = absurd cc
get_elem?-lt (q ∷ rows) zero r e = omega arith
get_elem?-lt (q ∷ rows) (suc i) r e = omega (arith, get_elem?-lt rows i r e)

-- A row of the rows that are held.
pub get_entities_lem :
    (c : Connectivity) (rows : List (List ℕ)) (i : ℕ) (r : List ℕ)
    → Fits c rows
    → get_elem? rows i ≡ some r
    → get_entities (holding c rows) i ≡ some r
get_entities_lem c rows i r fits at =
    let lt : i < length rows = get_elem?-lt rows i r at in
    let (pre, q, rest, e, len, at') = split_at rows i lt in
    let same : q ≡ r = cc (at, at') in
    let fits' : Fits c (pre ++ q ∷ rest) = subst (Fits c) e fits in
    let l1 = ap length (concat-append pre (q ∷ rest)) in
    let l2 = length-append (concat pre) (q ++ concat rest) in
    let l3 = length-append q (concat rest) in
    let l4 = length-append pre (q ∷ rest) in
    let g =
      get_entities-split (holding c (pre ++ q ∷ rest)) pre rest q refl refl
        (omega (arith, fits', l1, l2, l3)) (omega (arith, fits', l4)) in
    rw (← len, e, ← same) g

pub from_size-holding :
    (c : Connectivity) (rows : List (List ℕ)) → from_size (holding c rows) ≡ length rows
unfolding from_size stored
from_size-holding c [] = refl
from_size-holding c (r ∷ rows) = ground (arith, length-offsets_from 0 (r ∷ rows))
