-- ===== src/Crs/Erase.antt =====
-- `erase` on the rows: which calls succeed, and what is left.
use flecsi.Base.{
  ◌≢◌, ◌↔◌, sym, none, Option, ℕ, zero, suc, ◌+◌, ◌-◌, ◌<◌, ◌≡◌, refl, ap, subst, ◌∙◌, inl, inr,
  true, some, List, [], ◌∷◌, ◌++◌, append_assoc, append-nil, arith, length, replicate, concat,
  length-append, length-replicate, length-set, ◌==◌, Bool-cases, Option-cases, List-cases, ◌⊎◌,
}
use flecsi.Crs.{
  Crs, size, row, is_sorted, write, Erasing, keep_row, erase_row, erase_loop, erase_start,
  erase_sorted, erase, erased, unsorted, length_error, out_of_bounds, ending,
}
use flecsi.Connectivity.Ascending.{Ascending}
use flecsi.Crs.Rows.{
  Represents, nothing, stored, offsets_from, length-offsets_from, row-split, size_lem,
}
use flecsi.Crs.Keeping.{
  Increasing, without, Increasing-weaken, length-Increasing, without-nil, Holds, erase_row-Round,
}

erase_loop-Holds :
    (c : Crs) (done rest : List (List ℕ)) (i : ℕ) (s : Erasing) (kept : List (List ℕ)) (room : ℕ)
    → c.offsets ≡ offsets_from 0 (done ++ rest)
    → c.indices ≡ concat (done ++ rest)
    → i ≡ length done
    → Holds s kept room
    → room + length s.pending ≡ length rest
    → Increasing i (i + length rest) s.pending
    → (s' : Erasing) × (erase_loop c (length rest) i s ≡ some s')
      × Holds s' (kept ++ without i s.pending rest) 0
unfolding erase_loop without
erase_loop-Holds c done [] i s kept room ho hi len h e inc =
    let none_left : room ≡ 0 = omega arith in (s, refl, rw append-nil (rw none_left at h))
erase_loop-Holds c done (r ∷ rest) i s kept room ho hi len h e inc =
    let (s1, run, round) =
      erase_row-Round c i s kept room r rest (rw len (row-split c done rest r ho hi)) h e s.pending
        refl (subst (λ k. Increasing i k s.pending) (omega arith) inc) in
    let split : (done ++ r ∷ []) ++ rest ≡ done ++ r ∷ rest = append_assoc done (r ∷ []) rest in
    let (s', runs, holds) =
      erase_loop-Holds c (done ++ r ∷ []) rest (suc i) s1 round.now_kept round.room (rw split ho)
        (rw split hi) (omega (arith, length-append done (r ∷ []), len)) round.holds round.enough
        round.increasing in
    (s', rw (erase_loop, run) runs, rw round.same holds)

is_sorted_lem : (lo hi : ℕ) (xs : List ℕ) → Increasing lo hi xs → is_sorted xs ≡ true
unfolding is_sorted
is_sorted_lem lo hi [] h = refl
is_sorted_lem lo hi (x ∷ []) h = refl
is_sorted_lem lo hi (x ∷ y ∷ ys) h = ground (arith, is_sorted_lem (suc x) hi (y ∷ ys) h.2)

-- A round that does not fault has dropped the id of its row, or had room for the row.
record Kept (s s' : Erasing) : Type 0 where
  pending : s'.pending ≡ s.pending
  index : s'.inew ≡ suc s.inew
  size : length s'.new_offsets ≡ length s.new_offsets
  room : suc s.inew < length s.new_offsets

record Dropped (i : ℕ) (s s' : Erasing) : Type 0 where
  pending : s.pending ≡ i ∷ s'.pending
  index : s'.inew ≡ s.inew
  size : length s'.new_offsets ≡ length s.new_offsets

keep_row-Kept : (c : Crs) (i : ℕ) (s s' : Erasing) → keep_row c i s ≡ some s' → Kept s s'
unfolding keep_row write
keep_row-Kept c i s s' run =
    ground (arith, length-set s.new_offsets (suc s.inew) (length (s.new_indices ++ row c i)))

erase_row_inv :
    (c : Crs) (i : ℕ) (s s' : Erasing) → erase_row c i s ≡ some s' → Dropped i s s' ⊎ Kept s s'
unfolding erase_row
erase_row_inv c i s s' run = elim (List-cases s.pending) [
  | inl e ↦ inr (keep_row-Kept c i s s' (rw (e, erase_row) at run))
  | inr (d, ds, e) ↦ elim (Bool-cases (d == i)) [
    | inl hit ↦
        let same = rw (e, erase_row, hit) at run in
        let d_i : d ≡ i = ground arith in inl (ground arith)
    | inr miss ↦ inr (keep_row-Kept c i s s' (rw (e, erase_row, miss) at run))
  ]
]

-- A loop that does not fault has used up the ids, so they were increasing row numbers.
erase_loop-Increasing :
    (c : Crs) (rounds i : ℕ) (s s' : Erasing)
    → erase_loop c rounds i s ≡ some s'
    → s.inew < length s.new_offsets
    → rounds + s.inew + 1 ≡ length s.new_offsets + length s.pending
    → Increasing i (i + rounds) s.pending
unfolding erase_loop
erase_loop-Increasing c zero i s s' run lt e = elim (List-cases s.pending) [
  | inl none_left ↦ rw none_left tt
  | inr (d, ds, more) ↦ absurd (omega (arith, ap (length {A = ℕ}) more))
]
erase_loop-Increasing c (suc rounds) i s s' run lt e = elim (Option-cases (erase_row c i s)) [
  | inl fault ↦ absurd (ground (arith, fault))
  | inr (s1, step) ↦
      let rest = rw (erase_loop, step) at run in
      elim (erase_row_inv c i s s1 step) [
        | inl d ↦
            let ih =
              erase_loop-Increasing c rounds (suc i) s1 s' rest (omega arith)
                (omega (arith, ap (length {A = ℕ}) d.pending)) in
            rw d.pending (
              omega arith,
              omega arith,
              subst (λ k. Increasing (suc i) k s1.pending) (omega arith) ih,
            )
        | inr k ↦
            let ih =
              erase_loop-Increasing c rounds (suc i) s1 s' rest (omega arith)
                (omega (arith, ap (length {A = ℕ}) k.pending)) in
            rw (← k.pending) (
              Increasing-weaken (suc i) i (i + suc rounds) s1.pending (omega arith)
                (subst (λ k. Increasing (suc i) k s1.pending) (omega arith) ih))
      ]
]

erase_sorted-Increasing :
    (c c' : Crs) (ids : List ℕ)
    → length ids < length c.offsets
    → size c + 1 ≡ length c.offsets
    → erase_sorted c ids ≡ some c'
    → Increasing 0 (size c) ids
unfolding erase_sorted erase_start
erase_sorted-Increasing c c' ids lt e run =
    let slots = length c.offsets - length ids in
    elim (Option-cases (erase_loop c (size c) 0 (erase_start ids slots))) [
      | inl fault ↦ absurd (ground (arith, fault))
      | inr (s, runs) ↦
          subst (λ k. Increasing 0 k ids) (omega arith)
            (erase_loop-Increasing c (size c) 0 (erase_start ids slots) s runs
              (omega (arith, length-replicate {A = ℕ} slots 0))
              (omega (arith, length-replicate {A = ℕ} slots 0)))
    ]

erase_sorted_run :
    (c : Crs) (ids : List ℕ) (n : ℕ) (s : Erasing)
    → size c ≡ n
    → erase_loop c n 0 (erase_start ids (length c.offsets - length ids)) ≡ some s
    → erase_sorted c ids ≡ some (record { offsets = s.new_offsets; indices = s.new_indices })
unfolding erase_sorted
erase_sorted_run c ids n s e run = rw (erase_sorted, e, run)

erase_sorted-Represents :
    (c : Crs) (rss : List (List ℕ)) (ids : List ℕ)
    → c.offsets ≡ offsets_from 0 rss
    → c.indices ≡ concat rss
    → Increasing 0 (length rss) ids
    → (c' : Crs) × (erase_sorted c ids ≡ some c') × Represents c' (without 0 ids rss)
unfolding erase_sorted erase_start offsets_from
erase_sorted-Represents c rss ids ho hi inc =
    let slots = length c.offsets - length ids in
    let fits = length-Increasing 0 (length rss) ids (omega arith) inc in
    let len : length c.offsets ≡ suc (length rss) =
      ap (length {A = ℕ}) ho ∙ length-offsets_from 0 rss in
    let one : slots ≡ suc (slots - 1) = omega arith in
    let (s, run, holds) =
      erase_loop-Holds c [] rss 0 (erase_start ids slots) [] (slots - 1) ho hi refl
        (record { index = refl; offsets = ap (λ k. replicate k 0) one; indices = refl })
        (omega arith) (subst (λ k. Increasing 0 k ids) (omega arith) inc) in
    (
      record { offsets = s.new_offsets; indices = s.new_indices },
      erase_sorted_run c ids (length rss) s (size_lem rss (stored ho hi)) run,
      stored (rw append-nil at holds.offsets) holds.indices,
    )

-- On a storage of rows, `erase` of strictly increasing row numbers succeeds, and then the rows with
-- those numbers are gone and the others stand in their order.
pub erase_lem :
    (c : Crs) (rss : List (List ℕ)) (ids : List ℕ)
    → Represents c rss
    → Increasing 0 (length rss) ids
    → (c' : Crs) × (erase c ids ≡ erased c') × Represents c' (without 0 ids rss)
unfolding erase
erase_lem c rss [] h inc = (c, refl, rw without-nil h)
erase_lem c _ (d ∷ ds) (nothing ho hi) inc = absurd (omega arith)
erase_lem c rss (d ∷ ds) (stored ho hi) inc =
    let ids = d ∷ ds in
    let len : length c.offsets ≡ suc (length rss) =
      ap (length {A = ℕ}) ho ∙ length-offsets_from 0 rss in
    let fits = length-Increasing 0 (length rss) ids (omega arith) inc in
    let (c', run, rep) = erase_sorted-Represents c rss ids ho hi inc in
    (c', ground (arith, is_sorted_lem 0 (length rss) ids inc, run), rep)

-- Where `erase` gets past the test of the order and the allocation it does what its loop does.
erase_run :
    (c : Crs) (d : ℕ) (ds : List ℕ)
    → is_sorted (d ∷ ds) ≡ true
    → length (d ∷ ds) < length c.offsets
    → erase c (d ∷ ds) ≡ ending (erase_sorted c (d ∷ ds))
unfolding erase
erase_run c d ds fine lt = ground (arith, fine)

erase_sorted-fault :
    (c : Crs) (rss : List (List ℕ)) (ids : List ℕ)
    → Represents c rss
    → length ids < length c.offsets
    → ¬ Increasing 0 (length rss) ids
    → erase_sorted c ids ≡ none
erase_sorted-fault c _ ids (nothing ho hi) lt bad = absurd (omega (arith, ap (length {A = ℕ}) ho))
erase_sorted-fault c rss ids (stored ho hi) lt bad = elim (Option-cases (erase_sorted c ids)) [
  | inl fault ↦ fault
  | inr (c', run) ↦
      let len : length c.offsets ≡ suc (length rss) =
        ap (length {A = ℕ}) ho ∙ length-offsets_from 0 rss in
      let sz = size_lem {c = c} rss (stored ho hi) in
      absurd (
        bad (
          subst (λ k. Increasing 0 k ids) sz
            (erase_sorted-Increasing c c' ids lt (omega arith) run)))
]

is_sorted-Ascending : (ids : List ℕ) → Ascending ids → is_sorted ids ≡ true
unfolding is_sorted
is_sorted-Ascending [] h = refl
is_sorted-Ascending (x ∷ []) h = refl
is_sorted-Ascending (x ∷ y ∷ ys) h = ground (arith, is_sorted-Ascending (y ∷ ys) h.1)

-- On a storage of rows, take ids that ascend, where an id may be repeated, and that are one or more
-- and fewer than the offsets. `erase` then passes its assertion and its allocation, and it ends
-- in an access out of bounds exactly when the ids are not strictly increasing row numbers.
pub erase-out_of_bounds :
    (c : Crs) (rss : List (List ℕ)) (d : ℕ) (ds : List ℕ)
    → Represents c rss
    → Ascending (d ∷ ds)
    → length (d ∷ ds) < length c.offsets
    → (erase c (d ∷ ds) ≢ unsorted)
      × (erase c (d ∷ ds) ≢ length_error)
      × ((erase c (d ∷ ds) ≡ out_of_bounds) ↔ ¬ Increasing 0 (length rss) (d ∷ ds))
erase-out_of_bounds c rss d ds h up lt =
    let run = erase_run c d ds (is_sorted-Ascending (d ∷ ds) up) lt in
    (
      λ e. ending_sorted (erase_sorted c (d ∷ ds)) (sym run ∙ e),
      λ e. ending_allocated (erase_sorted c (d ∷ ds)) (sym run ∙ e),
      (
        λ e inc. let fine = erase_lem c rss (d ∷ ds) h inc in absurd (cc (e, fine.1)),
        λ bad. run ∙ ap ending (erase_sorted-fault c rss (d ∷ ds) h lt bad),
      ),
    )
  where
    ending_sorted : (o : Option Crs) → ending o ≢ unsorted
    ending_sorted none e = absurd cc
    ending_sorted (some c) e = absurd cc

    ending_allocated : (o : Option Crs) → ending o ≢ length_error
    ending_allocated none e = absurd cc
    ending_allocated (some c) e = absurd cc
