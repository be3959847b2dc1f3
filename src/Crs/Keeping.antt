-- ===== src/Crs/Keeping.antt =====
-- One step of the loop of `erase`, in terms of the rows.
use flecsi.Base.{
  ℕ, suc, ◌+◌, ◌-◌, ◌<◌, ◌≤◌, ◌≡◌, refl, sym, ap, subst, inl, inr, false, some, List, [], ◌∷◌, ◌++◌,
  append_assoc, append-nil, arith, length, set, replicate, concat, length-append, ◌==◌,
  if◌then◌else◌, Bool-cases, lt→ltb,
}
use flecsi.StdSet.{member}
use flecsi.Crs.{Crs, row, write, Erasing, keep_row, erase_row}
use flecsi.Crs.Rows.{offsets_from, concat-append, length-offsets_from, offsets_from-snoc}

-- Strictly increasing numbers from `lo` up to `hi`, which is left out.
abbrev pub Increasing : ℕ → ℕ → List ℕ → Type 0
Increasing lo hi [] = Unit
Increasing lo hi (x ∷ xs) = (lo ≤ x) × (x < hi) × Increasing (suc x) hi xs

-- The rows whose number is not among the ids; the first has number `i`.
unfoldable pub without : ℕ → List ℕ → List (List ℕ) → List (List ℕ)
without i ids [] = []
without i ids (r ∷ rss) =
    if member i ids then without (suc i) ids rss else r ∷ without (suc i) ids rss

pub Increasing-weaken :
    (lo lo' hi : ℕ) (xs : List ℕ) → lo' ≤ lo → Increasing lo hi xs → Increasing lo' hi xs
Increasing-weaken lo lo' hi [] le h = tt
Increasing-weaken lo lo' hi (x ∷ xs) le h = (omega arith, h.1, h.2)

pub length-Increasing :
    (lo hi : ℕ) (xs : List ℕ) → lo ≤ hi → Increasing lo hi xs → lo + length xs ≤ hi
length-Increasing lo hi [] le h = omega arith
length-Increasing lo hi (x ∷ xs) le h = omega (arith, length-Increasing (suc x) hi xs h.1 h.2)

member-below : (i lo hi : ℕ) (xs : List ℕ) → i < lo → Increasing lo hi xs → member i xs ≡ false
unfolding member
member-below i lo hi [] lt h = refl
member-below i lo hi (x ∷ xs) lt h = ground (arith, member-below i (suc x) hi xs)

without_skip :
    (d i : ℕ) (ds : List ℕ) (rss : List (List ℕ))
    → d < i
    → without i (d ∷ ds) rss ≡ without i ds rss
unfolding without member
without_skip d i ds [] h = refl
without_skip d i ds (r ∷ rss) h = ground (arith, without_skip d (suc i) ds rss)

without_hit :
    (d i : ℕ) (ds : List ℕ) (r : List ℕ) (rest : List (List ℕ))
    → d ≡ i
    → without i (d ∷ ds) (r ∷ rest) ≡ without (suc i) ds rest
unfolding without member
without_hit d i ds r rest h = ground (arith, without_skip d (suc i) ds rest)

pub without-nil : (i : ℕ) (rss : List (List ℕ)) → without i [] rss ≡ rss
unfolding without member
without-nil i [] = refl
without-nil i (r ∷ rss) = ap (◌∷◌ r) (without-nil (suc i) rss)

set-append_at : (xs ys : List ℕ) (y v : ℕ) → set (xs ++ y ∷ ys) (length xs) v ≡ xs ++ v ∷ ys
set-append_at [] ys y v = refl
set-append_at (x ∷ xs) ys y v = ap (◌∷◌ x) (set-append_at xs ys y v)

write_at :
    (xs ys v : List ℕ) (y i x : ℕ)
    → v ≡ xs ++ y ∷ ys
    → i ≡ length xs
    → write v i x ≡ some (xs ++ x ∷ ys)
unfolding write
write_at xs ys v y i x hv hi =
    let within : length xs < length (xs ++ y ∷ ys) = omega (arith, length-append xs (y ∷ ys)) in
    rw (hv, hi, lt→ltb (length xs) (length (xs ++ y ∷ ys)) within, set-append_at)

-- The new arrays hold the rows kept so far, with room for `room` more.
pub record Holds (s : Erasing) (kept : List (List ℕ)) (room : ℕ) : Type 0 where
  pub index : s.inew ≡ length kept
  pub offsets : s.new_offsets ≡ offsets_from 0 kept ++ replicate room 0
  pub indices : s.new_indices ≡ concat kept

keep_row-Holds :
    (c : Crs) (iold : ℕ) (s : Erasing) (kept : List (List ℕ)) (room : ℕ)
    → Holds s kept (suc room)
    → (s' : Erasing) × (keep_row c iold s ≡ some s')
      × (s'.pending ≡ s.pending)
      × Holds s' (kept ++ row c iold ∷ []) room
unfolding keep_row
keep_row-Holds c iold s kept room h =
    let r = row c iold in
    let new_indices = s.new_indices ++ r in
    let all : new_indices ≡ concat (kept ++ r ∷ []) =
      rw (h.indices, concat-append kept (r ∷ []), append-nil) in
    let offsets = offsets_from 0 kept ++ length new_indices ∷ replicate room 0 in
    let done : write s.new_offsets (suc s.inew) (length new_indices) ≡ some offsets =
      write_at (offsets_from 0 kept) (replicate room 0) s.new_offsets 0 (suc s.inew)
        (length new_indices) h.offsets (omega (arith, h.index, length-offsets_from 0 kept)) in
    (
      record {
        inew = suc s.inew;
        pending = s.pending;
        new_offsets = offsets;
        new_indices = new_indices;
      },
      rw (keep_row, done),
      refl,
      record {
        index = omega (arith, h.index, length-append kept (r ∷ []));
        offsets =
            rw
              (
                offsets_from-snoc 0 kept r,
                append_assoc (offsets_from 0 kept) ((0 + length (concat kept) + length r) ∷ [])
                    (replicate room 0),
              )
              (ap (λ k. offsets_from 0 kept ++ k ∷ replicate room 0)
                (ground (arith, length-append s.new_indices r, h.indices)));
        indices = all;
      },
    )

-- What one round of the loop leaves, with `rest` the rows that are still to come.
pub record Round (i : ℕ) (s s' : Erasing) (kept : List (List ℕ)) (r : List ℕ) (rest : List (List ℕ))
    : Type 0 where
  pub now_kept : List (List ℕ)
  pub room : ℕ
  pub holds : Holds s' now_kept room
  pub enough : room + length s'.pending ≡ length rest
  pub increasing : Increasing (suc i) (suc i + length rest) s'.pending
  pub same : kept ++ without i s.pending (r ∷ rest) ≡ now_kept ++ without (suc i) s'.pending rest

keep_Round :
    (c : Crs) (i : ℕ) (s : Erasing) (kept : List (List ℕ)) (room : ℕ) (r : List ℕ)
    (rest : List (List ℕ))
    → row c i ≡ r
    → Holds s kept room
    → room + length s.pending ≡ suc (length rest)
    → Increasing (suc i) (suc i + length rest) s.pending
    → (s' : Erasing) × (keep_row c i s ≡ some s') × Round i s s' kept r rest
unfolding without
keep_Round c i s kept room r rest hr h e inc =
    let fits = length-Increasing (suc i) (suc i + length rest) s.pending (omega arith) inc in
    let one : room ≡ suc (room - 1) = omega arith in
    let (s', run, same, holds) = keep_row-Holds c i s kept (room - 1) (rw (← one) h) in
    (
      s',
      run,
      record {
        now_kept = kept ++ r ∷ [];
        room = room - 1;
        holds = rw (← hr) holds;
        enough = rw same (omega arith);
        increasing = rw same inc;
        same =
            rw (same, member-below i (suc i) (suc i + length rest) s.pending (omega arith) inc)
              (sym (append_assoc kept (r ∷ []) (without (suc i) s.pending rest)));
      },
    )

pub erase_row-Round :
    (c : Crs) (i : ℕ) (s : Erasing) (kept : List (List ℕ)) (room : ℕ) (r : List ℕ)
    (rest : List (List ℕ))
    → row c i ≡ r
    → Holds s kept room
    → room + length s.pending ≡ suc (length rest)
    → (pending : List ℕ) → s.pending ≡ pending
    → Increasing i (suc i + length rest) pending
    → (s' : Erasing) × (erase_row c i s ≡ some s') × Round i s s' kept r rest
unfolding erase_row
erase_row-Round c i s kept room r rest hr h e [] ep inc =
    let (s', run, round) = keep_Round c i s kept room r rest hr h e (rw ep tt) in
    (s', rw (erase_row, ep) run, round)
erase_row-Round c i s kept room r rest hr h e (d ∷ ds) ep inc = elim (Bool-cases (d == i)) [
  | inl hit ↦
      let de : d ≡ i = ground arith in
      (
        record s { pending = ds },
        rw (erase_row, ep, hit) refl,
        record {
          now_kept = kept;
          room = room;
          holds = record { index = h.index; offsets = h.offsets; indices = h.indices };
          enough = omega (arith, ap (length {A = ℕ}) ep);
          increasing = subst (λ k. Increasing (suc k) (suc i + length rest) ds) de inc.2;
          same = rw (ep, without_hit d i ds r rest de) refl;
        },
      )
  | inr miss ↦
      let after : suc i ≤ d = ground arith in
      let (s', run, round) =
        keep_Round c i s kept room r rest hr h e (rw ep (after, inc.1, inc.2)) in
      (s', rw (erase_row, ep, miss) run, round)
]
