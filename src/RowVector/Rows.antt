-- ===== src/RowVector/Rows.antt =====
-- `row_vector_u` as a sequence: what `operator[]` gives after `insert`, `erase` and `assign`.
use flecsi.Base.{
  ℕ, suc, ◌+◌, ◌-◌, ◌^◌, ◌≤◌, ◌<◌, ◌≡◌, refl, sym, ap, ◌∙◌, Option, none, some, true, false, arith,
  ltb, leb, ◌==◌, if◌then◌else◌, ==_refl, ==_ne,
}
use native.Mathlib.Decide.{ℕ_discrete, dec_lt}
use flecsi.Connectivity.Refs.{update}
use flecsi.RowVector.{RowVector, reserve, make_room, insert_at, erase_at, add32, at_index, row_size}
use flecsi.RowVector.Copies.{
  load_lem, store_lem, update_here, update_away, copy_n_lem, copy_lem, copy_backward_lem,
}

add32_small : (a b : ℕ) → a + b < 2 ^ 32 → add32 a b ≡ a + b
unfolding add32
add32_small a b lt = omega arith

module _ {A : Type 0} where
  -- The invariant of the buffer: what is counted is allocated.
  abbrev pub IsValid : RowVector A → Type 0
  IsValid v = v.count ≤ v.capacity

  pub at_index-below :
      (v : RowVector A) (i : ℕ) → IsValid v → i < v.count → at_index v i ≡ some (v.datap i)
  unfolding at_index
  at_index-below v i valid lt =
      let below : ltb i v.count ≡ true = ground arith in rw (below) (load_lem v i (omega arith))

  pub at_index-outside : (v : RowVector A) (i : ℕ) → v.count ≤ i → at_index v i ≡ none
  unfolding at_index
  at_index-outside v i le = let above : ltb i v.count ≡ false = ground arith in rw (above) refl

  -- Two rows agree where the counts and the elements do.
  at_index_same :
      (v w : RowVector A) (i j : ℕ)
      → IsValid v
      → IsValid w
      → (i < v.count → j < w.count)
      → (v.count ≤ i → w.count ≤ j)
      → (i < v.count → v.datap i ≡ w.datap j)
      → at_index v i ≡ at_index w j
  at_index_same v w i j valid valid' within outside same = elim (dec_lt i v.count) [
    | yes lt ↦
        at_index-below v i valid lt
        ∙ ap some (same lt)
        ∙ sym (at_index-below w j valid' (within lt))
    | no ge ↦
        at_index-outside v i (omega arith) ∙ sym (at_index-outside w j (outside (omega arith)))
  ]

  pub record Room (run : Option (RowVector A)) (v : RowVector A) (least : ℕ) : Type 0 where
    pub after : RowVector A
    pub returns : run ≡ some after
    pub count : after.count ≡ v.count
    pub room : least ≤ after.capacity
    pub valid : IsValid after
    pub kept : (j : ℕ) → j < v.count → after.datap j ≡ v.datap j

  pub reserve_lem :
      (fresh : ℕ → A) (new_cap : ℕ) (v : RowVector A)
      → IsValid v
      → Room (reserve fresh new_cap v) v new_cap
  unfolding reserve
  reserve_lem fresh new_cap v valid = elim (dec_lt v.capacity new_cap) [
    | yes more ↦
        let grow : leb new_cap v.capacity ≡ false = ground arith in
        let new : RowVector A = record { count = v.count; capacity = new_cap; datap = fresh } in
        let run = copy_n_lem v.count 0 v new (omega arith) (omega arith) in
        record {
          after = record { count = v.count; capacity = new_cap; datap = run.result.datap };
          returns = rw (grow) run.result.returns;
          count = refl;
          room = omega arith;
          valid = omega arith;
          kept = λ j lt. run.copied j (omega arith) (omega arith);
        }
    | no enough ↦
        let stay : leb new_cap v.capacity ≡ true = ground arith in
        record {
          after = v;
          returns = rw (stay) refl;
          count = refl;
          room = omega arith;
          valid = valid;
          kept = λ j lt. refl;
        }
  ]

  pub make_room_lem :
      (fresh : ℕ → A) (v : RowVector A)
      → IsValid v
      → v.count + 5 < 2 ^ 32
      → Room (make_room fresh v) v (suc v.count)
  unfolding make_room
  make_room_lem fresh v valid small = elim (ℕ_discrete v.count v.capacity) [
    | yes full ↦
        let full' : (v.count == v.capacity) ≡ true = rw (full) (==_refl v.capacity) in
        let more = add32_small v.count 5 small in
        let grown = reserve_lem fresh (add32 v.count 5) v valid in
        let room = grown.room in
        record {
          after = grown.after;
          returns = rw (full') grown.returns;
          count = grown.count;
          room = omega arith;
          valid = grown.valid;
          kept = grown.kept;
        }
    | no space ↦ record {
      after = v;
      returns = rw (==_ne v.count v.capacity space) refl;
      count = refl;
      room = omega arith;
      valid = valid;
      kept = λ j lt. refl;
    }
  ]

  pub record Inserted (run : Option (RowVector A)) (pos : ℕ) (value : A) (v : RowVector A)
      : Type 0 where
    pub after : RowVector A
    pub returns : run ≡ some after
    pub count : after.count ≡ suc v.count
    pub valid : IsValid after
    pub below : (j : ℕ) → j < pos → after.datap j ≡ v.datap j
    pub here : after.datap pos ≡ value
    pub above : (j : ℕ) → pos ≤ j → j < v.count → after.datap (suc j) ≡ v.datap j

  insert_at-Inserted :
      (fresh : ℕ → A) (pos : ℕ) (value : A) (v : RowVector A)
      → IsValid v
      → pos ≤ v.count
      → v.count + 5 < 2 ^ 32
      → Inserted (insert_at fresh pos value v) pos value v
  unfolding insert_at
  insert_at-Inserted fresh pos value v valid le small =
      let within : leb pos v.count ≡ true = ground arith in
      let roomy = make_room_lem fresh v valid small in
      let count = roomy.count in
      let room = roomy.room in
      let shift = copy_backward_lem (roomy.after.count - pos) pos roomy.after (omega arith) in
      let shifted : RowVector A = record {
        count = roomy.after.count;
        capacity = roomy.after.capacity;
        datap = shift.result.datap;
      } in
      let more = add32_small roomy.after.count 1 (omega arith) in
      record {
        after = record {
          count = add32 roomy.after.count 1;
          capacity = roomy.after.capacity;
          datap = update shift.result.datap pos value;
        };
        returns =
            rw
              (
                within,
                roomy.returns,
                shift.result.returns,
                store_lem shifted pos value (omega arith),
              )
              refl;
        count = omega arith;
        valid = omega arith;
        below = λ j lt.
            update_away shift.result.datap pos j value (λ e. absurd (omega arith))
            ∙ shift.below j lt
            ∙ roomy.kept j (omega arith);
        here = update_here shift.result.datap pos value;
        above = λ j ge lt.
            update_away shift.result.datap pos (suc j) value (λ e. absurd (omega arith))
            ∙ shift.moved_up j ge (omega arith)
            ∙ roomy.kept j lt;
      }

  record Erased (run : Option (RowVector A)) (pos : ℕ) (v : RowVector A) : Type 0 where
    after : RowVector A
    returns : run ≡ some after
    count : suc after.count ≡ v.count
    valid : IsValid after
    below : (j : ℕ) → j < pos → after.datap j ≡ v.datap j
    above : (j : ℕ) → pos ≤ j → suc j < v.count → after.datap j ≡ v.datap (suc j)

  erase_at-Erased :
      (pos : ℕ) (v : RowVector A) → IsValid v → pos < v.count → Erased (erase_at pos v) pos v
  unfolding erase_at
  erase_at-Erased pos v valid lt =
      let within : ltb pos v.count ≡ true = ground arith in
      let run = copy_lem (v.count - suc pos) pos v (omega arith) in
      record {
        after = record { count = v.count - 1; capacity = v.capacity; datap = run.result.datap };
        returns = rw (within, run.result.returns) refl;
        count = omega arith;
        valid = omega arith;
        below = run.below;
        above = λ j ge below. run.copied j ge (omega arith);
      }

  -- For a row whose count is within its capacity and below 2^32 - 5, and a position that is not behind
  -- its end, `insert` returns, with no access outside the buffer, a row that is one longer and within
  -- its capacity: the elements in front of the position stay, the new one is there, and the
  -- others follow, each one place later.
  pub insert_at_lem :
      (fresh : ℕ → A) (pos : ℕ) (value : A) (v : RowVector A) (i : ℕ)
      → IsValid v
      → pos ≤ v.count
      → v.count + 5 < 2 ^ 32
      → (w : RowVector A) × (insert_at fresh pos value v ≡ some w)
        × (row_size w ≡ suc (row_size v))
        × IsValid w
        × (at_index w i ≡ (
            if ltb i pos
            then at_index v i
            else if i == pos
            then some value
            else at_index v (i - 1)))
  unfolding row_size
  insert_at_lem fresh pos value v i valid le small =
      let new = insert_at-Inserted fresh pos value v valid le small in
      let w = new.after in
      let longer = new.count in
      (
        w,
        new.returns,
        new.count,
        new.valid,
        elim (dec_lt i pos) [
          | yes lt ↦
              let front : ltb i pos ≡ true = ground arith in
              rw (front) (
                at_index_same w v i i new.valid valid (λ in_w. omega arith) (λ out. omega arith)
                  (λ in_w. new.below i lt))
          | no ge ↦
              let back : ltb i pos ≡ false = ground arith in
              elim (ℕ_discrete i pos) [
                | yes e ↦
                    rw (back, e, ==_refl pos)
                      (at_index-below w pos new.valid (omega arith) ∙ ap some new.here)
                | no ne ↦
                    let next : suc (i - 1) ≡ i = omega arith in
                    rw (back, ==_ne i pos ne)
                      (at_index_same w v i (i - 1) new.valid valid (λ lt. omega arith)
                        (λ out. omega arith)
                        (λ lt.
                          ap w.datap (sym next) ∙ new.above (i - 1) (omega arith) (omega arith)))
              ]
        ],
      )

  -- For a row whose count is within its capacity and below 2^32 - 5, and a position that is not behind
  -- its end, `insert` and then `erase` at the same position both return, and give back a row of the
  -- same size and the same elements.
  pub erase_at-insert_at :
      (fresh : ℕ → A) (pos : ℕ) (value : A) (v : RowVector A) (i : ℕ)
      → IsValid v
      → pos ≤ v.count
      → v.count + 5 < 2 ^ 32
      → (w u : RowVector A) × (insert_at fresh pos value v ≡ some w)
        × (erase_at pos w ≡ some u)
        × IsValid u
        × (row_size u ≡ row_size v)
        × (at_index u i ≡ at_index v i)
  unfolding row_size
  erase_at-insert_at fresh pos value v i valid le small =
      let new = insert_at-Inserted fresh pos value v valid le small in
      let w = new.after in
      let longer = new.count in
      let gone = erase_at-Erased pos w new.valid (omega arith) in
      let shorter = gone.count in
      (
        w,
        gone.after,
        new.returns,
        gone.returns,
        gone.valid,
        omega arith,
        at_index_same gone.after v i i gone.valid valid (λ in_u. omega arith) (λ out. omega arith)
            (λ lt. elim (dec_lt i pos) [
              | yes front ↦ gone.below i front ∙ new.below i front
              | no back ↦
                  gone.above i (omega arith) (omega arith) ∙ new.above i (omega arith) (omega arith)
            ]),
      )
