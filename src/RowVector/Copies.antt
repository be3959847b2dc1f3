-- ===== src/RowVector/Copies.antt =====
-- What the copies of `row_vector_u` leave in the buffer.
use flecsi.Base.{
  ℕ, zero, suc, ◌+◌, ◌≤◌, ◌<◌, ◌≡◌, ◌≢◌, refl, ◌∙◌, Option, some, true, arith, ltb, ==_refl, ==_ne,
}
use native.Mathlib.Decide.{ℕ_discrete}
use flecsi.Connectivity.Refs.{update}
use flecsi.RowVector.{RowVector, load, store, copy_n, copy, copy_backward}

module _ {A : Type 0} where
  pub load_lem : (v : RowVector A) (i : ℕ) → i < v.capacity → load v i ≡ some (v.datap i)
  unfolding load
  load_lem v i lt = let below : ltb i v.capacity ≡ true = ground arith in rw (below) refl

  pub store_lem :
      (v : RowVector A) (i : ℕ) (a : A)
      → i < v.capacity
      → store i a v
        ≡ some (record { count = v.count; capacity = v.capacity; datap = update v.datap i a })
  unfolding store
  store_lem v i a lt = let below : ltb i v.capacity ≡ true = ground arith in rw (below) refl

  pub update_here : (f : ℕ → A) (i : ℕ) (a : A) → update f i a i ≡ a
  update_here f i a = rw (==_refl i) refl

  pub update_away : (f : ℕ → A) (i j : ℕ) (a : A) → j ≢ i → update f i a j ≡ f j
  update_away f i j a ne = rw (==_ne j i ne) refl

  -- A run of stores that keeps the count and the capacity, with the new contents `f`.
  pub record Leaves (run : Option (RowVector A)) (v : RowVector A) : Type 0 where
    pub datap : ℕ → A
    pub returns : run ≡ some (record { count = v.count; capacity = v.capacity; datap = datap })

  pub record CopyN (n i : ℕ) (old new : RowVector A) : Type 0 where
    pub result : Leaves (copy_n n i old new) new
    pub below : (j : ℕ) → j < i → result.datap j ≡ new.datap j
    pub copied : (j : ℕ) → i ≤ j → j < i + n → result.datap j ≡ old.datap j

  pub copy_n_lem :
      (n i : ℕ) (old new : RowVector A)
      → i + n ≤ old.capacity
      → i + n ≤ new.capacity
      → CopyN n i old new
  unfolding copy_n
  copy_n_lem zero i old new le le' = record {
    result = record { datap = new.datap; returns = refl };
    below = λ j lt. refl;
    copied = λ j ge lt. absurd (omega arith);
  }
  copy_n_lem (suc n) i old new le le' =
      let next : RowVector A = record {
        count = new.count;
        capacity = new.capacity;
        datap = update new.datap i (old.datap i);
      } in
      let rest = copy_n_lem n (suc i) old next (omega arith) (omega arith) in
      record {
        result = record {
          datap = rest.result.datap;
          returns =
              rw (load_lem old i (omega arith), store_lem new i (old.datap i) (omega arith))
                rest.result.returns;
        };
        below = λ j lt.
            rest.below j (omega arith)
            ∙ update_away new.datap i j (old.datap i) (λ e. absurd (omega arith));
        copied = λ j ge lt. elim (ℕ_discrete j i) [
          | yes e ↦ rest.below j (omega arith) ∙ rw (e) (update_here new.datap i (old.datap i))
          | no ne ↦ rest.copied j (omega arith) (omega arith)
        ];
      }

  pub record Copy (n dst : ℕ) (v : RowVector A) : Type 0 where
    pub result : Leaves (copy n (suc dst) dst v) v
    pub below : (j : ℕ) → j < dst → result.datap j ≡ v.datap j
    pub copied : (j : ℕ) → dst ≤ j → j < dst + n → result.datap j ≡ v.datap (suc j)

  pub copy_lem : (n dst : ℕ) (v : RowVector A) → suc dst + n ≤ v.capacity → Copy n dst v
  unfolding copy
  copy_lem zero dst v le = record {
    result = record { datap = v.datap; returns = refl };
    below = λ j lt. refl;
    copied = λ j ge lt. absurd (omega arith);
  }
  copy_lem (suc n) dst v le =
      let next : RowVector A = record {
        count = v.count;
        capacity = v.capacity;
        datap = update v.datap dst (v.datap (suc dst));
      } in
      let rest = copy_lem n (suc dst) next (omega arith) in
      record {
        result = record {
          datap = rest.result.datap;
          returns =
              rw
                (
                  load_lem v (suc dst) (omega arith),
                  store_lem v dst (v.datap (suc dst)) (omega arith),
                )
                rest.result.returns;
        };
        below = λ j lt.
            rest.below j (omega arith)
            ∙ update_away v.datap dst j (v.datap (suc dst)) (λ e. absurd (omega arith));
        copied = λ j ge lt. elim (ℕ_discrete j dst) [
          | yes e ↦
              rest.below j (omega arith) ∙ rw (e) (update_here v.datap dst (v.datap (suc dst)))
          | no ne ↦
              rest.copied j (omega arith) (omega arith)
              ∙ update_away v.datap dst (suc j) (v.datap (suc dst)) (λ e. absurd (omega arith))
        ];
      }

  pub record CopyBackward (n first : ℕ) (v : RowVector A) : Type 0 where
    pub result : Leaves (copy_backward n first v) v
    pub below : (j : ℕ) → j < first → result.datap j ≡ v.datap j
    pub moved_up : (j : ℕ) → first ≤ j → j < first + n → result.datap (suc j) ≡ v.datap j
    pub above : (j : ℕ) → first + n < j → result.datap j ≡ v.datap j

  pub copy_backward_lem :
      (n first : ℕ) (v : RowVector A) → first + n < v.capacity → CopyBackward n first v
  unfolding copy_backward
  copy_backward_lem zero first v lt = record {
    result = record { datap = v.datap; returns = refl };
    below = λ j below. refl;
    moved_up = λ j ge below. absurd (omega arith);
    above = λ j gt. refl;
  }
  copy_backward_lem (suc n) first v lt =
      let last : ℕ = first + n in
      let next : RowVector A = record {
        count = v.count;
        capacity = v.capacity;
        datap = update v.datap (suc last) (v.datap last);
      } in
      let rest = copy_backward_lem n first next (omega arith) in
      record {
        result = record {
          datap = rest.result.datap;
          returns =
              rw
                (
                  load_lem v (first + n) (omega arith),
                  store_lem v (suc (first + n)) (v.datap (first + n)) (omega arith),
                )
                rest.result.returns;
        };
        below = λ j below.
            rest.below j below
            ∙ update_away v.datap (suc last) j (v.datap last) (λ e. absurd (omega arith));
        moved_up = λ j ge below. elim (ℕ_discrete j last) [
          | yes e ↦
              rest.above (suc j) (omega arith)
              ∙ rw (e) (update_here v.datap (suc last) (v.datap last))
          | no ne ↦
              rest.moved_up j ge (omega arith)
              ∙ update_away v.datap (suc last) j (v.datap last) (λ e. absurd (omega arith))
        ];
        above = λ j gt.
            rest.above j (omega arith)
            ∙ update_away v.datap (suc last) j (v.datap last) (λ e. absurd (omega arith));
      }
