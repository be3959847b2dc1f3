-- ===== src/RowVector/Assign.antt =====
-- `assign`, `resize` and `push_back` of `row_vector_u`.
use flecsi.Base.{
  ℕ, zero, suc, ◌+◌, ◌-◌, ◌%◌, ◌^◌, ◌≤◌, ◌<◌, ◌≡◌, refl, sym, ap, ◌∙◌, none, some, true, List, [],
  ◌∷◌, arith, leb, length, get_elem?,
}
use native.Mathlib.Decide.{dec_lt}
use flecsi.Connectivity.Refs.{update}
use flecsi.RowVector.{
  RowVector, store_all, copy_backward, resize_row, assign, at_index, row_size, push_back, insert_at,
}
use flecsi.RowVector.Copies.{Leaves, store_lem, update_here, update_away}
use flecsi.RowVector.Rows.{IsValid, reserve_lem, make_room_lem, at_index-below, at_index-outside}

module _ {A : Type 0} where
  record StoreAll (i : ℕ) (values : List A) (v : RowVector A) : Type 0 where
    result : Leaves (store_all i values v) v
    below : (j : ℕ) → j < i → result.datap j ≡ v.datap j
    stored : (k : ℕ) → k < length values → some (result.datap (i + k)) ≡ get_elem? values k

  store_all_lem :
      (i : ℕ) (values : List A) (v : RowVector A)
      → i + length values ≤ v.capacity
      → StoreAll i values v
  unfolding store_all
  store_all_lem i [] v le = record {
    result = record { datap = v.datap; returns = refl };
    below = λ j lt. refl;
    stored = λ k lt. absurd (omega arith);
  }
  store_all_lem i (a ∷ values) v le =
      let next : RowVector A = record {
        count = v.count;
        capacity = v.capacity;
        datap = update v.datap i a;
      } in
      let rest = store_all_lem (suc i) values next (omega arith) in
      let first : rest.result.datap i ≡ a = rest.below i (omega arith) ∙ update_here v.datap i a in
      let place : i + 0 ≡ i = omega arith in
      record {
        result = record {
          datap = rest.result.datap;
          returns = rw (store_lem v i a (omega arith)) rest.result.returns;
        };
        below = λ j lt.
            rest.below j (omega arith) ∙ update_away v.datap i j a (λ e. absurd (omega arith));
        stored = λ k.
            stored_from i a values rest.result.datap (ap rest.result.datap place ∙ first)
              rest.stored k;
      }
    where
      stored_from :
          (i : ℕ) (a : A) (values : List A) (f : ℕ → A)
          → f (i + 0) ≡ a
          → ((k : ℕ) → k < length values → some (f (suc i + k)) ≡ get_elem? values k)
          → (k : ℕ) → k < suc (length values)
          → some (f (i + k)) ≡ get_elem? (a ∷ values) k
      stored_from i a values f here later zero lt = ap some here
      stored_from i a values f here later (suc k) lt =
          ap (λ n. some (f n)) (omega arith) ∙ later k (omega arith)

  get_elem?-outside : (values : List A) (i : ℕ) → length values ≤ i → get_elem? values i ≡ none
  get_elem?-outside [] i le = refl
  get_elem?-outside (a ∷ values) zero le = absurd (omega arith)
  get_elem?-outside (a ∷ values) (suc i) le = get_elem?-outside values i (omega arith)

  -- For a row whose count is within its capacity and a list of less than 2^32 elements, `assign`
  -- returns, with no access outside the buffer, a row that is within its capacity and has the
  -- length and the elements of the list.
  pub assign_lem :
      (fresh : ℕ → A) (values : List A) (v : RowVector A) (i : ℕ)
      → IsValid v
      → length values < 2 ^ 32
      → (w : RowVector A) × (assign fresh values v ≡ some w)
        × IsValid w
        × (row_size w ≡ length values)
        × (at_index w i ≡ get_elem? values i)
  unfolding assign resize_row row_size
  assign_lem fresh values v i valid small =
      let roomy = reserve_lem fresh (length values) v valid in
      let room = roomy.room in
      let sized : RowVector A = record {
        count = length values;
        capacity = roomy.after.capacity;
        datap = roomy.after.datap;
      } in
      let run = store_all_lem 0 values sized (omega arith) in
      let w : RowVector A = record {
        count = length values;
        capacity = roomy.after.capacity;
        datap = run.result.datap;
      } in
      let whole : length values % 2 ^ 32 ≡ length values = omega arith in
      (
        w,
        rw (whole, roomy.returns) run.result.returns,
        room,
        refl,
        elim (dec_lt i (length values)) [
          | yes lt ↦
              let place : i ≡ 0 + i = omega arith in
              at_index-below w i room lt
              ∙ ap (λ n. some (run.result.datap n)) place
              ∙ run.stored i lt
          | no ge ↦
              at_index-outside w i (omega arith) ∙ sym (get_elem?-outside values i (omega arith))
        ],
      )

  -- For a row whose count is within its capacity and below 2^32 - 5, `push_back` does what `insert`
  -- at the end does.
  pub push_back-insert_at :
      (fresh : ℕ → A) (value : A) (v : RowVector A)
      → IsValid v
      → v.count + 5 < 2 ^ 32
      → push_back fresh value v ≡ insert_at fresh (row_size v) value v
  unfolding push_back insert_at row_size copy_backward
  push_back-insert_at fresh value v valid small =
      let roomy = make_room_lem fresh v valid small in
      let within : leb v.count v.count ≡ true = ground arith in
      let none_behind : roomy.after.count - v.count ≡ 0 = omega (arith, roomy.count) in
      rw (within, roomy.returns, none_behind, roomy.count) refl
