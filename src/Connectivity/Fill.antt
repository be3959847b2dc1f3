-- ===== src/Connectivity/Fill.antt =====
-- Storage of the right size, and writes into its rows.
use flecsi.Base.{
  ℕ, zero, suc, ◌+◌, ◌-◌, ◌%◌, ◌^◌, ◌<◌, ◌≡◌, refl, sym, subst, ap, ◌∙◌, true, some, List, [], ◌∷◌,
  ◌++◌, append_assoc, append-nil, arith, length, get_elem?, get_or, set, concat, length-append, leb,
  replicate, length-replicate, map, length-set, take, drop, drop-append_left, take-append_left,
}
use flecsi.Crs.Rows.{concat-append, split_at, offsets_from}
use flecsi.Connectivity.{
  Connectivity, with_ids, with_offsets, resize_loop, resize_ids, resize, clear, set_id, put_row,
}
use flecsi.Connectivity.Rows.{stored, stored_cons, add_count_lem, holding, Fits, row_bounds}

abbrev empty : List ℕ
empty = []

abbrev pub zeros : ℕ → List ℕ
zeros n = replicate n 0

resize_loop_lem :
    (c : Connectivity) (ns : List ℕ) (rows : List (List ℕ))
    → Fits c (rows ++ map zeros ns)
    → resize_loop ns (length (concat rows)) (with_offsets (with_ids c []) (stored rows))
      ≡ some (
        with_offsets (with_ids c []) (stored (rows ++ map zeros ns)),
        length (concat (rows ++ map zeros ns)),
      )
unfolding resize_loop
resize_loop_lem c [] rows fits =
    ap (λ l. some (with_offsets (with_ids c []) (stored l), length (concat l)))
      (sym (append-nil rows))
resize_loop_lem c (n ∷ ns) rows fits =
    let rest = map zeros ns in
    let l1 = length-append rows (zeros n ∷ rest) in
    let l2 = ap length (concat-append rows (zeros n ∷ rest)) in
    let l3 = length-append (concat rows) (zeros n ++ concat rest) in
    let l4 = length-append (zeros n) (concat rest) in
    let l5 : length (zeros n) ≡ n = length-replicate n 0 in
    let m : n % 2 ^ 32 ≡ length (zeros n) = omega arith in
    let q =
      add_count_lem (with_offsets (with_ids c []) (stored rows)) rows (zeros n) refl (omega arith)
        (omega arith) in
    let l6 = ap length (concat-append rows (zeros n ∷ [])) in
    let l7 = length-append (concat rows) (zeros n ++ []) in
    let l8 = length-append (zeros n) [] in
    let s : (length (concat rows) + length (zeros n)) % 2 ^ 64
        ≡ length (concat (rows ++ zeros n ∷ [])) =
      omega arith in
    let a = append_assoc rows (zeros n ∷ []) rest in
    rw (m, q, s)
      (resize_loop_lem c ns (rows ++ zeros n ∷ []) (subst (Fits c) (sym a) fits)
        ∙ ap (λ l. some (with_offsets (with_ids c []) (stored l), length (concat l))) a)

zeros-append : (n m : ℕ) → zeros n ++ zeros m ≡ zeros (n + m)
zeros-append zero m = ap zeros (omega arith)
zeros-append (suc n) m =
    let e : suc (n + m) ≡ suc n + m = omega arith in ap (λ l. 0 ∷ l) (zeros-append n m) ∙ ap zeros e

concat-zeros : (ns : List ℕ) → concat (map zeros ns) ≡ zeros (length (concat (map zeros ns)))
concat-zeros [] = refl
concat-zeros (n ∷ ns) =
    let l : length (zeros n) ≡ n = length-replicate n 0 in
    let e : n + length (concat (map zeros ns)) ≡ length (zeros n ++ concat (map zeros ns)) =
      omega (arith, length-append (zeros n) (concat (map zeros ns))) in
    ap (λ l. zeros n ++ l) (concat-zeros ns)
    ∙ zeros-append n (length (concat (map zeros ns)))
    ∙ ap zeros e

take-nil : (n : ℕ) → take n empty ≡ []
take-nil zero = refl
take-nil (suc n) = refl

-- `resize` makes rows of zeros.
pub resize_lem :
    (c : Connectivity) (ns : List ℕ)
    → Fits c (map zeros ns)
    → resize ns c ≡ some (holding c (map zeros ns))
unfolding resize resize_ids clear stored
resize_lem c ns fits =
    let total = length (concat (map zeros ns)) in
    let fit : leb total c.id_capacity ≡ true = ground arith in
    let z : total - 0 ≡ total = omega arith in
    let t : take total empty ≡ [] = take-nil total in
    rw (resize_loop_lem c ns [] fits, fit, z, t)
      (ap (λ l. some (with_offsets (with_ids c l) (stored (map zeros ns)))) (sym (concat-zeros ns)))

offsets_from-same :
    (s : ℕ) (pre rest : List (List ℕ)) (q r : List ℕ)
    → length q ≡ length r
    → offsets_from s (pre ++ q ∷ rest) ≡ offsets_from s (pre ++ r ∷ rest)
unfolding offsets_from
offsets_from-same s [] rest q r e = ap (λ n. s ∷ offsets_from (s + n) rest) e
offsets_from-same s (p ∷ pre) rest q r e =
    ap (λ l. s ∷ l) (offsets_from-same (s + length p) pre rest q r e)

-- Rows of the same length have the same offsets.
stored-same :
    (pre rest : List (List ℕ)) (q r : List ℕ)
    → length q ≡ length r
    → stored (pre ++ q ∷ rest) ≡ stored (pre ++ r ∷ rest)
stored-same pre rest q r e =
    stored_cons pre rest q ∙ offsets_from-same 0 pre rest q r e ∙ sym (stored_cons pre rest r)

set-append_right : (xs ys : List ℕ) (p v : ℕ) → set (xs ++ ys) (length xs + p) v ≡ xs ++ set ys p v
set-append_right [] ys p v = ap (λ i. set ys i v) (omega arith)
set-append_right (x ∷ xs) ys p v =
    let e : suc (length xs) + p ≡ suc (length xs + p) = omega arith in
    rw e (ap (λ l. x ∷ l) (set-append_right xs ys p v))

set-append_left : (xs ys : List ℕ) (p v : ℕ) → p < length xs → set (xs ++ ys) p v ≡ set xs p v ++ ys
set-append_left [] ys p v h = absurd (omega arith)
set-append_left (x ∷ xs) ys zero v h = refl
set-append_left (x ∷ xs) ys (suc p) v h = ap (λ l. x ∷ l) (set-append_left xs ys p v (omega arith))

set-rows :
    (pre rest : List (List ℕ)) (q r : List ℕ)
    → set (pre ++ q ∷ rest) (length pre) r ≡ pre ++ r ∷ rest
set-rows [] rest q r = refl
set-rows (p ∷ pre) rest q r = ap (λ l. p ∷ l) (set-rows pre rest q r)

-- `set` writes one id of one row.
pub set_id_lem :
    (c : Connectivity) (rows : List (List ℕ)) (i p v : ℕ) (r : List ℕ)
    → i < length rows
    → get_elem? rows i ≡ some r
    → p < length r
    → set_id (holding c rows) i v p ≡ holding c (set rows i (set r p v))
unfolding set_id
set_id_lem c rows i p v r lt at h =
    let (pre, q, rest, e, len, at') = split_at rows i lt in
    let same : q ≡ r = cc (at, at') in
    let o = (row_bounds (holding c (pre ++ q ∷ rest)) pre rest q refl).0 in
    let ids : set (concat (pre ++ q ∷ rest)) (length (concat pre) + p) v
        ≡ concat (pre ++ set q p v ∷ rest) =
      ap (λ l. set l (length (concat pre) + p) v) (concat-append pre (q ∷ rest))
      ∙ set-append_right (concat pre) (q ++ concat rest) p v
      ∙ ap (λ l. concat pre ++ l)
          (set-append_left q (concat rest) p v (subst (λ l. p < length l) (sym same) h))
      ∙ sym (concat-append pre (set q p v ∷ rest)) in
    rw (← same, e, ← len, o, ids, set-rows pre rest q (set q p v))
      (ap (λ l. with_offsets (with_ids c (concat (pre ++ set q p v ∷ rest))) l)
        (stored-same pre rest q (set q p v) (sym (length-set q p v))))

-- Writing a row of the same length back.
pub put_row_lem :
    (c : Connectivity) (rows : List (List ℕ)) (i : ℕ) (r s : List ℕ)
    → i < length rows
    → get_elem? rows i ≡ some r
    → length s ≡ length r
    → put_row (holding c rows) (get_or (stored rows) i 0) s ≡ holding c (set rows i s)
unfolding put_row
put_row_lem c rows i r s lt at h =
    let (pre, q, rest, e, len, at') = split_at rows i lt in
    let same : q ≡ r = cc (at, at') in
    let o = (row_bounds (holding c (pre ++ q ∷ rest)) pre rest q refl).0 in
    let before : take (length (concat pre)) (concat (pre ++ q ∷ rest)) ≡ concat pre =
      ap (take (length (concat pre))) (concat-append pre (q ∷ rest))
      ∙ take-append_left (concat pre) (q ++ concat rest) in
    let l : length (concat pre) + length s ≡ length (concat pre ++ q) =
      omega (arith, length-append (concat pre) q, ap length same) in
    let after : drop (length (concat pre) + length s) (concat (pre ++ q ∷ rest)) ≡ concat rest =
      ap (drop (length (concat pre) + length s))
        (concat-append pre (q ∷ rest) ∙ sym (append_assoc (concat pre) q (concat rest)))
      ∙ ap (λ n. drop n ((concat pre ++ q) ++ concat rest)) l
      ∙ drop-append_left (concat pre ++ q) (concat rest) in
    let ids : concat pre ++ s ++ concat rest ≡ concat (pre ++ s ∷ rest) =
      append_assoc (concat pre) s (concat rest) ∙ sym (concat-append pre (s ∷ rest)) in
    rw (e, ← len, o, before, after, ids, set-rows pre rest q s)
      (ap (λ l. with_offsets (with_ids c (concat (pre ++ s ∷ rest))) l)
        (stored-same pre rest q s (ap length same ∙ sym h)))
