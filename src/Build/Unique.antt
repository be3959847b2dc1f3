-- ===== src/Build/Unique.antt =====
-- What `build_connectivity` leaves when there is no intermediate map.
use flecsi.Base.{
  ℕ, zero, suc, ◌+◌, ◌≤◌, ◌<◌, ◌^◌, ◌≡◌, refl, sym, ap, ◌∙◌, false, some, List, [], ◌∷◌, ◌++◌, map,
  if◌then◌else◌, arith, length, get_elem?, concat, length-append, append_assoc, append-nil, ==_refl,
  ==_ne, leb, le→leb, true,
}
use native.Mathlib.Decide.{ℕ_discrete}
use flecsi.StdSet.{member}
use flecsi.Connectivity.Intersect.{sorted}
use flecsi.Connectivity.Picks.{AllDistinct}
use flecsi.Connectivity.Refs.{table, table_ext, update, set-table, get_elem?-table}
use flecsi.Graph.Chosen.{AllBelow}
use flecsi.Build.{BuildContext, Building, build_loop, within_buffer}
use flecsi.Build.Firsts.{
  index_of, note, note_all, number, Noted, note_all-grows, number-grown, entity_loop-Noted,
  index_of-note, note-grows, index_of-append,
}

-- The first occurrences over a list of cells.
unfoldable pub firsts_of : (ℕ → List (List ℕ)) → List ℕ → List (List ℕ) → List (List ℕ)
firsts_of parts [] firsts = firsts
firsts_of parts (c ∷ cells) firsts = firsts_of parts cells (note_all firsts (parts c))

-- How many entities the cells have, each counted for each of its cells.
unfoldable pub count_parts : (ℕ → List (List ℕ)) → List ℕ → ℕ
count_parts parts [] = 0
count_parts parts (c ∷ cells) = length (parts c) + count_parts parts cells

length-note_all :
    (firsts parts : List (List ℕ)) → length (note_all firsts parts) ≤ length firsts + length parts
unfolding note_all
length-note_all firsts [] = omega arith
length-note_all firsts (a ∷ parts) =
    let one = note-grows firsts a in
    omega (
      arith,
      length-note_all (note firsts a) parts,
      ap length one.1,
      length-append firsts one.0,
      one.2,
    )

pub firsts_of-grows :
    (parts : ℕ → List (List ℕ)) (cells : List ℕ) (firsts : List (List ℕ))
    → (more : List (List ℕ)) × (firsts_of parts cells firsts ≡ firsts ++ more)
unfolding firsts_of
firsts_of-grows parts [] firsts = ([], sym (append-nil firsts))
firsts_of-grows parts (c ∷ cells) firsts =
    let one = note_all-grows firsts (parts c) in
    let rest = firsts_of-grows parts cells (note_all firsts (parts c)) in
    (one.0 ++ rest.0, rest.1 ∙ ap (λ l. l ++ rest.0) one.1 ∙ append_assoc firsts one.0 rest.0)

-- An entity of a list that has been noted is in the first occurrences.
pub indexed :
    (firsts parts : List (List ℕ)) (i : ℕ) (a : List ℕ)
    → get_elem? parts i ≡ some a
    → (n : ℕ) × (index_of (sorted a) 0 (note_all firsts parts) ≡ some n)
unfolding note_all
indexed firsts [] i a e = absurd cc
indexed firsts (b ∷ parts) zero a e =
    let same : b ≡ a = cc in
    let grown = note_all-grows (note firsts b) parts in
    let here : index_of (sorted b) 0 (note_all (note firsts b) parts)
        ≡ some (number (note firsts b) b) =
      rw (grown.1) (
        index_of-append (sorted b) 0 (number (note firsts b) b) (note firsts b) grown.0
          (index_of-note firsts b)) in
    (number (note firsts b) b, rw (← same) here)
indexed firsts (b ∷ parts) (suc i) a e = indexed (note firsts b) parts i a e

map_same :
    (f g : List ℕ → ℕ) (xs : List (List ℕ))
    → ((i : ℕ) (a : List ℕ) → get_elem? xs i ≡ some a → f a ≡ g a)
    → map f xs ≡ map g xs
map_same f g [] same = refl
map_same f g (x ∷ xs) same = rw (same 0 x refl, map_same f g xs (λ i a e. same (suc i) a e)) refl

-- The numbers of a cell's entities stay what they are.
numbers-grown :
    (firsts parts more : List (List ℕ))
    → map (number (note_all firsts parts ++ more)) parts
      ≡ map (number (note_all firsts parts)) parts
unfolding number
numbers-grown firsts parts more =
    map_same (number (note_all firsts parts ++ more)) (number (note_all firsts parts)) parts
      (λ i a e.
        let at = indexed firsts parts i a e in
        number-grown (note_all firsts parts) more a at.0 at.1 ∙ rw (at.1) refl)

module _ (ctx : BuildContext) (dim dom : ℕ) (parts : ℕ → List (List ℕ)) where
  abbrev pub rows_of : List (List ℕ) → List ℕ → (ℕ → List ℕ) → ℕ → List ℕ
  rows_of firsts cells g k = if member k cells then g k ++ map (number firsts) (parts k) else g k

  pub build_loop-Noted :
      (n : ℕ) (cells : List ℕ) (firsts : List (List ℕ)) (b : Building) (g : ℕ → List ℕ)
      → ctx.has_intermediate_map ≡ false
      → ((c : ℕ) → ctx.create_entities c ≡ (map length (parts c), concat (parts c)))
      → ((c : ℕ) → length (concat (parts c)) ≤ 4096)
      → AllBelow n cells
      → AllDistinct cells
      → length firsts + count_parts parts cells ≤ 2 ^ 32
      → Noted ctx.own_color dim dom b firsts
      → (b' : Building) × (build_loop ctx dim dom cells b (table 0 n g)
          ≡ some (b', table 0 n (rows_of (firsts_of parts cells firsts) cells g)))
        × Noted ctx.own_color dim dom b' (firsts_of parts cells firsts)
  unfolding build_loop within_buffer firsts_of count_parts member
  build_loop-Noted n [] firsts b g off create buffer below distinct small h = (b, refl, h)
  build_loop-Noted n (c ∷ cells) firsts b g off create buffer below distinct small h =
      let own : List (List ℕ) = note_all firsts (parts c) in
      let here = entity_loop-Noted ctx dim dom c (parts c) firsts b (g c) off h (omega arith) in
      let v : List ℕ = g c ++ map (number own) (parts c) in
      let rest =
        build_loop-Noted n cells own here.0 (update g c v) off create buffer below.1 distinct.1
          (omega (arith, length-note_all firsts (parts c))) here.2 in
      let grown = firsts_of-grows parts cells own in
      let kept : map (number (firsts_of parts cells own)) (parts c) ≡ map (number own) (parts c) =
        rw (grown.1) (numbers-grown firsts (parts c) grown.0) in
      let made0 = ap (λ m. m.0) (create c) in
      let made1 = ap (λ m. m.1) (create c) in
      let got = get_elem?-table n c g below.0 in
      let put = set-table n c g v below.0 in
      let room : leb (length (concat (parts c))) 4096 ≡ true = le→leb _ _ (buffer c) in
      let final : List (List ℕ) = firsts_of parts cells own in
      let next : (k : ℕ)
          → k < 0 + n
          → rows_of final cells (update g c v) k ≡ rows_of final (c ∷ cells) g k =
        λ k lt. elim (ℕ_discrete k c) [
          | yes e ↦ rw (e, ==_refl c, distinct.0) (ap (λ l. g c ++ l) (sym kept))
          | no ne ↦ rw (==_ne k c ne) refl
        ] in
      (
        rest.0,
        rw (got, made0, made1, room, here.1, put)
            (rest.1
              ∙ ap (λ t. some (rest.0, t))
                  (table_ext 0 n (rows_of final cells (update g c v)) (rows_of final (c ∷ cells) g)
                    next)),
        rest.2,
      )
