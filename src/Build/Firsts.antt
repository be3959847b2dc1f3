-- ===== src/Build/Firsts.antt =====
-- The entities by their first occurrence: what the loops of `build_connectivity` compute when there
-- is no intermediate map.
use flecsi.Base.{
  ℕ, zero, get_elem?, suc, ◌+◌, ◌≤◌, ◌<◌, ◌^◌, ◌≡◌, refl, sym, ap, ◌∙◌, true, false, Option, none,
  some, List, [], ◌∷◌, ◌++◌, map, leb, if◌then◌else◌, arith, length, concat, take-append_left,
  drop-append_left, length-append, append_assoc, append-nil, le→leb, ==_iff, ==_refl, Option-cases,
  ⊎_elim,
}
use flecsi.Connectivity.Intersect.{sorted}
use flecsi.Ids.{EntityId, local_id, make_id}
use flecsi.Ids.Order.{make_id-Packed, local_id-fields}
use flecsi.Build.{
  index_entity, BuildContext, Building, equal_lists, find_key, entity_id_of, emplace, entity_loop,
}

pub equal_lists_iff : (xs ys : List ℕ) → equal_lists xs ys ≡ true → xs ≡ ys
unfolding equal_lists
equal_lists_iff [] [] e = refl
equal_lists_iff [] (y ∷ ys) e = ground arith
equal_lists_iff (x ∷ xs) [] e = ground arith
equal_lists_iff (x ∷ xs) (y ∷ ys) e =
    let head : x ≡ y = (==_iff x y).0 (ground arith) in
    rw (head, equal_lists_iff xs ys (ground arith)) refl

pub equal_lists_refl : (xs : List ℕ) → equal_lists xs xs ≡ true
unfolding equal_lists
equal_lists_refl [] = refl
equal_lists_refl (x ∷ xs) = rw (==_refl x, equal_lists_refl xs) refl

-- The number of the first list that has the key when sorted; they are numbered from `j` on.
unfoldable pub index_of : List ℕ → ℕ → List (List ℕ) → Option ℕ
index_of key j [] = none
index_of key j (a ∷ as') =
    let rest = index_of key (suc j) as' in if equal_lists key (sorted a) then some j else rest

abbrev pub add_missing : Option ℕ → List (List ℕ) → List ℕ → List (List ℕ)
add_missing (some n) firsts a = firsts
add_missing none firsts a = firsts ++ a ∷ []

abbrev pub or_zero : Option ℕ → ℕ
or_zero (some n) = n
or_zero none = 0

-- The first occurrences so far, with `a` if it is one.
unfoldable pub note : List (List ℕ) → List ℕ → List (List ℕ)
note firsts a = add_missing (index_of (sorted a) 0 firsts) firsts a

unfoldable pub note_all : List (List ℕ) → List (List ℕ) → List (List ℕ)
note_all firsts [] = firsts
note_all firsts (a ∷ parts) = note_all (note firsts a) parts

-- The number of an entity.
unfoldable pub number : List (List ℕ) → List ℕ → ℕ
number firsts a = or_zero (index_of (sorted a) 0 firsts)

-- The map from sorted vertices to ids has the first occurrences, numbered from `j` on.
abbrev pub KnownAs : ℕ → List (List ℕ × ℕ) → List (List ℕ) → Type 0
KnownAs j [] [] = Unit
KnownAs j [] (a ∷ firsts) = ⊥
KnownAs j (e ∷ known) [] = ⊥
KnownAs j (e ∷ known) (a ∷ firsts) =
    (e.0 ≡ sorted a) × (index_entity e.1 ≡ j) × KnownAs (suc j) known firsts

abbrev found_entity : Option ℕ → Option ℕ
found_entity none = none
found_entity (some v) = some (index_entity v)

find_key-index_of :
    (key : List ℕ) (j : ℕ) (known : List (List ℕ × ℕ)) (firsts : List (List ℕ))
    → KnownAs j known firsts
    → found_entity (find_key key known) ≡ index_of key j firsts
unfolding find_key index_of
find_key-index_of key j [] [] h = refl
find_key-index_of key j [] (a ∷ firsts) h = absurd h
find_key-index_of key j (e ∷ known) [] h = absurd h
find_key-index_of key j ((k, v) ∷ known) (a ∷ firsts) h =
    let ih = find_key-index_of key (suc j) known firsts h.2 in
    let same : equal_lists key k ≡ equal_lists key (sorted a) = ap (equal_lists key) h.0 in
    ground (arith, ih, same, h.1)

KnownAs-snoc :
    (j : ℕ) (known : List (List ℕ × ℕ)) (firsts : List (List ℕ)) (a : List ℕ) (v : ℕ)
    → KnownAs j known firsts
    → index_entity v ≡ j + length firsts
    → KnownAs j (known ++ (sorted a, v) ∷ []) (firsts ++ a ∷ [])
KnownAs-snoc j [] [] a v h e = (refl, omega arith, tt)
KnownAs-snoc j [] (b ∷ firsts) a v h e = absurd h
KnownAs-snoc j (k ∷ known) [] a v h e = absurd h
KnownAs-snoc j (k ∷ known) (b ∷ firsts) a v h e =
    (h.0, h.1, KnownAs-snoc (suc j) known firsts a v h.2 (omega arith))

pub index_of-append :
    (key : List ℕ) (j n : ℕ) (firsts more : List (List ℕ))
    → index_of key j firsts ≡ some n
    → index_of key j (firsts ++ more) ≡ some n
unfolding index_of
index_of-append key j n [] more e = absurd cc
index_of-append key j n (a ∷ firsts) more e =
    ground (arith, index_of-append key (suc j) n firsts more)

index_of-snoc :
    (j : ℕ) (a : List ℕ) (firsts : List (List ℕ))
    → index_of (sorted a) j firsts ≡ none
    → index_of (sorted a) j (firsts ++ a ∷ []) ≡ some (j + length firsts)
unfolding index_of
index_of-snoc j a [] e = rw (equal_lists_refl (sorted a)) (ap some (omega arith))
index_of-snoc j a (b ∷ firsts) e =
    let ih = index_of-snoc (suc j) a firsts (ground arith) in ground (arith, ih)

-- The first list with the key of `a` is there once `a` has been noted.
pub index_of-note :
    (firsts : List (List ℕ)) (a : List ℕ)
    → index_of (sorted a) 0 (note firsts a) ≡ some (number (note firsts a) a)
unfolding note number
index_of-note firsts a =
    ⊎_elim (λ e. let e' = index_of-snoc 0 a firsts e in rw (e) (rw (e') refl))
      (λ found. rw (found.1) (rw (found.1) refl)) (Option-cases (index_of (sorted a) 0 firsts))

noted_same :
    (firsts : List (List ℕ)) (a : List ℕ) (n : ℕ)
    → index_of (sorted a) 0 firsts ≡ some n
    → note firsts a ≡ firsts
unfolding note
noted_same firsts a n e = rw (e) refl

noted_new :
    (firsts : List (List ℕ)) (a : List ℕ)
    → index_of (sorted a) 0 firsts ≡ none
    → note firsts a ≡ firsts ++ a ∷ []
unfolding note
noted_new firsts a e = rw (e) refl

pub number_found :
    (firsts : List (List ℕ)) (a : List ℕ) (n : ℕ)
    → index_of (sorted a) 0 firsts ≡ some n
    → number firsts a ≡ n
unfolding number
number_found firsts a n e = rw (e) refl

number_new :
    (firsts : List (List ℕ)) (a : List ℕ)
    → index_of (sorted a) 0 firsts ≡ none
    → number (note firsts a) a ≡ length firsts
number_new firsts a e =
    ap (λ l. number l a) (noted_new firsts a e)
    ∙ number_found (firsts ++ a ∷ []) a (0 + length firsts) (index_of-snoc 0 a firsts e)
    ∙ omega arith

pub note-grows :
    (firsts : List (List ℕ)) (a : List ℕ)
    → (more : List (List ℕ)) × (note firsts a ≡ firsts ++ more) × (length more ≤ 1)
unfolding note
note-grows firsts a =
    ⊎_elim (λ e. (a ∷ [], rw (e) refl, omega arith))
      (λ found. ([], rw (found.1) (sym (append-nil firsts)), omega arith))
      (Option-cases (index_of (sorted a) 0 firsts))

pub note_all-grows :
    (firsts parts : List (List ℕ))
    → (more : List (List ℕ)) × (note_all firsts parts ≡ firsts ++ more)
unfolding note_all
note_all-grows firsts [] = ([], sym (append-nil firsts))
note_all-grows firsts (a ∷ parts) =
    let one = note-grows firsts a in
    let rest = note_all-grows (note firsts a) parts in
    (one.0 ++ rest.0, rest.1 ∙ ap (λ l. l ++ rest.0) one.1 ∙ append_assoc firsts one.0 rest.0)

pub number-grown :
    (firsts more : List (List ℕ)) (a : List ℕ) (n : ℕ)
    → index_of (sorted a) 0 firsts ≡ some n
    → number (firsts ++ more) a ≡ n
unfolding number
number-grown firsts more a n e = rw (index_of-append (sorted a) 0 n firsts more e) refl

-- The number of an entity that has been noted stays what it is.
pub number-note_all :
    (firsts parts : List (List ℕ)) (a : List ℕ) (n : ℕ)
    → index_of (sorted a) 0 firsts ≡ some n
    → number (note_all firsts parts) a ≡ n
number-note_all firsts parts a n e =
    let grown = note_all-grows firsts parts in
    ap (λ l. number l a) grown.1 ∙ number-grown firsts grown.0 a n e

-- The calls of `create_entity`: one for each first occurrence, in order, numbered from `j` on.
unfoldable pub calls_for : ℕ → ℕ → ℕ → ℕ → List (List ℕ) → List (ℕ × EntityId)
calls_for own dim dom j [] = []
calls_for own dim dom j (a ∷ firsts) =
    (length a, make_id dim dom j own 0 0) ∷ calls_for own dim dom (suc j) firsts

calls_for-snoc :
    (own dim dom j : ℕ) (firsts : List (List ℕ)) (a : List ℕ)
    → calls_for own dim dom j (firsts ++ a ∷ [])
      ≡ calls_for own dim dom j firsts
        ++ (length a, make_id dim dom (j + length firsts) own 0 0) ∷ []
unfolding calls_for
calls_for-snoc own dim dom j [] a =
    ap (λ k. (length a, make_id dim dom k own 0 0) ∷ []) (omega arith)
calls_for-snoc own dim dom j (b ∷ firsts) a =
    let rest = calls_for-snoc own dim dom (suc j) firsts a in
    let place : suc j + length firsts ≡ j + suc (length firsts) = omega arith in
    rw (rest, place) refl

pub length-calls_for :
    (own dim dom j : ℕ) (firsts : List (List ℕ))
    → length (calls_for own dim dom j firsts) ≡ length firsts
unfolding calls_for
length-calls_for own dim dom j [] = refl
length-calls_for own dim dom j (a ∷ firsts) = ap suc (length-calls_for own dim dom (suc j) firsts)

get_elem?-calls_for_from :
    (own dim dom j i : ℕ) (firsts : List (List ℕ)) (a : List ℕ)
    → get_elem? firsts i ≡ some a
    → get_elem? (calls_for own dim dom j firsts) i
      ≡ some (length a, make_id dim dom (j + i) own 0 0)
unfolding calls_for
get_elem?-calls_for_from own dim dom j i [] a e = absurd cc
get_elem?-calls_for_from own dim dom j zero (b ∷ firsts) a e =
    let same : b ≡ a = cc in let place : j + 0 ≡ j = omega arith in rw (same, place) refl
get_elem?-calls_for_from own dim dom j (suc i) (b ∷ firsts) a e =
    let place : suc j + i ≡ j + suc i = omega arith in
    rw (← place) (get_elem?-calls_for_from own dim dom (suc j) i firsts a e)

pub get_elem?-calls_for :
    (own dim dom i : ℕ) (firsts : List (List ℕ)) (a : List ℕ)
    → get_elem? firsts i ≡ some a
    → get_elem? (calls_for own dim dom 0 firsts) i ≡ some (length a, make_id dim dom i own 0 0)
get_elem?-calls_for own dim dom i firsts a e =
    get_elem?-calls_for_from own dim dom 0 i firsts a e
    ∙ ap (λ k. some (length a, make_id dim dom k own 0 0)) (omega arith)

-- The local variables when `firsts` are the first occurrences.
pub record Noted (own dim dom : ℕ) (b : Building) (firsts : List (List ℕ)) : Type 0 where
  pub keys_known : KnownAs 0 b.known firsts
  pub conn_stored : b.vertex_conn ≡ map (map index_entity) firsts
  pub counted : b.counter ≡ length firsts
  pub calls : b.made ≡ calls_for own dim dom 0 firsts

map-append_one :
    (f : List ℕ → List ℕ) (xs : List (List ℕ)) (y : List ℕ)
    → map f (xs ++ y ∷ []) ≡ map f xs ++ f y ∷ []
map-append_one f [] y = refl
map-append_one f (x ∷ xs) y = ap (λ l. f x ∷ l) (map-append_one f xs y)

index_entity-made :
    (dim dom n p : ℕ) → n < 2 ^ 32 → index_entity (local_id (make_id dim dom n p 0 0)) ≡ n
unfolding make_id
index_entity-made dim dom n p lt =
    let fields = local_id-fields (make_id dim dom n p 0 0) (make_id-Packed dim dom n p 0 0) in
    omega (arith, fields.3)

module _ (ctx : BuildContext) (dim dom c : ℕ) where
  emplace-Noted :
      (a : List ℕ) (b : Building) (conns : List ℕ) (firsts : List (List ℕ))
      → Noted ctx.own_color dim dom b firsts
      → length firsts < 2 ^ 32
      → (o : Option ℕ) → found_entity o ≡ index_of (sorted a) 0 firsts
      → Noted ctx.own_color dim dom (emplace ctx dim dom c a b.counter o b conns).0 (note firsts a)
        × ((emplace ctx dim dom c a b.counter o b conns).1 ≡ conns ++ number (note firsts a) a ∷ [])
  unfolding emplace
  emplace-Noted a b conns firsts h small (some id) e =
      let same : note firsts a ≡ firsts = noted_same firsts a (index_entity id) (sym e) in
      let n : number (note firsts a) a ≡ index_entity id =
        rw (same) (number_found firsts a (index_entity id) (sym e)) in
      (rw (same) h, rw (n) refl)
  emplace-Noted a b conns firsts h small none e =
      let new : note firsts a ≡ firsts ++ a ∷ [] = noted_new firsts a (sym e) in
      let id : ℕ = local_id (make_id dim dom b.counter (ctx.cell_partition c) 0 0) in
      let count = h.counted in
      let v : index_entity id ≡ length firsts =
        index_entity-made dim dom b.counter (ctx.cell_partition c) (omega arith) ∙ h.counted in
      let n : number (note firsts a) a ≡ length firsts = number_new firsts a (sym e) in
      let here : calls_for ctx.own_color dim dom 0 firsts
            ++ (length a, make_id dim dom (0 + length firsts) ctx.own_color 0 0) ∷ []
          ≡ calls_for ctx.own_color dim dom 0 firsts
            ++ (length a, make_id dim dom (length firsts) ctx.own_color 0 0) ∷ [] =
        ap
          (λ k.
            calls_for ctx.own_color dim dom 0 firsts
            ++ (length a, make_id dim dom k ctx.own_color 0 0) ∷ [])
          (omega arith) in
      (
        rw (new) (record {
          keys_known = KnownAs-snoc 0 b.known firsts a id h.keys_known (v ∙ omega arith);
          conn_stored = rw (h.conn_stored) (sym (map-append_one (map index_entity) firsts a));
          counted = omega (arith, length-append firsts (a ∷ []));
          calls =
              rw (h.calls, h.counted)
                (sym (calls_for-snoc ctx.own_color dim dom 0 firsts a ∙ here));
        }),
        rw (n, ← v) refl,
      )

  pub entity_loop-Noted :
      (parts firsts : List (List ℕ)) (b : Building) (conns : List ℕ)
      → ctx.has_intermediate_map ≡ false
      → Noted ctx.own_color dim dom b firsts
      → length firsts + length parts ≤ 2 ^ 32
      → (b' : Building) × (entity_loop ctx dim dom c (map length parts) (concat parts) b conns
          ≡ some (b', conns ++ map (number (note_all firsts parts)) parts))
        × Noted ctx.own_color dim dom b' (note_all firsts parts)
  unfolding entity_loop note_all entity_id_of
  entity_loop-Noted [] firsts b conns off h small = (b, rw (append-nil conns) refl, h)
  entity_loop-Noted (a ∷ parts) firsts b conns off h small =
      let found = find_key-index_of (sorted a) 0 b.known firsts h.keys_known in
      let next = emplace ctx dim dom c a b.counter (find_key (sorted a) b.known) b conns in
      let step =
        emplace-Noted a b conns firsts h (omega arith) (find_key (sorted a) b.known) found in
      let grown = note-grows firsts a in
      let fits : length (note firsts a) + length parts ≤ 2 ^ 32 =
        omega (arith, ap length grown.1, length-append firsts grown.0, grown.2) in
      let rest = entity_loop-Noted parts (note firsts a) next.0 next.1 off step.0 fits in
      let rows : List ℕ = map (number (note_all (note firsts a) parts)) parts in
      let kept : number (note firsts a) a ≡ number (note_all (note firsts a) parts) a = sym (
        number-note_all (note firsts a) parts a (number (note firsts a) a)
          (index_of-note firsts a)) in
      let out : next.1 ++ rows ≡ conns ++ number (note_all (note firsts a) parts) a ∷ rows =
        ap (λ l. l ++ rows) step.1
        ∙ append_assoc conns (number (note firsts a) a ∷ []) rows
        ∙ ap (λ k. conns ++ k ∷ rows) kept in
      let taken = take-append_left a (concat parts) in
      let dropped = drop-append_left a (concat parts) in
      let room : leb (length a) (length (a ++ concat parts)) ≡ true =
        le→leb (length a) (length (a ++ concat parts))
          (omega (arith, length-append a (concat parts))) in
      let id : entity_id_of ctx a b.counter ≡ some b.counter = rw (off) refl in
      (rest.0, rw (room, taken, dropped, id) (rest.1 ∙ ap (λ l. some (rest.0, l)) out), rest.2)
