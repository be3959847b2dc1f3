-- ===== src/StdSet.antt =====
-- `std::set<size_t>` as the strictly increasing list of its elements: what the colouring and
-- closure code uses of it, `insert`, `find` and the set algorithms of the header `utils/set_utils.h`.
use flecsi.Base.{
  ℕ, ◌≤◌, ◌<◌, ◌≡◌, refl, Bool, true, false, ◌||◌, List, [], ◌∷◌, ◌++◌, arith, ltb, ◌==◌,
  if◌then◌else◌,
}

-- whether a value stands in a list
unfoldable pub member : ℕ → List ℕ → Bool
member x [] = false
member x (y ∷ ys) = x == y || member x ys

-- `s.insert(x)`
unfoldable pub insert : ℕ → List ℕ → List ℕ
insert x [] = x ∷ []
insert x (y ∷ ys) = if ltb x y then x ∷ y ∷ ys else if x == y then y ∷ ys else y ∷ insert x ys

-- `s.insert(first, last)`, and the constructor from a range
unfoldable pub insert_all : List ℕ → List ℕ → List ℕ
insert_all [] s = s
insert_all (x ∷ xs) s = insert_all xs (insert x s)

-- Every element is above the bound.
abbrev pub AllAbove : ℕ → List ℕ → Type 0
AllAbove a [] = Unit
AllAbove a (y ∷ ys) = (a < y) × AllAbove a ys

abbrev pub IsSorted : List ℕ → Type 0
IsSorted [] = Unit
IsSorted (y ∷ ys) = AllAbove y ys × IsSorted ys

pub member-insert : (x a : ℕ) (s : List ℕ) → member x (insert a s) ≡ (x == a || member x s)
unfolding member insert
member-insert x a [] = refl
member-insert x a (y ∷ ys) = ground (arith, member-insert x a ys)

pub member-insert_all :
    (x : ℕ) (xs s : List ℕ) → member x (insert_all xs s) ≡ (member x xs || member x s)
unfolding member insert_all
member-insert_all x [] s = refl
member-insert_all x (a ∷ xs) s =
    ground (arith, member-insert_all x xs (insert a s), member-insert x a s)

pub member-append : (x : ℕ) (xs ys : List ℕ) → member x (xs ++ ys) ≡ (member x xs || member x ys)
unfolding member
member-append x [] ys = refl
member-append x (y ∷ xs) ys = ground (arith, member-append x xs ys)

pub member_first : (x : ℕ) (ys : List ℕ) → member x (x ∷ ys) ≡ true
unfolding member
member_first x ys = ground arith

pub member_one : (x y : ℕ) → member x (y ∷ []) ≡ (x == y)
unfolding member
member_one x y = ground arith

AllAbove-insert : (b a : ℕ) (s : List ℕ) → b < a → AllAbove b s → AllAbove b (insert a s)
unfolding insert
AllAbove-insert b a [] h k = (h, tt)
AllAbove-insert b a (y ∷ ys) h k = ground (arith, AllAbove-insert b a ys)

pub AllAbove-trans : (b a : ℕ) (s : List ℕ) → b ≤ a → AllAbove a s → AllAbove b s
AllAbove-trans b a [] h k = tt
AllAbove-trans b a (y ∷ ys) h k = (omega arith, AllAbove-trans b a ys h k.1)

pub insert-IsSorted : (a : ℕ) (s : List ℕ) → IsSorted s → IsSorted (insert a s)
unfolding insert
insert-IsSorted a [] h = (tt, tt)
insert-IsSorted a (y ∷ ys) h =
    ground (arith, AllAbove-insert y a ys, AllAbove-trans a y ys, insert-IsSorted a ys)

pub insert_all-IsSorted : (xs s : List ℕ) → IsSorted s → IsSorted (insert_all xs s)
unfolding insert_all
insert_all-IsSorted [] s h = h
insert_all-IsSorted (x ∷ xs) s h = insert_all-IsSorted xs (insert x s) (insert-IsSorted x s h)

-- `set_intersection` and `set_difference` of the header: the elements of the first set that are,
-- or are not, in the second.
unfoldable pub set_intersection : List ℕ → List ℕ → List ℕ
set_intersection [] t = []
set_intersection (x ∷ s) t =
    let rest = set_intersection s t in if member x t then x ∷ rest else rest

unfoldable pub set_difference : List ℕ → List ℕ → List ℕ
set_difference [] t = []
set_difference (x ∷ s) t = let rest = set_difference s t in if member x t then rest else x ∷ rest

-- `set_union`
unfoldable pub set_union : List ℕ → List ℕ → List ℕ
set_union s t = insert_all t s
