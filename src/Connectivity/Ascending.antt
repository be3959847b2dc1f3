-- ===== src/Connectivity/Ascending.antt =====
-- What `std::sort` does to a list: it ascends, and has the same elements.
use flecsi.Base.{ℕ, ◌≤◌, ◌<◌, ◌≡◌, refl, ◌∙◌, false, ◌||◌, List, [], ◌∷◌, arith, ◌==◌, ==_iff}
use flecsi.StdSet.{member, AllAbove, IsSorted}
use flecsi.Connectivity.{insert_by, sort_by}
use flecsi.Connectivity.Intersect.{sorted}
use flecsi.Connectivity.Picks.{AllDistinct}

-- Sorted, with repetition: no element is below the bound.
abbrev pub AllFrom : ℕ → List ℕ → Type 0
AllFrom a [] = Unit
AllFrom a (y ∷ ys) = (a ≤ y) × AllFrom a ys

abbrev pub Ascending : List ℕ → Type 0
Ascending [] = Unit
Ascending (y ∷ ys) = AllFrom y ys × Ascending ys

AllFrom-trans : (a b : ℕ) (xs : List ℕ) → a ≤ b → AllFrom b xs → AllFrom a xs
AllFrom-trans a b [] le h = tt
AllFrom-trans a b (x ∷ xs) le h = (omega arith, AllFrom-trans a b xs le h.1)

AllFrom-insert_by :
    (a x : ℕ) (ys : List ℕ) → a ≤ x → AllFrom a ys → AllFrom a (insert_by (λ k. k) x ys)
unfolding insert_by
AllFrom-insert_by a x [] le h = (le, tt)
AllFrom-insert_by a x (y ∷ ys) le h = ground (arith, AllFrom-insert_by a x ys le h.1)

insert_by-Ascending : (x : ℕ) (ys : List ℕ) → Ascending ys → Ascending (insert_by (λ k. k) x ys)
unfolding insert_by
insert_by-Ascending x [] h = (tt, tt)
insert_by-Ascending x (y ∷ ys) h =
    ground (arith, insert_by-Ascending x ys h.1, AllFrom-insert_by y x ys, AllFrom-trans x y ys)

pub sorted-Ascending : (xs : List ℕ) → Ascending (sorted xs)
unfolding sort_by
sorted-Ascending [] = tt
sorted-Ascending (x ∷ xs) = insert_by-Ascending x (sorted xs) (sorted-Ascending xs)

pub member-insert_by :
    (z x : ℕ) (ys : List ℕ) → member z (insert_by (λ k. k) x ys) ≡ (z == x || member z ys)
unfolding member insert_by
member-insert_by z x [] = refl
member-insert_by z x (y ∷ ys) = ground (arith, member-insert_by z x ys)

pub member-sorted : (z : ℕ) (xs : List ℕ) → member z (sorted xs) ≡ member z xs
unfolding member sort_by
member-sorted z [] = refl
member-sorted z (x ∷ xs) = ground (arith, member-insert_by z x (sorted xs), member-sorted z xs)

AllAbove-insert_by :
    (a x : ℕ) (ys : List ℕ) → a < x → AllAbove a ys → AllAbove a (insert_by (λ k. k) x ys)
unfolding insert_by
AllAbove-insert_by a x [] lt h = (lt, tt)
AllAbove-insert_by a x (y ∷ ys) lt h = ground (arith, AllAbove-insert_by a x ys lt h.1)

AllAbove-trans : (a b : ℕ) (xs : List ℕ) → a < b → AllAbove b xs → AllAbove a xs
AllAbove-trans a b [] lt h = tt
AllAbove-trans a b (x ∷ xs) lt h = (omega arith, AllAbove-trans a b xs lt h.1)

insert_by-IsSorted :
    (x : ℕ) (ys : List ℕ) → IsSorted ys → member x ys ≡ false → IsSorted (insert_by (λ k. k) x ys)
unfolding insert_by member
insert_by-IsSorted x [] h out = (tt, tt)
insert_by-IsSorted x (y ∷ ys) h out = ground (
  arith,
  insert_by-IsSorted x ys h.1,
  AllAbove-insert_by y x ys,
  AllAbove-trans x y ys,
  ==_iff x y,
)

-- Without repetition it is strictly increasing.
pub sorted-IsSorted : (xs : List ℕ) → AllDistinct xs → IsSorted (sorted xs)
unfolding sort_by
sorted-IsSorted [] d = tt
sorted-IsSorted (x ∷ xs) d =
    insert_by-IsSorted x (sorted xs) (sorted-IsSorted xs d.1) (member-sorted x xs ∙ d.0)
