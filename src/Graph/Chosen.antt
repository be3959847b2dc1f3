-- ===== src/Graph/Chosen.antt =====
-- The numbers below a bound that pass a test, in order; and what a sorted list is determined by.
use flecsi.Base.{
  ℕ, zero, suc, ◌≤◌, ◌<◌, ◌≡◌, refl, Bool, false, ◌&&◌, List, [], ◌∷◌, ◌++◌, arith, ltb,
  if◌then◌else◌, ==_iff, ==_refl, append-nil,
}
use flecsi.StdSet.{member, insert, AllAbove, IsSorted, member-append, member_one}

unfoldable pub chosen : (ℕ → Bool) → ℕ → List ℕ
chosen test zero = []
chosen test (suc n) = chosen test n ++ (if test n then n ∷ [] else [])

pub member-chosen : (test : ℕ → Bool) (n x : ℕ) → member x (chosen test n) ≡ (ltb x n && test x)
unfolding chosen member
member-chosen test zero x = ground arith
member-chosen test (suc n) x = ground (
  arith,
  member-append x (chosen test n) (if test n then n ∷ [] else []),
  member-chosen test n x,
  member_one x n,
  ==_iff x n,
)

pub chosen_ext : (p q : ℕ → Bool) (n : ℕ) → ((x : ℕ) → x < n → p x ≡ q x) → chosen p n ≡ chosen q n
unfolding chosen
chosen_ext p q zero same = refl
chosen_ext p q (suc n) same =
    rw (same n (omega arith), chosen_ext p q n (λ x lt. same x (omega arith))) refl

-- A list of smaller numbers stays sorted when a number is put behind it.
AllAbove-snoc : (b n : ℕ) (s : List ℕ) → AllAbove b s → b < n → AllAbove b (s ++ n ∷ [])
AllAbove-snoc b n [] above lt = (lt, tt)
AllAbove-snoc b n (y ∷ s) above lt = (above.0, AllAbove-snoc b n s above.1 lt)

abbrev pub AllBelow : ℕ → List ℕ → Type 0
AllBelow n [] = Unit
AllBelow n (y ∷ ys) = (y < n) × AllBelow n ys

pub snoc-IsSorted : (n : ℕ) (s : List ℕ) → IsSorted s → AllBelow n s → IsSorted (s ++ n ∷ [])
snoc-IsSorted n [] srt below = (tt, tt)
snoc-IsSorted n (y ∷ s) srt below =
    (AllAbove-snoc y n s srt.0 below.0, snoc-IsSorted n s srt.1 below.1)

AllBelow-append : (n : ℕ) (xs ys : List ℕ) → AllBelow n xs → AllBelow n ys → AllBelow n (xs ++ ys)
AllBelow-append n [] ys below below' = below'
AllBelow-append n (x ∷ xs) ys below below' = (below.0, AllBelow-append n xs ys below.1 below')

AllBelow-mono : (m n : ℕ) (xs : List ℕ) → m ≤ n → AllBelow m xs → AllBelow n xs
AllBelow-mono m n [] le below = tt
AllBelow-mono m n (x ∷ xs) le below = (omega arith, AllBelow-mono m n xs le below.1)

pub AllBelow-chosen : (test : ℕ → Bool) (n : ℕ) → AllBelow n (chosen test n)
unfolding chosen
AllBelow-chosen test zero = tt
AllBelow-chosen test (suc n) =
    AllBelow-append (suc n) (chosen test n) (if test n then n ∷ [] else [])
      (AllBelow-mono n (suc n) (chosen test n) (omega arith) (AllBelow-chosen test n))
      (ground arith)

pub chosen-IsSorted : (test : ℕ → Bool) (n : ℕ) → IsSorted (chosen test n)
unfolding chosen
chosen-IsSorted test zero = tt
chosen-IsSorted test (suc n) = ground (
  arith,
  snoc-IsSorted n (chosen test n) (chosen-IsSorted test n) (AllBelow-chosen test n),
  chosen-IsSorted test n,
  append-nil (chosen test n),
)

-- A set gets a number above all of its own at the end.
pub insert-last : (n : ℕ) (s : List ℕ) → AllBelow n s → insert n s ≡ s ++ n ∷ []
unfolding insert
insert-last n [] below = refl
insert-last n (y ∷ s) below = ground (arith, insert-last n s below.1)

member-below : (x a : ℕ) (s : List ℕ) → AllAbove a s → x ≤ a → member x s ≡ false
unfolding member
member-below x a [] above le = refl
member-below x a (y ∷ s) above le = ground (arith, member-below x a s above.1 le)

-- Sorted lists with the same elements are equal.
pub sorted_ext :
    (s t : List ℕ) → IsSorted s → IsSorted t → ((x : ℕ) → member x s ≡ member x t) → s ≡ t
unfolding member
sorted_ext [] [] hs ht same = refl
sorted_ext [] (y ∷ t) hs ht same = ground (arith, same y, ==_refl y)
sorted_ext (x ∷ s) [] hs ht same = ground (arith, same x, ==_refl x)
sorted_ext (x ∷ s) (y ∷ t) hs ht same =
    let e : x ≡ y = ground (
      arith,
      same x,
      same y,
      ==_refl x,
      ==_refl y,
      member-below x y t ht.0,
      member-below y x s hs.0,
    ) in
    let rest : (z : ℕ) → member z s ≡ member z t =
      λ z. ground (arith, same z, e, member-below z x s hs.0, member-below z y t ht.0) in
    rw (e, sorted_ext s t hs.1 ht.1 rest) refl
