-- ===== src/Dag/Settle.antt =====
-- The visits of one node remove all its edges to the root.
use flecsi.Base.{
  ℕ, zero, suc, ◌<◌, ◌≡◌, refl, ap, true, false, Option, none, some, List, [], ◌∷◌, ◌++◌, arith,
  if◌then◌else◌, length, Option-cases, inl, inr, ◌≢◌,
}
use flecsi.StdSet.{member, member-append}
use flecsi.Dag.{erase_first, settle}

-- The edges to hashes outside a list.
unfoldable pub outside : List ℕ → List ℕ → List ℕ
outside hs [] = []
outside hs (e ∷ es) = if member e hs then outside hs es else e ∷ outside hs es

pub outside-nil : (es : List ℕ) → outside [] es ≡ es
unfolding outside member
outside-nil [] = refl
outside-nil (e ∷ es) = ap (◌∷◌ e) (outside-nil es)

pub outside-append : (hs ks es : List ℕ) → outside (hs ++ ks) es ≡ outside ks (outside hs es)
unfolding outside
outside-append hs ks [] = refl
outside-append hs ks (e ∷ es) = ground (arith, outside-append hs ks es, member-append e hs ks)

outside_empty : (hs : List ℕ) → outside hs [] ≡ []
unfolding outside
outside_empty hs = refl

pub outside-member :
    (hs ds : List ℕ) (d : ℕ) → outside hs ds ≡ [] → member d ds ≡ true → member d hs ≡ true
unfolding outside member
outside-member hs [] d e m = cc
outside-member hs (x ∷ ds) d e m = ground (arith, outside-member hs ds d)

pub member-outside :
    (hs ds : List ℕ) (d : ℕ)
    → member d (outside hs ds) ≡ true
    → (member d ds ≡ true) × (member d hs ≡ false)
unfolding outside member
member-outside hs [] d m = cc
member-outside hs (x ∷ ds) d m = ground (arith, member-outside hs ds d)

abbrev pub only : ℕ → List ℕ
only h = h ∷ []

erase_first-none : (h : ℕ) (es : List ℕ) → erase_first h es ≡ none → outside (only h) es ≡ es
unfolding erase_first outside member
erase_first-none h [] e = refl
erase_first-none h (x ∷ es) e = ground (arith, erase_first-none h es)

erase_first-some :
    (h : ℕ) (es es' : List ℕ)
    → erase_first h es ≡ some es'
    → (outside (only h) es' ≡ outside (only h) es) × (length es ≡ suc (length es'))
unfolding erase_first outside member
erase_first-some h [] es' e = cc
erase_first-some h (x ∷ es) es' e = elim (Option-cases (erase_first h es)) [
  | inl none_left ↦ ground arith
  | inr (rest, found) ↦ ground (arith, erase_first-some h es rest)
]

-- How a node comes out of a round.
unfoldable pub stays : List ℕ → Option (List ℕ)
stays [] = none
stays (e ∷ es) = some (e ∷ es)

settle_lem :
    (h fuel : ℕ) (e : ℕ) (es : List ℕ)
    → length (e ∷ es) < fuel
    → settle fuel h (e ∷ es) ≡ stays (outside (only h) (e ∷ es))
unfolding settle stays
settle_lem h zero e es lt = absurd (omega arith)
settle_lem h (suc fuel) e es lt = elim (Option-cases (erase_first h (e ∷ es))) [
  | inl miss ↦ ground (arith, erase_first-none h (e ∷ es) miss)
  | inr ([], found) ↦ ground (arith, erase_first-some h (e ∷ es) [] found, outside_empty (only h))
  | inr (x ∷ xs, found) ↦
      ground (arith, erase_first-some h (e ∷ es) (x ∷ xs) found, settle_lem h fuel x xs)
]

-- With the fuel that `scan` gives, a node with edges comes out with those to other nodes, and
-- leaves the list if there are none.
pub settle-outside :
    (h : ℕ) (es : List ℕ) → es ≢ [] → settle (suc (length es)) h es ≡ stays (outside (only h) es)
settle-outside h [] ne = absurd (ne refl)
settle-outside h (e ∷ es) ne = settle_lem h (suc (length (e ∷ es))) e es (omega arith)
