-- ===== src/Box/Axis.antt =====
-- One axis of the box colorer: the segments between the cuts, and the boxes that contain a cell.
use flecsi.Base.{
  ℕ, ◌+◌, ◌^◌, ◌≤◌, ◌<◌, ◌≡◌, refl, Bool, true, false, not, ◌&&◌, ◌||◌, List, [], ◌∷◌, ◌++◌, arith,
  ltb, leb, ◌==◌, if◌then◌else◌, sym, ◌∙◌, ap, append_assoc, append-nil,
}
use flecsi.Words.{sub64_lem}
use flecsi.Box.{Span, Box, ColoredBox, Side, low, mid, high, is_mid, Cuts, differ, segment, loop}

unfoldable pub in_span : ℕ → Span → Bool
in_span x s = leb s.lower x && leb x s.upper

-- whether a cell is in a box, both bounds included
unfoldable pub inside : List ℕ → Box → Bool
inside [] [] = true
inside (x ∷ cell) (s ∷ box) = in_span x s && inside cell box
inside _ _ = false

-- the number of boxes of the list that contain a cell
unfoldable pub covering : List ℕ → List Box → ℕ
covering cell [] = 0
covering cell (b ∷ bs) = (if inside cell b then 1 else 0) + covering cell bs

unfoldable pub boxes : List ColoredBox → List Box
boxes [] = []
boxes (b ∷ bs) = b.box ∷ boxes bs

-- The cuts are in order, and fit in words.
abbrev pub InOrder : Cuts → Type 0
InOrder c =
    (c.outer.lower ≤ c.inner.lower)
    × (c.inner.lower ≤ c.inner.upper)
    × (c.inner.upper ≤ c.outer.upper)
    × (c.outer.upper < 2 ^ 64)

-- The side of the inner span on which a cell of the outer span lies.
unfoldable pub side_of : Cuts → ℕ → Side
side_of c x = if ltb x c.inner.lower then low else if leb x c.inner.upper then mid else high

unfoldable pub same_side : Side → Side → Bool
same_side low low = true
same_side mid mid = true
same_side high high = true
same_side _ _ = false

-- whether the inner span has more than one cell
unfoldable pub is_wide : Cuts → Bool
is_wide c = not (c.inner.lower == c.inner.upper)

-- The rounds that the shared boxes select on one axis.
unfoldable pub selects : Cuts → Side → Bool
selects c i = is_mid i || differ c i

pub covering-append :
    (cell : List ℕ) (cs bs : List Box)
    → covering cell (cs ++ bs) ≡ covering cell cs + covering cell bs
unfolding covering
covering-append cell [] bs = omega arith
covering-append cell (a ∷ cs) bs = omega (arith, covering-append cell cs bs)

pub boxes-append : (cs bs : List ColoredBox) → boxes (cs ++ bs) ≡ boxes cs ++ boxes bs
unfolding boxes
boxes-append [] bs = refl
boxes-append (a ∷ cs) bs = ap (◌∷◌ a.box) (boxes-append cs bs)

pub selects_lem :
    (c : Cuts) (i : Side) (x : ℕ)
    → InOrder c
    → (in_span x c.outer ≡ true)
    → (selects c i && in_span x (segment c i)) ≡ same_side i (side_of c x)
unfolding selects differ segment in_span same_side side_of
selects_lem c low x o h = ground (arith, sub64_lem c.inner.lower 1)
selects_lem c mid x o h = ground (arith)
selects_lem c high x o h = ground (arith)

pub differ_lem :
    (c : Cuts) (i : Side) (x : ℕ)
    → InOrder c
    → (in_span x c.outer ≡ true)
    → (differ c i && in_span x (segment c i))
      ≡ (same_side i (side_of c x) && (not (is_mid i) || is_wide c))
unfolding is_wide differ segment in_span same_side side_of
differ_lem c low x o h = ground (arith, sub64_lem c.inner.lower 1)
differ_lem c mid x o h = ground (arith)
differ_lem c high x o h = ground (arith)

-- A cell of the outer span is in the inner one when its side is the middle.
pub inner_lem :
    (c : Cuts) (x : ℕ)
    → InOrder c
    → (in_span x c.outer ≡ true)
    → in_span x c.inner ≡ same_side mid (side_of c x)
unfolding in_span same_side side_of
inner_lem c x o h = ground arith

loop_lem {ℓ} : {A : Type ℓ} (f : Side → List A) → loop f ≡ f low ++ f mid ++ f high
unfolding loop
loop_lem f = refl

pub covering_box-loop :
    (cell : List ℕ) (f : Side → List Box)
    → covering cell (loop f)
      ≡ covering cell (f low) + covering cell (f mid) + covering cell (f high)
covering_box-loop cell f = omega (
  arith,
  ap (covering cell) (loop_lem f),
  covering-append cell (f low ++ f mid) (f high),
  covering-append cell (f low) (f mid),
)

-- The boxes of a loop over the sides are counted side by side.
pub covering-loop :
    (cell : List ℕ) (f : Side → List ColoredBox)
    → covering cell (boxes (loop f))
      ≡ covering cell (boxes (f low))
        + covering cell (boxes (f mid))
        + covering cell (boxes (f high))
covering-loop cell f = omega (
  arith,
  ap (λ l. covering cell (boxes l)) (loop_lem f),
  ap (covering cell) (boxes-append (f low ++ f mid) (f high)),
  ap (covering cell) (boxes-append (f low) (f mid)),
  covering-append cell (boxes (f low ++ f mid)) (boxes (f high)),
  covering-append cell (boxes (f low)) (boxes (f mid)),
)

-- A loop in which only the round of one side counts.
pub pick {ℓ} :
    {A : Type ℓ} (μ : List A → ℕ)
    (μ-loop : (f : Side → List A) → μ (loop f) ≡ μ (f low) + μ (f mid) + μ (f high)) (s : Side)
    (v : Side → ℕ) (f : Side → List A)
    → ((i : Side) → μ (f i) ≡ (if same_side i s then v i else 0))
    → μ (loop f) ≡ v s
unfolding same_side
pick μ μ-loop low v f h = ground (arith, μ-loop f, h low, h mid, h high)
pick μ μ-loop mid v f h = ground (arith, μ-loop f, h low, h mid, h high)
pick μ μ-loop high v f h = ground (arith, μ-loop f, h low, h mid, h high)

abbrev pub one : Bool → ℕ
one b = if b then 1 else 0

-- The colors of the boxes that contain a cell, one box after another.
unfoldable pub colors_of : List ℕ → List ColoredBox → List ℕ
colors_of cell [] = []
colors_of cell (b ∷ bs) = (if inside cell b.box then b.colors else []) ++ colors_of cell bs

pub colors_of-append :
    (cell : List ℕ) (cs bs : List ColoredBox)
    → colors_of cell (cs ++ bs) ≡ colors_of cell cs ++ colors_of cell bs
unfolding colors_of
colors_of-append cell [] bs = refl
colors_of-append cell (b ∷ cs) bs =
    ap (λ l. (if inside cell b.box then b.colors else []) ++ l) (colors_of-append cell cs bs)
    ∙ sym (append_assoc _ (colors_of cell cs) (colors_of cell bs))

pub colors_of-loop :
    (cell : List ℕ) (f : Side → List ColoredBox)
    → colors_of cell (loop f)
      ≡ colors_of cell (f low) ++ colors_of cell (f mid) ++ colors_of cell (f high)
colors_of-loop cell f =
    ap (colors_of cell) (loop_lem f)
    ∙ colors_of-append cell (f low ++ f mid) (f high)
    ∙ ap (λ l. l ++ colors_of cell (f high)) (colors_of-append cell (f low) (f mid))

-- A loop in which only the round of one side has colors.
pub pick_colors :
    (cell : List ℕ) (s : Side) (v : Side → List ℕ) (f : Side → List ColoredBox)
    → ((i : Side) → colors_of cell (f i) ≡ (if same_side i s then v i else []))
    → colors_of cell (loop f) ≡ v s
unfolding same_side
pick_colors cell low v f h =
    rw (colors_of-loop cell f, h low, h mid, h high) (append-nil (v low ++ []) ∙ append-nil (v low))
pick_colors cell mid v f h = rw (colors_of-loop cell f, h low, h mid, h high) (append-nil (v mid))
pick_colors cell high v f h = rw (colors_of-loop cell f, h low, h mid, h high) refl
