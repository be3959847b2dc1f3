-- ===== src/Graph/Counts.antt =====
-- The counts of shared vertices: what the loops over vertices and other cells count.
use flecsi.Base.{
  ℕ, suc, ◌+◌, ◌<◌, ◌≡◌, ◌≢◌, refl, sym, ◌∙◌, List, [], ◌∷◌, ◌++◌, arith, ◌==◌, if◌then◌else◌,
  ==_iff, ==_ne,
}
use flecsi.StdSet.{insert, AllAbove, IsSorted, insert-IsSorted}
use flecsi.Graph.{count_up, other_loop, vertex_loop, push_at}

-- how often a value stands in a list
unfoldable pub occurrences : ℕ → List ℕ → ℕ
occurrences x [] = 0
occurrences x (y ∷ ys) = (if x == y then 1 else 0) + occurrences x ys

-- the pairs of equal values of two lists
unfoldable pub shared : List ℕ → List ℕ → ℕ
shared [] ys = 0
shared (x ∷ xs) ys = occurrences x ys + shared xs ys

pub occurrences-append :
    (x : ℕ) (xs ys : List ℕ) → occurrences x (xs ++ ys) ≡ occurrences x xs + occurrences x ys
unfolding occurrences
occurrences-append x [] ys = omega arith
occurrences-append x (y ∷ xs) ys = omega (arith, occurrences-append x xs ys)

pub shared-nil : (xs : List ℕ) → shared xs [] ≡ 0
unfolding shared occurrences
shared-nil [] = refl
shared-nil (x ∷ xs) = omega (arith, shared-nil xs)

shared-cons :
    (xs : List ℕ) (y : ℕ) (ys : List ℕ) → shared xs (y ∷ ys) ≡ occurrences y xs + shared xs ys
unfolding shared occurrences
shared-cons [] y ys = refl
shared-cons (x ∷ xs) y ys = ground (arith, shared-cons xs y ys)

pub shared_comm : (xs ys : List ℕ) → shared xs ys ≡ shared ys xs
unfolding shared
shared_comm [] ys = sym (shared-nil ys)
shared_comm (x ∷ xs) ys = omega (arith, shared_comm xs ys, shared-cons ys x xs)

-- What `counts[o]` would read.
unfoldable pub lookup : ℕ → List (ℕ × ℕ) → ℕ
lookup o [] = 0
lookup o ((j, n) ∷ m) = if o == j then n else lookup o m

unfoldable pub keys : List (ℕ × ℕ) → List ℕ
keys [] = []
keys ((j, n) ∷ m) = j ∷ keys m

keys-count_up : (k : ℕ) (m : List (ℕ × ℕ)) → keys (count_up k m) ≡ insert k (keys m)
unfolding keys count_up insert
keys-count_up k [] = refl
keys-count_up k ((j, n) ∷ m) = ground (arith, keys-count_up k m)

pub lookup-above : (o j : ℕ) (m : List (ℕ × ℕ)) → AllAbove j (keys m) → o < suc j → lookup o m ≡ 0
unfolding lookup keys
lookup-above o j [] above le = refl
lookup-above o j ((i, n) ∷ m) above le = ground (arith, lookup-above o j m above.1 le)

lookup-count_up :
    (o k : ℕ) (m : List (ℕ × ℕ))
    → IsSorted (keys m)
    → lookup o (count_up k m) ≡ lookup o m + (if o == k then 1 else 0)
unfolding lookup count_up keys
lookup-count_up o k [] srt = ground arith
lookup-count_up o k ((j, n) ∷ m) srt =
    ground (arith, lookup-count_up o k m srt.1, lookup-above o j m srt.0)

count_up-IsSorted : (k : ℕ) (m : List (ℕ × ℕ)) → IsSorted (keys m) → IsSorted (keys (count_up k m))
count_up-IsSorted k m srt = rw (keys-count_up k m) (insert-IsSorted k (keys m) srt)

other_loop-IsSorted :
    (cell : ℕ) (others : List ℕ) (m : List (ℕ × ℕ))
    → IsSorted (keys m)
    → IsSorted (keys (other_loop cell others m))
unfolding other_loop
other_loop-IsSorted cell [] m srt = srt
other_loop-IsSorted cell (other ∷ others) m srt =
    other_loop-IsSorted cell others (if other == cell then m else count_up other m)
      (ground (arith, count_up-IsSorted other m srt))

lookup-other_loop :
    (o cell : ℕ) (others : List ℕ) (m : List (ℕ × ℕ))
    → IsSorted (keys m)
    → lookup o (other_loop cell others m)
      ≡ lookup o m + (if o == cell then 0 else occurrences o others)
unfolding other_loop occurrences
lookup-other_loop o cell [] m srt = ground arith
lookup-other_loop o cell (other ∷ others) m srt =
    let next : List (ℕ × ℕ) = if other == cell then m else count_up other m in
    let next_srt : IsSorted (keys next) = ground (arith, count_up-IsSorted other m srt) in
    ground (arith, lookup-other_loop o cell others next next_srt, lookup-count_up o other m srt)

occurrences-push_at :
    (o cell w v : ℕ) (v2c : ℕ → List ℕ)
    → o ≢ cell
    → occurrences o (push_at w cell v2c v) ≡ occurrences o (v2c v)
unfolding occurrences
occurrences-push_at o cell w v v2c ne =
    ground (arith, occurrences-append o (v2c w) (cell ∷ []), ==_ne o cell ne, ==_iff v w)

-- The cells that the map from vertices to cells has after a cell.
pub occurrences-vertex_loop :
    (o cell v : ℕ) (vs : List ℕ) (v2c : ℕ → List ℕ) (m : List (ℕ × ℕ))
    → occurrences o ((vertex_loop cell vs v2c m).0 v)
      ≡ occurrences o (v2c v) + (if o == cell then occurrences v vs else 0)
unfolding vertex_loop occurrences
occurrences-vertex_loop o cell v [] v2c m = ground arith
occurrences-vertex_loop o cell v (w ∷ vs) v2c m = ground (
  arith,
  occurrences-vertex_loop o cell v vs (push_at w cell v2c)
      (other_loop cell (push_at w cell v2c w) m),
  occurrences-append o (v2c w) (cell ∷ []),
  ==_iff v w,
)

pub vertex_loop-IsSorted :
    (cell : ℕ) (vs : List ℕ) (v2c : ℕ → List ℕ) (m : List (ℕ × ℕ))
    → IsSorted (keys m)
    → IsSorted (keys (vertex_loop cell vs v2c m).1)
unfolding vertex_loop
vertex_loop-IsSorted cell [] v2c m srt = srt
vertex_loop-IsSorted cell (w ∷ vs) v2c m srt =
    vertex_loop-IsSorted cell vs (push_at w cell v2c) (other_loop cell (push_at w cell v2c w) m)
      (other_loop-IsSorted cell (push_at w cell v2c w) m srt)

-- A cell is not counted for itself.
pub lookup-vertex_loop_self :
    (cell : ℕ) (vs : List ℕ) (v2c : ℕ → List ℕ) (m : List (ℕ × ℕ))
    → IsSorted (keys m)
    → lookup cell (vertex_loop cell vs v2c m).1 ≡ lookup cell m
unfolding vertex_loop
lookup-vertex_loop_self cell [] v2c m srt = refl
lookup-vertex_loop_self cell (w ∷ vs) v2c m srt =
    let now : List ℕ = push_at w cell v2c w in
    ground (
      arith,
      lookup-vertex_loop_self cell vs (push_at w cell v2c) (other_loop cell now m)
          (other_loop-IsSorted cell now m srt),
      lookup-other_loop cell cell now m srt,
    )

-- Another cell is counted once for each vertex that it shares with the cell.
pub lookup-vertex_loop :
    (o cell : ℕ) (ys vs : List ℕ) (v2c : ℕ → List ℕ) (m : List (ℕ × ℕ))
    → o ≢ cell
    → IsSorted (keys m)
    → ((v : ℕ) → occurrences o (v2c v) ≡ occurrences v ys)
    → lookup o (vertex_loop cell vs v2c m).1 ≡ lookup o m + shared vs ys
unfolding vertex_loop shared
lookup-vertex_loop o cell ys [] v2c m ne srt h = omega arith
lookup-vertex_loop o cell ys (w ∷ vs) v2c m ne srt h =
    let now : List ℕ = push_at w cell v2c w in
    let kept : (v : ℕ) → occurrences o (push_at w cell v2c v) ≡ occurrences v ys =
      λ v. occurrences-push_at o cell w v v2c ne ∙ h v in
    let rest =
      lookup-vertex_loop o cell ys vs (push_at w cell v2c) (other_loop cell now m) ne
        (other_loop-IsSorted cell now m srt) kept in
    let first = lookup-other_loop o cell now m srt in
    let apart = ==_ne o cell ne in ground (arith, rest, first, apart, kept w)
