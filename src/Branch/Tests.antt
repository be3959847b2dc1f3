-- ===== src/Branch/Tests.antt =====
-- Runs of the branch ids, and their theorems at concrete inputs.
use flecsi.Base.{ℕ, suc, ◌≤◌, ◌≡◌, refl, none, some, arith}
use flecsi.Branch.{depth_loop, depth, push, pop, pop_by, truncate, root, max_depth, is_null, parent}
use flecsi.Branch.Path.{push-pop, pop_by_lem}

program : Unit {0}
unfolding depth_loop depth push pop pop_by truncate root max_depth is_null parent
program = tt

-- 64 bits in dimension 2: the root is 2, and 9 is its branch 1
runs :
    (root 64 2 ≡ 2)
    × (max_depth 64 2 ≡ 31)
    × (push 64 2 2 1 ≡ some 9)
    × (depth 64 2 9 ≡ 1)
    × (pop 64 2 9 ≡ some 2)
    × (pop 64 2 2 ≡ none)
    × (truncate 64 2 1 39 ≡ 9)
    × (depth 64 2 39 ≡ 2)
    × (pop_by 64 2 1 39 ≡ none)
    × (pop_by 64 2 2 39 ≡ some 2)
unfolding program
runs = (refl, refl, refl, refl, refl, refl, refl, refl, refl, refl)

push-pop_example :
    (child : ℕ) × (push 64 2 9 3 ≡ some child)
    × (depth 64 2 child ≡ suc (depth 64 2 9))
    × (pop 64 2 child ≡ some 9)
push-pop_example = push-pop 64 2 9 3 (omega arith) (omega arith) (omega arith) (omega arith)

pop_by_lem_example : (depth 64 2 39 ≤ 2) × (depth 64 2 2 ≡ 0)
pop_by_lem_example = pop_by_lem 64 2 39 2 2 (omega arith) (omega arith) (runs.9)
