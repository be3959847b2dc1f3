-- ===== src/Dag/Tests.antt =====
-- Runs of the graph, and its theorems at concrete inputs.
use mathlib.Core.List.{Permᴰ}
use flecsi.Base.{
  ℕ, ◌<◌, ◌≡◌, refl, ◌⊎◌, true, List, [], ◌∷◌, ◌++◌, map, arith, ◌==◌, ◌||◌, if◌then◌else◌,
}
use flecsi.StdSet.{member}
use flecsi.Dag.{
  Node, NodeMap, blank, modify, has, initialize, initialize_node, ensure, add_edge, erase_first,
  settle, keep, scan, ready, done, not_a_dag, finish, rounds, sort,
}
use flecsi.Dag.Nodes.{nodes, edges_of, IsMap, IsClosed, add_edge_lem}
use flecsi.Dag.Round.{bare}
use flecsi.Dag.Sort.{hashes}
use flecsi.Dag.Order.{sort_total, sort-perm, sort_ordered, sort_acyclic}

program : Unit {0}
unfolding blank modify has initialize initialize_node ensure add_edge erase_first settle keep scan
    ready finish rounds sort member edges_of bare
program = tt

abbrev node : ℕ → List ℕ → Node ℕ
node h es = record { hash = h; label = ""; edges = es; policy = 0 }

-- 3 depends on 2, twice, and on 1, and 2 depends on 1.
abbrev sample : NodeMap ℕ
sample = (1, node 1 []) ∷ (2, node 2 (1 ∷ [])) ∷ (3, node 3 (2 ∷ 2 ∷ 1 ∷ [])) ∷ []

abbrev grow : NodeMap ℕ → NodeMap ℕ
grow m = add_edge 0 3 1 (add_edge 0 3 2 (add_edge 0 3 2 (add_edge 0 2 1 m)))

runs :
    (grow [] ≡ sample)
    × (sort sample ≡ done (node 1 [] ∷ node 2 [] ∷ node 3 [] ∷ []))
    × (sort (add_edge 0 1 3 sample) ≡ not_a_dag)
unfolding program
runs = (refl, refl, refl)

sample-IsMap : IsMap sample
sample-IsMap = omega arith

sample-IsClosed : IsClosed sample
unfolding has edges_of member
sample-IsClosed h d e = ground arith

sample_falls : (k d : ℕ) → member d (edges_of sample k) ≡ true → d < k
unfolding edges_of member
sample_falls k d e = ground arith

add_edge_lem_example :
    IsMap (add_edge 0 5 1 sample)
    × (edges_of (add_edge 0 5 1 sample) 3
        ≡ (if 3 == 5 then edges_of sample 5 ++ 1 ∷ [] else edges_of sample 3))
    × (has 3 (add_edge 0 5 1 sample) ≡ (3 == 5 || (3 == 1 || has 3 sample)))
add_edge_lem_example = add_edge_lem 0 5 1 sample 3 sample-IsMap

abbrev take_new : ℕ → ℕ → ℕ
take_new old new = new

sort_total_example : ((s : List (Node ℕ)) × (sort sample ≡ done s)) ⊎ (sort sample ≡ not_a_dag)
sort_total_example = sort_total sample sample-IsMap

abbrev numbered_in_order : List (Node ℕ)
numbered_in_order = node 1 [] ∷ node 2 [] ∷ node 3 [] ∷ []

sort-perm_example : Permᴰ numbered_in_order (map bare (nodes sample))
sort-perm_example = sort-perm sample sample-IsMap numbered_in_order runs.1

sort_ordered_example : member 1 (hashes (node 1 [] ∷ [])) ≡ true
sort_ordered_example =
    sort_ordered sample sample-IsMap numbered_in_order (node 1 [] ∷ []) (node 3 [] ∷ []) (node 2 [])
      1 runs.1 refl (unfold edges_of member in refl)

sort_acyclic_example : (s : List (Node ℕ)) × (sort sample ≡ done s)
sort_acyclic_example = sort_acyclic sample sample-IsMap sample-IsClosed (λ k. k) sample_falls
