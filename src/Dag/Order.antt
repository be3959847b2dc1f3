-- ===== src/Dag/Order.antt =====
-- The sort of a graph as a whole.
use mathlib.Core.List.{Permᴰ, map-append}
use flecsi.Base.{
  ℕ, zero, suc, ◌+◌, ◌<◌, ◌≡◌, refl, sym, ap, subst, ◌∙◌, true, false, List, [], ◌∷◌, ◌++◌, arith,
  length, map, inl, inr, append-nil, length-append, length-map, List-cases, ◌==◌, Bool-cases, ◌⊎◌,
}
use flecsi.StdSet.{member, member_first, member-append}
use flecsi.Dag.{Node, NodeMap, ready, done, not_a_dag, finish, sort, has}
use flecsi.Dag.Settle.{member-outside}
use flecsi.Dag.Nodes.{nodes, edges_of, IsMap, IsClosed, nodes-edges, member-nodes}
use flecsi.Dag.Round.{All, bare, Waits}
use flecsi.Dag.Sort.{
  hashes, Inv-ready, length-ready, Ends, rounds_end, IsOrdered, OrderedFrom-IsOrdered,
}

length-perm {ℓ} : {A : Type ℓ} {xs ys : List A} → Permᴰ xs ys → length xs ≡ length ys
length-perm Permᴰ.nil = refl
length-perm (Permᴰ.cons e p) = ap suc (length-perm p)
length-perm (Permᴰ.swap a b) = refl
length-perm (Permᴰ.trans p q) = length-perm p ∙ length-perm q

member-perm {ℓ} :
    {P : Type ℓ} (x : ℕ) {xs ys : List (Node P)}
    → Permᴰ xs ys
    → member x (hashes xs) ≡ member x (hashes ys)
unfolding member
member-perm x Permᴰ.nil = refl
member-perm x (Permᴰ.cons e p) = ground (arith, member-perm x p, ap (λ n. n.hash) e)
member-perm x (Permᴰ.swap a b) = ground (arith, ap (λ n. n.hash) a, ap (λ n. n.hash) b)
member-perm x (Permᴰ.trans p q) = member-perm x p ∙ member-perm x q

hashes-bare {ℓ} : {P : Type ℓ} (ns : List (Node P)) → hashes (map bare ns) ≡ hashes ns
unfolding bare
hashes-bare [] = refl
hashes-bare (n ∷ ns) = ap (◌∷◌ n.hash) (hashes-bare ns)

module _ {ℓ} {P : Type ℓ} (m : NodeMap P) (h : IsMap m) where
  sort_end : Ends (edges_of m) (nodes m) (length m) (length m) 0 [] (ready [] (nodes m))
  sort_end =
      let w = ready [] (nodes m) in
      rounds_end (edges_of m) (nodes m) (length m) (length m) 0 [] w.queue w.waiting
        (Inv-ready (edges_of m) (nodes m) (nodes-edges m h)) refl
        (omega (arith, length-ready [] (nodes m), length-map (λ (e : ℕ × Node P). e.1) m))

  -- What the loop ends with makes up the graph.
  sizes : length sort_end.last + length sort_end.waiting ≡ length m
  sizes = omega (
    arith,
    length-perm sort_end.inv.same,
    length-append sort_end.last (map bare sort_end.waiting),
    length-map bare sort_end.waiting,
    length-map bare (nodes m),
    length-map (λ (e : ℕ × Node P). e.1) m,
  )

  sort_run : sort m ≡ finish (length m) (length sort_end.last) sort_end.last
  unfolding sort
  sort_run = sort_end.run

  complete_when :
      length sort_end.last ≡ length m
      → Permᴰ sort_end.last (map bare (nodes m)) × IsOrdered (edges_of m) sort_end.last
  complete_when e = elim (List-cases sort_end.waiting) [
    | inl none_left ↦ (
      subst (λ l. Permᴰ l (map bare (nodes m)))
          (ap (λ k. sort_end.last ++ map bare k) none_left ∙ append-nil _) sort_end.inv.same,
      OrderedFrom-IsOrdered (edges_of m) sort_end.last sort_end.inv.ordered,
    )
    | inr (n, ns, more) ↦ absurd (omega (arith, sizes, ap (length {A = Node P}) more))
  ]

  -- A hash in the graph was sorted, or its node still waits.
  placed :
      (d : ℕ)
      → has d m ≡ true
      → member d (hashes sort_end.last) ≡ false
      → member d (hashes sort_end.waiting) ≡ true
  placed d there missing = ground (
    arith,
    member-nodes m d h,
    hashes-bare (nodes m),
    hashes-bare sort_end.waiting,
    member-perm d sort_end.inv.same,
    ap (member d) (map-append (λ (n : Node P). n.hash) sort_end.last (map bare sort_end.waiting)),
    member-append d (hashes sort_end.last) (hashes (map bare sort_end.waiting)),
  )

finish_all {ℓ} :
    {P : Type ℓ} {size count : ℕ} {s : List (Node P)} → count ≡ size → finish size count s ≡ done s
unfolding finish
finish_all e = ground arith

-- A node that still waits, by its hash.
waiting_at {ℓ} :
    {P : Type ℓ} (deps : ℕ → List ℕ) (finished : List ℕ) (x : ℕ) (ns : List (Node P))
    → All (Waits deps finished) ns
    → member x (hashes ns) ≡ true
    → (n : Node P) × (n.hash ≡ x) × Waits deps finished n
unfolding member
waiting_at deps finished x [] w e = cc
waiting_at deps finished x (n ∷ ns) w e = elim (Bool-cases (x == n.hash)) [
  | inl hit ↦ (n, ground arith, w.0)
  | inr miss ↦ waiting_at deps finished x ns w.1 (ground arith)
]

module _ {ℓ} {P : Type ℓ} (m : NodeMap P) (h : IsMap m) where
  -- How the sort ends: with all nodes, or with the fatal error.
  sort_cases :
      ((sort m ≡ done (sort_end m h).last)
        × Permᴰ (sort_end m h).last (map bare (nodes m))
        × IsOrdered (edges_of m) (sort_end m h).last)
      ⊎ (sort m ≡ not_a_dag)
  unfolding finish
  sort_cases =
      let last = (sort_end m h).last in
      let run = sort_run m h in
      elim (Bool-cases (length last == length m)) [
        | inl all ↦
            let (same, ordered) = complete_when m h (ground arith) in
            inl (rw (finish, all) at run, same, ordered)
        | inr some_wait ↦ inr (rw (finish, some_wait) at run)
      ]

  -- The sort of a map in order ends: with a result, or with the fatal error.
  pub sort_total : ((s : List (Node P)) × (sort m ≡ done s)) ⊎ (sort m ≡ not_a_dag)
  sort_total = elim sort_cases [ inl (run, _, _) ↦ inl (_, run) | inr fatal ↦ inr fatal ]

  -- What the sort of a map in order returns is a rearrangement of the nodes of the map, each
  -- with its edges removed.
  pub sort-perm : (s : List (Node P)) → sort m ≡ done s → Permᴰ s (map bare (nodes m))
  sort-perm s e = elim sort_cases [
    | inl (run, same, ordered) ↦
        let eq : (sort_end m h).last ≡ s = cc in subst (λ k. Permᴰ k (map bare (nodes m))) eq same
    | inr fatal ↦ absurd (cc)
  ]

  -- In what the sort of a map in order returns, every node that a node depends on stands before it.
  pub sort_ordered :
      (s before after : List (Node P)) (n : Node P) (d : ℕ)
      → sort m ≡ done s
      → s ≡ before ++ n ∷ after
      → member d (edges_of m n.hash) ≡ true
      → member d (hashes before) ≡ true
  sort_ordered s before after n d e split dep = elim sort_cases [
    | inl (run, same, ordered) ↦
        let eq : (sort_end m h).last ≡ s = cc in ordered before after n d (eq ∙ split) dep
    | inr fatal ↦ absurd (cc)
  ]

  module _ (closed : IsClosed m) (rank : ℕ → ℕ)
      (acyclic : (k d : ℕ) → member d (edges_of m k) ≡ true → rank d < rank k) where
    -- From a waiting node there is a chain of waiting nodes of ever lower rank.
    none_waits :
        (bound x : ℕ) → rank x < bound → member x (hashes (sort_end m h).waiting) ≡ true → ⊥
    none_waits zero x lt e = absurd (omega arith)
    none_waits (suc bound) x lt e =
        let end = sort_end m h in
        let (n, at, wait) =
          waiting_at (edges_of m) (hashes end.last) x end.waiting end.inv.split.stuck e in
        elim (List-cases n.edges) [
          | inl empty ↦ absurd (wait.some_left empty)
          | inr (d, ds, edges) ↦
              let (dep, undone) =
                member-outside (hashes end.last) (edges_of m n.hash) d
                  (subst (λ k. member d k ≡ true) (sym edges ∙ wait.edges) (member_first d ds)) in
              none_waits bound d (omega (arith, acyclic n.hash d dep, ap rank at))
                (placed m h d (closed n.hash d dep) undone)
        ]

    -- The sort of a closed map in order returns if some rank falls along every edge, that is, for
    -- every graph without a cycle.
    pub sort_acyclic : (s : List (Node P)) × (sort m ≡ done s)
    unfolding finish member
    sort_acyclic =
        let end = sort_end m h in
        elim (List-cases end.waiting) [
          | inl empty ↦ (
            end.last,
            sort_run m h ∙ finish_all (omega (arith, sizes m h, ap (length {A = Node P}) empty)),
          )
          | inr (n, ns, more) ↦ absurd (
              none_waits (suc (rank n.hash)) n.hash (omega arith) (
                subst (λ k. member n.hash (hashes k) ≡ true) (sym more)
                  (member_first n.hash (hashes ns))))
        ]
