-- ===== src/Dag/Nodes.antt =====
-- The map of the nodes: its order, the edges under a hash, and what the registrations change.
use flecsi.Base.{
  ℕ, ◌≤◌, ◌<◌, ◌≡◌, refl, ◌∙◌, true, false, ◌||◌, List, [], ◌⊎◌, inl, inr, ◌∷◌, ◌++◌, arith, map,
  ◌==◌, if◌then◌else◌, Bool-cases,
}
use flecsi.StdSet.{member, member-append, member_one}
use flecsi.Dag.Round.{All, All-imp}
use flecsi.Dag.{Node, NodeMap, blank, modify, has, initialize, initialize_node, ensure, add_edge}

abbrev pub nodes {ℓ} : {P : Type ℓ} → NodeMap P → List (Node P)
nodes m = map (λ e. e.1) m

-- The edges of the node under a hash.
unfoldable pub edges_of {ℓ} : {P : Type ℓ} → NodeMap P → ℕ → List ℕ
edges_of [] h = []
edges_of ((j, n) ∷ m) h = if h == j then n.edges else edges_of m h

abbrev pub KeysAbove {ℓ} : {P : Type ℓ} → ℕ → NodeMap P → Type 0
KeysAbove b [] = Unit
KeysAbove b ((j, n) ∷ m) = (b < j) × KeysAbove b m

-- The keys increase, and each node stands under its hash.
abbrev pub IsMap {ℓ} : {P : Type ℓ} → NodeMap P → Type 0
IsMap [] = Unit
IsMap ((j, n) ∷ m) = (n.hash ≡ j) × KeysAbove j m × IsMap m

-- Every edge leads to a node.
abbrev pub IsClosed {ℓ} : {P : Type ℓ} → NodeMap P → Type 0
IsClosed m = (h d : ℕ) → member d (edges_of m h) ≡ true → has d m ≡ true

module _ {ℓ} {P : Type ℓ} where
  KeysAbove-trans : (a b : ℕ) (m : NodeMap P) → a ≤ b → KeysAbove b m → KeysAbove a m
  KeysAbove-trans a b [] le h = tt
  KeysAbove-trans a b ((j, n) ∷ m) le h = (omega arith, KeysAbove-trans a b m le h.1)

  edges_of_below : (m : NodeMap P) (b h : ℕ) → KeysAbove b m → h ≤ b → edges_of m h ≡ []
  unfolding edges_of
  edges_of_below [] b h above le = refl
  edges_of_below ((j, n) ∷ m) b h above le = ground (arith, edges_of_below m b h)

  has_below : (m : NodeMap P) (b h : ℕ) → KeysAbove b m → h ≤ b → has h m ≡ false
  unfolding has
  has_below [] b h above le = refl
  has_below ((j, n) ∷ m) b h above le = ground (arith, has_below m b h)

module _ {ℓ} {P : Type ℓ} (default : P) (k : ℕ) (f : Node P → Node P) where
  KeysAbove-modify :
      (b : ℕ) (m : NodeMap P) → b < k → KeysAbove b m → KeysAbove b (modify default k f m)
  unfolding modify
  KeysAbove-modify b [] lt h = (lt, tt)
  KeysAbove-modify b ((j, n) ∷ m) lt h = ground (arith, KeysAbove-modify b m)

  has-modify : (q : ℕ) (m : NodeMap P) → has q (modify default k f m) ≡ (q == k || has q m)
  unfolding modify has
  has-modify q [] = ground arith
  has-modify q ((j, n) ∷ m) = ground (arith, has-modify q m)

  modify-IsMap :
      (m : NodeMap P)
      → ((n : Node P) → n.hash ≡ k → (f n).hash ≡ k)
      → (has k m ≡ true) ⊎ ((f (blank default)).hash ≡ k)
      → IsMap m
      → IsMap (modify default k f m)
  unfolding modify has
  modify-IsMap [] keeps made h = ground arith
  modify-IsMap ((j, n) ∷ m) keeps made h = ground (
    arith,
    keeps n,
    modify-IsMap m keeps,
    KeysAbove-modify j m,
    has_below m j k,
    KeysAbove-trans k j m,
  )

  edges_of-modify :
      (g : List ℕ → List ℕ)
      → ((n : Node P) → (f n).edges ≡ g n.edges)
      → (q : ℕ) (m : NodeMap P) → IsMap m
      → edges_of (modify default k f m) q ≡ (if q == k then g (edges_of m k) else edges_of m q)
  unfolding modify edges_of blank
  edges_of-modify g e q [] h = ground (arith, e (blank default))
  edges_of-modify g e q ((j, n) ∷ m) h =
      ground (arith, edges_of-modify g e q m, e (blank default), e n, edges_of_below m j k)

-- Every node of the map has the edges under its hash.
nodes-edges_above {ℓ} :
    {P : Type ℓ} (b : ℕ) (m : NodeMap P)
    → KeysAbove b m
    → IsMap m
    → All (λ n. (b < n.hash) × (n.edges ≡ edges_of m n.hash)) (nodes m)
unfolding edges_of
nodes-edges_above b [] above h = tt
nodes-edges_above b ((j, n) ∷ m) above h = (
  (ground arith, ground arith),
  All-imp (nodes m) (λ n' (lt, e). (omega arith, ground arith)) (nodes-edges_above j m h.1 h.2),
)

pub nodes-edges {ℓ} :
    {P : Type ℓ} (m : NodeMap P) → IsMap m → All (λ n. n.edges ≡ edges_of m n.hash) (nodes m)
unfolding edges_of
nodes-edges [] h = tt
nodes-edges ((j, n) ∷ m) h =
    (ground arith, All-imp (nodes m) (λ n' (lt, e). ground arith) (nodes-edges_above j m h.1 h.2))

-- A hash of the map is that of one of the nodes.
pub member-nodes {ℓ} :
    {P : Type ℓ} (m : NodeMap P) (h : ℕ)
    → IsMap m
    → member h (map (λ n. n.hash) (nodes m)) ≡ has h m
unfolding member has
member-nodes [] h k = refl
member-nodes ((j, n) ∷ m) h k = ground (arith, member-nodes m h)

module _ {ℓ} {P : Type ℓ} (default : P) where
  ensure-IsMap : (k : ℕ) (m : NodeMap P) → IsMap m → IsMap (ensure default k m)
  unfolding ensure
  ensure-IsMap k m h = elim (Bool-cases (has k m)) [
    | inl there ↦ rw there h
    | inr missing ↦
        rw missing
          (modify-IsMap default k (λ n. record n { hash = k }) m (λ n e. refl) (inr refl) h)
  ]

  has-ensure : (k q : ℕ) (m : NodeMap P) → has q (ensure default k m) ≡ (q == k || has q m)
  unfolding ensure
  has-ensure k q m = elim (Bool-cases (has k m)) [
    | inl there ↦ rw there (ground arith)
    | inr missing ↦ rw missing (has-modify default k (λ n. record n { hash = k }) q m)
  ]

  edges_of-ensure :
      (k q : ℕ) (m : NodeMap P) → IsMap m → edges_of (ensure default k m) q ≡ edges_of m q
  unfolding ensure
  edges_of-ensure k q m h = elim (Bool-cases (has k m)) [
    | inl there ↦ rw there refl
    | inr missing ↦ rw missing (
        ground (
          arith,
          edges_of-modify default k (λ n. record n { hash = k }) (λ es. es) (λ n. refl) q m h,
        ))
  ]

  module _ (to from : ℕ) where
    abbrev push : Node P → Node P
    push n = record n { edges = n.edges ++ from ∷ [] }

    has-add_edge :
        (q : ℕ) (m : NodeMap P)
        → has q (add_edge default to from m) ≡ (q == to || (q == from || has q m))
    unfolding add_edge
    has-add_edge q m =
        let m1 = ensure default to m in
        ground (
          arith,
          has-modify default to push q (ensure default from m1),
          has-ensure from q m1,
          has-ensure to q m,
        )

    edges_of-add_edge :
        (q : ℕ) (m : NodeMap P)
        → IsMap m
        → edges_of (add_edge default to from m) q
          ≡ (if q == to then edges_of m to ++ from ∷ [] else edges_of m q)
    unfolding add_edge
    edges_of-add_edge q m h =
        let m1 = ensure default to m in
        let h1 = ensure-IsMap to m h in
        let h2 = ensure-IsMap from m1 h1 in
        let pushed =
          edges_of-modify default to push (λ es. es ++ from ∷ []) (λ n. refl) q
            (ensure default from m1) h2 in
        let at = λ (k : ℕ). edges_of-ensure from k m1 h1 ∙ edges_of-ensure to k m h in
        rw (pushed, at to, at q) refl

    add_edge-IsMap : (m : NodeMap P) → IsMap m → IsMap (add_edge default to from m)
    unfolding add_edge
    add_edge-IsMap m h =
        let m1 = ensure default to m in
        modify-IsMap default to push (ensure default from m1) (λ n e. e)
          (inl (ground (arith, has-ensure from to m1, has-ensure to to m)))
          (ensure-IsMap from m1 (ensure-IsMap to m h))

    -- Registering an edge in a map in order keeps the order, and adds the edge at the end of the
    -- edges of its node; the edges of the other nodes stay, and at most the two ends are new nodes.
    pub add_edge_lem :
        (m : NodeMap P) (q : ℕ)
        → IsMap m
        → IsMap (add_edge default to from m)
          × (edges_of (add_edge default to from m) q
              ≡ (if q == to then edges_of m to ++ from ∷ [] else edges_of m q))
          × (has q (add_edge default to from m) ≡ (q == to || (q == from || has q m)))
    add_edge_lem m q h = (add_edge-IsMap m h, edges_of-add_edge q m h, has-add_edge q m)

    -- Registering an edge in a map in order whose edges all lead to nodes of the map gives such a
    -- map again.
    pub add_edge-IsClosed :
        (m : NodeMap P) → IsMap m → IsClosed m → IsClosed (add_edge default to from m)
    add_edge-IsClosed m h closed q d e = ground (
      arith,
      has-add_edge d m,
      edges_of-add_edge q m h,
      member-append d (edges_of m to) (from ∷ []),
      member_one d from,
      closed q d,
      closed to d,
    )

  module _ (init : P → P → P) (node : Node P) where
    -- Registering a node in a map in order keeps the order and the edges of every node, also of
    -- the registered one, and at most that node is new.
    pub initialize_node_lem :
        (m : NodeMap P) (q : ℕ)
        → IsMap m
        → IsMap (initialize_node default init node m)
          × (edges_of (initialize_node default init node m) q ≡ edges_of m q)
          × (has q (initialize_node default init node m) ≡ (q == node.hash || has q m))
    unfolding initialize_node initialize
    initialize_node_lem m q h = (
      modify-IsMap default node.hash (initialize init node) m (λ n e. refl) (inr refl) h,
      ground (
        arith,
        edges_of-modify default node.hash (initialize init node) (λ es. es) (λ n. refl) q m h,
      ),
      has-modify default node.hash (initialize init node) q m,
    )
