-- ===== src/Dag.antt =====
-- utils/dag.h: nodes under their hashes with the edges to the nodes that they depend on, and
-- Kahn's algorithm. The node policy is a type `P` with its default value and its `initialize`.
pub mod Nodes
pub mod Settle
pub mod Round
pub mod Sort
pub mod Order
mod Tests
use Prim.Native.String.{String}
use flecsi.Base.{
  ℕ, zero, suc, Bool, true, false, Option, none, some, List, [], ◌∷◌, ◌++◌, ltb, ◌==◌,
  if◌then◌else◌, length, map,
}

pub record Node {ℓ} (P : Type ℓ) : Type ℓ where
  pub hash : ℕ
  pub label : String
  pub edges : List ℕ
  pub policy : P

-- `std::map<size_t, node_t>` by increasing keys
abbrev pub NodeMap {ℓ} : Type ℓ → Type ℓ
NodeMap P = List (ℕ × Node P)

-- `nodes_.find(k) != nodes_.end()`
pub has {ℓ} : {P : Type ℓ} → ℕ → NodeMap P → Bool
has k [] = false
has k ((j, n) ∷ m) = if k == j then true else has k m

-- `dag_node_u::initialize` keeps the edges.
pub initialize {ℓ} : {P : Type ℓ} → (P → P → P) → Node P → Node P → Node P
initialize init node n = record n {
  hash = node.hash;
  label = node.label;
  policy = init n.policy node.policy;
}

module _ {ℓ} {P : Type ℓ} (default : P) where
  -- `dag_node_u()`
  pub blank : Node P
  blank = record { hash = 0; label = ""; edges = []; policy = default }

  -- `f(nodes_[k])`: a missing node is made first.
  pub modify : ℕ → (Node P → Node P) → NodeMap P → NodeMap P
  modify k f [] = (k, f blank) ∷ []
  modify k f ((j, n) ∷ m) =
      if ltb k j
      then (k, f blank) ∷ (j, n) ∷ m
      else if k == j
      then (j, f n) ∷ m
      else (j, n) ∷ modify k f m

  pub initialize_node : (P → P → P) → Node P → NodeMap P → NodeMap P
  initialize_node init node m = modify node.hash (initialize init node) m

  -- `if(nodes_.find(k) == nodes_.end()) nodes_[k].hash() = k;`
  pub ensure : ℕ → NodeMap P → NodeMap P
  ensure k m = if has k m then m else modify k (λ n. record n { hash = k }) m

  pub add_edge : ℕ → ℕ → NodeMap P → NodeMap P
  add_edge to from m =
      modify to (λ n. record n { edges = n.edges ++ from ∷ [] }) (ensure from (ensure to m))

-- `std::find` and `erase` of what it found
pub erase_first : ℕ → List ℕ → Option (List ℕ)
erase_first h [] = none
erase_first h (e ∷ es) =
    if e == h
    then some es
    else (elim (erase_first h es) [ none ↦ none | some es' ↦ some (e ∷ es') ])

-- The visits of one node in a round: the iterator stays as long as an edge to the root is found
-- and others are left. `none` says that the last edge went, `some` what stays.
pub settle : ℕ → ℕ → List ℕ → Option (List ℕ)
settle zero h es = some es
settle (suc fuel) h es = elim (erase_first h es) [
  | none ↦ some es
  | some es' ↦ elim es' [ [] ↦ none | e ∷ r ↦ settle fuel h (e ∷ r) ]
]

-- The queue and the list of the nodes that wait.
pub record Work {ℓ} (P : Type ℓ) : Type ℓ where
  pub queue : List (Node P)
  pub waiting : List (Node P)

-- The sorted nodes, or the fatal error. That the fuel never runs out is proved.
pub data Outcome {ℓ} (P : Type ℓ) : Type ℓ where
  done : List (Node P) → Outcome P
  not_a_dag : Outcome P
  out_of_fuel : Outcome P

module _ {ℓ} {P : Type ℓ} where
  pub keep : Node P → Work P → Work P
  keep n w = record { queue = w.queue; waiting = n ∷ w.waiting }

  -- The `for` loop of a round. An edge list shrinks at each visit but the last.
  pub scan : ℕ → List (Node P) → List (Node P) → Work P
  scan h queue [] = record { queue = queue; waiting = [] }
  scan h queue (n ∷ ns) = elim (settle (suc (length n.edges)) h n.edges) [
    | none ↦ scan h (queue ++ record n { edges = [] } ∷ []) ns
    | some es ↦ keep (record n { edges = es }) (scan h queue ns)
  ]

  -- The loop that fills the queue with the nodes that depend on nothing.
  pub ready : List (Node P) → List (Node P) → Work P
  ready queue [] = record { queue = queue; waiting = [] }
  ready queue (n ∷ ns) = elim n.edges [
    | [] ↦ ready (queue ++ n ∷ []) ns
    | e ∷ es ↦ keep n (ready queue ns)
  ]

  -- The comparison of the number of sorted nodes with the size of the map.
  pub finish : ℕ → ℕ → List (Node P) → Outcome P
  finish size count sorted = if count == size then done sorted else not_a_dag

  -- The `while` loop.
  pub rounds : ℕ → ℕ → ℕ → List (Node P) → Work P → Outcome P
  rounds size zero count sorted w = elim w.queue [
    | [] ↦ finish size count sorted
    | _ ∷ _ ↦ out_of_fuel
  ]
  rounds size (suc fuel) count sorted w = elim w.queue [
    | [] ↦ finish size count sorted
    | root ∷ queue ↦
        rounds size fuel (suc count) (sorted ++ root ∷ []) (scan root.hash queue w.waiting)
  ]

  pub sort : NodeMap P → Outcome P
  sort m = rounds (length m) (length m) 0 [] (ready [] (map (λ e. e.1) m))
