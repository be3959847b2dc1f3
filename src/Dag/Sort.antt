-- ===== src/Dag/Sort.antt =====
-- Kahn's algorithm: it ends, what it returns respects the dependencies, and it returns for every
-- graph without a cycle.
use mathlib.Core.List.{Permᴰ, map-append}
use mathlib.Core.List.Permᴰ
use flecsi.Base.{
  ℕ, zero, suc, ◌+◌, ◌≤◌, ◌≡◌, refl, sym, ap, subst, ◌∙◌, true, List, [], ◌∷◌, ◌++◌, arith, length,
  map, inl, inr, append_assoc, append-nil, length-append, List-cases,
}
use flecsi.StdSet.{member}
use flecsi.Dag.{Node, Work, scan, ready, keep, finish, rounds}
use flecsi.Dag.Settle.{outside, outside-member, outside-nil, only}
use flecsi.Dag.Round.{
  All, All-append, bare, length-scan, scan-perm, IsReady, IsSplit, round-IsSplit,
}

abbrev pub hashes {ℓ} : {P : Type ℓ} → List (Node P) → List ℕ
hashes = map (λ n. n.hash)

module _ {ℓ} {P : Type ℓ} where
  map-bare : (n : Node P) → n.edges ≡ [] → bare n ≡ n
  unfolding bare
  map-bare n e = ground arith

  ready_free :
      (queue ns : List (Node P)) (n : Node P)
      → n.edges ≡ []
      → ready queue (n ∷ ns) ≡ ready (queue ++ n ∷ []) ns
  unfolding ready
  ready_free queue ns n e = ground arith

  ready_stuck :
      (queue ns : List (Node P)) (n : Node P) (x : ℕ) (xs : List ℕ)
      → n.edges ≡ x ∷ xs
      → ready queue (n ∷ ns) ≡ keep n (ready queue ns)
  unfolding ready
  ready_stuck queue ns n x xs e = ground arith

  pub length-ready :
      (queue ns : List (Node P))
      → length (ready queue ns).queue + length (ready queue ns).waiting ≡ length queue + length ns
  unfolding ready keep
  length-ready queue [] = refl
  length-ready queue (n ∷ ns) = elim (List-cases n.edges) [
    | inl e ↦
        rw (ready_free queue ns n e)
          (omega (arith, length-ready (queue ++ n ∷ []) ns, length-append queue (n ∷ [])))
    | inr (x, xs, e) ↦ rw (ready_stuck queue ns n x xs e) (omega (arith, length-ready queue ns))
  ]

  ready-perm :
      (queue ns : List (Node P))
      → Permᴰ ((ready queue ns).queue ++ map bare (ready queue ns).waiting) (queue ++ map bare ns)
  unfolding ready keep
  ready-perm queue [] = Permᴰ.refl _
  ready-perm queue (n ∷ ns) = elim (List-cases n.edges) [
    | inl e ↦ rw (ready_free queue ns n e) (
        subst (Permᴰ _)
          (append_assoc queue (n ∷ []) (map bare ns)
            ∙ ap (λ k. queue ++ k ∷ map bare ns) (sym (map-bare n e)))
          (ready-perm (queue ++ n ∷ []) ns))
    | inr (x, xs, e) ↦ rw (ready_stuck queue ns n x xs e) (
        Permᴰ.trans (Permᴰ.middle (bare n) _ _) (
          Permᴰ.trans (Permᴰ.cons refl (ready-perm queue ns))
            (Permᴰ.symm (Permᴰ.middle (bare n) queue (map bare ns)))))
  ]

module _ {ℓ} {P : Type ℓ} (deps : ℕ → List ℕ) where
  ready-IsSplit :
      (queue ns : List (Node P))
      → All (IsReady deps []) queue
      → All (λ n. n.edges ≡ deps n.hash) ns
      → IsSplit deps [] (ready queue ns)
  unfolding ready keep
  ready-IsSplit queue [] free h = record { free = free; stuck = tt }
  ready-IsSplit queue (n ∷ ns) free (e, h) = elim (List-cases n.edges) [
    | inl none_left ↦ rw (ready_free queue ns n none_left) (
        ready-IsSplit (queue ++ n ∷ []) ns
          (All-append _ queue (n ∷ []) free (
            record { none_left = outside-nil (deps n.hash) ∙ sym e ∙ none_left; edges = none_left },
            tt,
          ))
          h)
    | inr (x, xs, some_left) ↦
        let rest = ready-IsSplit queue ns free h in
        rw (ready_stuck queue ns n x xs some_left) (record {
          free = rest.free;
          stuck = (
            record { edges = e ∙ sym (outside-nil (deps n.hash)); some_left = λ none_left. cc },
            rest.stuck,
          );
        })
  ]

  -- Each node has all its dependencies among those seen and those before it.
  abbrev pub OrderedFrom : List ℕ → List (Node P) → Type 0
  OrderedFrom seen [] = Unit
  OrderedFrom seen (n ∷ ns) =
      (outside seen (deps n.hash) ≡ []) × OrderedFrom (seen ++ only n.hash) ns

  OrderedFrom-snoc :
      (seen : List ℕ) (ns : List (Node P)) (n : Node P)
      → OrderedFrom seen ns
      → outside (seen ++ hashes ns) (deps n.hash) ≡ []
      → OrderedFrom seen (ns ++ n ∷ [])
  OrderedFrom-snoc seen [] n o e = (rw append-nil at e, tt)
  OrderedFrom-snoc seen (k ∷ ns) n o e = (
    o.0,
    OrderedFrom-snoc (seen ++ only k.hash) ns n o.1
        (rw (append_assoc seen (only k.hash) (hashes ns)) e),
  )

  -- The state of the sort after some rounds, over the nodes of the graph.
  pub record Inv (all : List (Node P)) (sorted : List (Node P)) (w : Work P) : Type ℓ where
    pub split : IsSplit deps (hashes sorted) w
    pub ordered : OrderedFrom [] sorted
    pub same : Permᴰ (sorted ++ (w.queue ++ map bare w.waiting)) (map bare all)

  pub Inv-ready :
      (all : List (Node P)) → All (λ n. n.edges ≡ deps n.hash) all → Inv all [] (ready [] all)
  Inv-ready all h = record {
    split = ready-IsSplit [] all tt h;
    ordered = tt;
    same = ready-perm [] all;
  }

  Inv-round :
      (all sorted queue waiting : List (Node P)) (root : Node P)
      → Inv all sorted (record { queue = root ∷ queue; waiting = waiting })
      → Inv all (sorted ++ root ∷ []) (scan root.hash queue waiting)
  Inv-round all sorted queue waiting root inv =
      let more : hashes (sorted ++ root ∷ []) ≡ hashes sorted ++ only root.hash =
        map-append (λ (n : Node P). n.hash) sorted (root ∷ []) in
      let (root_ready, free) = inv.split.free in
      let rest = round-IsSplit deps (hashes sorted) root queue waiting free inv.split.stuck in
      record {
        split = rw more rest;
        ordered = OrderedFrom-snoc [] sorted root inv.ordered root_ready.none_left;
        same =
            subst (λ l. Permᴰ l (map bare all)) (sym (append_assoc sorted (root ∷ []) _))
              (Permᴰ.trans
                (Permᴰ.append_left sorted (Permᴰ.cons refl (scan-perm root.hash queue waiting)))
                inv.same);
      }

  -- How the loop ends: the queue is empty, and the state is kept.
  pub record Ends (all : List (Node P)) (size fuel count : ℕ) (sorted : List (Node P)) (w : Work P)
      : Type ℓ where
    pub last : List (Node P)
    pub waiting : List (Node P)
    pub inv : Inv all last (record { queue = []; waiting = waiting })
    pub run : rounds size fuel count sorted w ≡ finish size (length last) last

  pub rounds_end :
      (all : List (Node P)) (size fuel count : ℕ) (sorted queue waiting : List (Node P))
      → Inv all sorted (record { queue = queue; waiting = waiting })
      → count ≡ length sorted
      → length queue + length waiting ≤ fuel
      → Ends all size fuel count sorted (record { queue = queue; waiting = waiting })
  unfolding rounds
  rounds_end all size zero count sorted [] waiting inv e le = record {
    last = sorted;
    waiting = waiting;
    inv = inv;
    run = ap (λ k. finish size k sorted) e;
  }
  rounds_end all size zero count sorted (root ∷ queue) waiting inv e le = absurd (omega arith)
  rounds_end all size (suc fuel) count sorted [] waiting inv e le = record {
    last = sorted;
    waiting = waiting;
    inv = inv;
    run = ap (λ k. finish size k sorted) e;
  }
  rounds_end all size (suc fuel) count sorted (root ∷ queue) waiting inv e le =
      let w = scan root.hash queue waiting in
      let rest =
        rounds_end all size fuel (suc count) (sorted ++ root ∷ []) w.queue w.waiting
          (Inv-round all sorted queue waiting root inv)
          (omega (arith, length-append sorted (root ∷ [])))
          (omega (arith, length-scan root.hash queue waiting)) in
      record { last = rest.last; waiting = rest.waiting; inv = rest.inv; run = rest.run }

  ordered_at :
      (before : List (Node P)) (n : Node P) (after : List (Node P)) (seen : List ℕ)
      → OrderedFrom seen (before ++ n ∷ after)
      → outside (seen ++ hashes before) (deps n.hash) ≡ []
  ordered_at [] n after seen o = rw append-nil o.0
  ordered_at (k ∷ before) n after seen o =
      rw (append_assoc seen (only k.hash) (hashes before)) at
        (ordered_at before n after (seen ++ only k.hash) o.1)

  -- Each node stands behind all that it depends on.
  abbrev pub IsOrdered : List (Node P) → Type ℓ
  IsOrdered sorted =
      (before after : List (Node P)) (n : Node P) (d : ℕ)
      → sorted ≡ before ++ n ∷ after
      → member d (deps n.hash) ≡ true
      → member d (hashes before) ≡ true

  pub OrderedFrom-IsOrdered : (sorted : List (Node P)) → OrderedFrom [] sorted → IsOrdered sorted
  OrderedFrom-IsOrdered sorted o before after n d e m =
      outside-member (hashes before) (deps n.hash) d
        (ordered_at before n after [] (subst (OrderedFrom []) e o)) m
