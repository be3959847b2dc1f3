-- ===== src/Dag/Round.antt =====
-- What a round of the sort keeps.
use mathlib.Core.List.{Permᴰ}
use mathlib.Core.List.Permᴰ
use flecsi.Base.{
  ℕ, suc, ◌+◌, ◌≡◌, ◌≢◌, refl, sym, ap, subst, ◌∙◌, none, some, List, [], ◌∷◌, ◌++◌, arith, length,
  map, Option-cases, inl, inr, append_assoc, length-append,
}
use flecsi.Dag.{Node, Work, keep, scan, settle}
use flecsi.Dag.Settle.{outside, outside-append, only, stays, settle-outside}

abbrev pub All {ℓ κ} : {A : Type ℓ} → (A → Type κ) → List A → Type κ
All Q [] = Unit
All Q (x ∷ xs) = Q x × All Q xs

pub All-append {ℓ κ} :
    {A : Type ℓ} (Q : A → Type κ) (xs ys : List A) → All Q xs → All Q ys → All Q (xs ++ ys)
All-append Q [] ys h k = k
All-append Q (x ∷ xs) ys h k = (h.0, All-append Q xs ys h.1 k)

pub All-imp {ℓ κ μ} :
    {A : Type ℓ} {Q : A → Type κ} {R : A → Type μ} (xs : List A)
    → ((x : A) → Q x → R x)
    → All Q xs
    → All R xs
All-imp [] f h = tt
All-imp (x ∷ xs) f h = (f x h.0, All-imp xs f h.1)

module _ {ℓ} {P : Type ℓ} where
  -- A node as it comes out of the sort.
  unfoldable pub bare : Node P → Node P
  bare n = record n { edges = [] }

  pub length-scan :
      (h : ℕ) (queue ns : List (Node P))
      → length (scan h queue ns).queue + length (scan h queue ns).waiting ≡ length queue + length ns
  unfolding scan keep bare
  length-scan h queue [] = refl
  length-scan h queue (n ∷ ns) = elim (Option-cases (settle (suc (length n.edges)) h n.edges)) [
    | inl gone ↦
        rw (gone, scan)
          (omega
            (arith, length-scan h (queue ++ bare n ∷ []) ns, length-append queue (bare n ∷ [])))
    | inr (es, stay) ↦ rw (stay, scan) (omega (arith, length-scan h queue ns))
  ]

  -- No node is lost or made.
  pub scan-perm :
      (h : ℕ) (queue ns : List (Node P))
      → Permᴰ ((scan h queue ns).queue ++ map bare (scan h queue ns).waiting) (queue ++ map bare ns)
  unfolding scan keep bare
  scan-perm h queue [] = Permᴰ.refl _
  scan-perm h queue (n ∷ ns) = elim (Option-cases (settle (suc (length n.edges)) h n.edges)) [
    | inl gone ↦
        rw (gone, scan)
          (subst (Permᴰ _) (append_assoc queue (bare n ∷ []) (map bare ns))
            (scan-perm h (queue ++ bare n ∷ []) ns))
    | inr (es, stay) ↦
        rw (stay, scan)
          (Permᴰ.trans (Permᴰ.middle (bare n) _ _) (
            Permᴰ.trans (Permᴰ.cons refl (scan-perm h queue ns))
              (Permᴰ.symm (Permᴰ.middle (bare n) queue (map bare ns)))))
  ]

stays-some : (es es' : List ℕ) → stays es ≡ some es' → (es ≡ es') × (es' ≢ [])
unfolding stays
stays-some [] es' h = cc
stays-some (e ∷ es) es' h = ground arith

stays-none : (es : List ℕ) → stays es ≡ none → es ≡ []
unfolding stays
stays-none [] h = refl
stays-none (e ∷ es) h = cc

module _ {ℓ} {P : Type ℓ} (deps : ℕ → List ℕ) where
  -- The node waits for those of its dependencies that are not done, and there are some.
  pub record Waits (finished : List ℕ) (n : Node P) : Type 0 where
    pub edges : n.edges ≡ outside finished (deps n.hash)
    pub some_left : n.edges ≢ []

  -- All dependencies of the node are done.
  pub record IsReady (finished : List ℕ) (n : Node P) : Type 0 where
    pub none_left : outside finished (deps n.hash) ≡ []
    pub edges : n.edges ≡ []

  IsReady-more :
      (finished : List ℕ) (h : ℕ) (n : Node P) → IsReady finished n → IsReady (finished ++ only h) n
  unfolding outside
  IsReady-more finished h n r = record {
    none_left = rw (outside-append finished (only h), r.none_left) refl;
    edges = r.edges;
  }

  -- The state of a round: what is queued is ready, and what waits waits.
  pub record IsSplit (finished : List ℕ) (w : Work P) : Type 0 where
    pub free : All (IsReady finished) w.queue
    pub stuck : All (Waits finished) w.waiting

  IsSplit-keep :
      (finished : List ℕ) (n : Node P) (w : Work P)
      → Waits finished n
      → IsSplit finished w
      → IsSplit finished (keep n w)
  unfolding keep
  IsSplit-keep finished n w h s = record { free = s.free; stuck = (h, s.stuck) }

  pub scan-IsSplit :
      (finished : List ℕ) (h : ℕ) (queue ns : List (Node P))
      → All (IsReady (finished ++ only h)) queue
      → All (Waits finished) ns
      → IsSplit (finished ++ only h) (scan h queue ns)
  unfolding scan
  scan-IsSplit finished h queue [] free stuck = record { free = free; stuck = tt }
  scan-IsSplit finished h queue (n ∷ ns) free (wait, stuck) =
      let settled = settle-outside h n.edges wait.some_left in
      let less : outside (only h) n.edges ≡ outside (finished ++ only h) (deps n.hash) =
        ap (outside (only h)) wait.edges ∙ sym (outside-append finished (only h) (deps n.hash)) in
      elim (Option-cases (settle (suc (length n.edges)) h n.edges)) [
        | inl gone ↦
            let none_left = sym less ∙ stays-none _ (sym settled ∙ gone) in
            rw (gone, scan)
              (scan-IsSplit finished h (queue ++ record n { edges = [] } ∷ []) ns
                (All-append _ queue (record n { edges = [] } ∷ []) free
                  (record { none_left = none_left; edges = refl }, tt))
                stuck)
        | inr (es, stay) ↦
            let (same, ne) = stays-some _ es (sym settled ∙ stay) in
            rw (stay, scan)
              (IsSplit-keep (finished ++ only h) (record n { edges = es }) (scan h queue ns)
                (record { edges = sym same ∙ less; some_left = ne })
                (scan-IsSplit finished h queue ns free stuck))
      ]

  pub round-IsSplit :
      (finished : List ℕ) (root : Node P) (queue waiting : List (Node P))
      → All (IsReady finished) queue
      → All (Waits finished) waiting
      → IsSplit (finished ++ only root.hash) (scan root.hash queue waiting)
  round-IsSplit finished root queue waiting free stuck =
      scan-IsSplit finished root.hash queue waiting
        (All-imp queue (IsReady-more finished root.hash) free) stuck
