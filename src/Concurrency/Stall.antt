-- ===== src/Concurrency/Stall.antt =====
-- `interrupt` stores `done_` and notifies without the semaphore's mutex. A thread that has tested
-- the count and does not wait yet is not notified, and `join` then waits for it.
use mathlib.Core.Path.{fun_ext}
use flecsi.Base.{
  ℕ, zero, suc, ◌-◌, ◌≤◌, ◌<◌, ◌≡◌, refl, sym, ◌∙◌, ap, subst, ◌⊎◌, inl, inr, arith, ◌==◌, ltb,
  if◌then◌else◌, true, false, ==_refl,
}
use native.Mathlib.Decide.{ℕ_discrete, dec_lt}
use flecsi.Concurrency.Semaphore.{semaphore, interrupt}
use flecsi.Concurrency.Pool.{
  Pool, Place, Move, new_pool, entering, dozing, waiting, waking, acquired, inside, exited, idle,
  bumping, notifying, reaping, spurious, see_done, see_open, lock_sem, test_low, doze, lock_pool,
  leave, call_join, join_first, close, stop_sem,
}
use flecsi.Concurrency.Family.{put_at}
use flecsi.Concurrency.Schedule.{
  System, Step, pick, notify_one, notify_nobody, notify_all, reap, woken, Reach, start, later,
}

abbrev AtRest : Place → Type 0
AtRest x = (x ≡ waiting) ⊎ (x ≡ exited) ⊎ (x ≡ reaping)

-- Every thread waits on the semaphore, has left `run_`, or is in `join` and waits for the workers,
-- one of which, `j`, waits on the semaphore.
record Stalled (workers threads j : ℕ) (s : System) : Type 0 where
  worker : j < workers
  sleeps : s.place j ≡ waiting
  others : (i : ℕ) → i < threads → AtRest (s.place i)

at_rest : (x y : Place) → AtRest x → x ≡ y → AtRest y
at_rest x y h e = subst AtRest e h

no_release : ¬ (AtRest bumping)
no_release h = ground arith

no_notify : ¬ (AtRest notifying)
no_notify h = ground arith

Move-stalled :
    {p p' : Pool} {from to : Place}
    → Move p from p' to
    → AtRest from
    → (from ≡ waiting) × (to ≡ waking) × (p' ≡ p)
Move-stalled spurious h = (refl, refl, refl)
Move-stalled doze h = ground arith
Move-stalled mv h = ground arith

-- From a stalled state no thread gets on unless the wait returns though nobody notified it: every
-- step is a waiting thread that wakes without reason, and leaves the pool as it was.
Stalled-spurious :
    {workers threads j : ℕ} {s t : System}
    → Stalled workers threads j s
    → Step workers threads s t
    → (i : ℕ) × (s.place i ≡ waiting) × (t.place ≡ put_at i waking s.place) × (t.pool ≡ s.pool)
Stalled-spurious {s = s} h (pick i {to = to} lt mv) =
    let only = Move-stalled mv (h.others i lt) in
    (i, only.0, ap (λ x. put_at i x s.place) only.1, only.2)
Stalled-spurious {s = s} h (notify_one i j lt lt' at_i at_j) =
    absurd (no_release (at_rest (s.place i) bumping (h.others i lt) at_i))
Stalled-spurious {s = s} h (notify_nobody i lt at_i nobody) =
    absurd (no_release (at_rest (s.place i) bumping (h.others i lt) at_i))
Stalled-spurious {s = s} h (notify_all i lt at_i) =
    absurd (no_notify (at_rest (s.place i) notifying (h.others i lt) at_i))
Stalled-spurious {j = j} {s = s} h (reap i lt at_i joined) =
    let clash : waiting ≡ exited = sym h.sleeps ∙ joined j h.worker in ground arith

-- Worker 0 and the client, thread `n`, stand at `a` and `b`; the workers from 1 on that are below
-- `k` have left `run_`, and the others enter `acquire`.
abbrev stand : ℕ → ℕ → Place → Place → ℕ → Place
stand n k a b i =
    if i == 0
    then a
    else if ltb i k
    then exited
    else if ltb i n
    then entering
    else if i == n
    then b
    else idle

abbrev closed_pool : Pool
closed_pool = record new_pool { done = true; sem = interrupt (semaphore 0 0) }

-- `n` workers and one client, who has called `join`: worker 0 waits on the semaphore, the other
-- workers have left `run_`, and the client waits for the workers.
abbrev pub stalled : ℕ → System
stalled n = record { pool = closed_pool; place = stand n n waiting reaping }

module _ (n : ℕ) where
  abbrev Reached : Pool → (ℕ → Place) → Type 0
  Reached p f = Reach n (suc n) (record { pool = p; place = f })

  same_places : {p : Pool} {f g : ℕ → Place} → Reached p f → ((i : ℕ) → f i ≡ g i) → Reached p g
  same_places {p} r e = subst (λ h. Reached p h) (fun_ext e) r

  go :
      {p p' : Pool} {f : ℕ → Place} {from to : Place} (i : ℕ)
      → Reached p f
      → i < suc n
      → f i ≡ from
      → Move p from p' to
      → Reached p' (put_at i to f)
  go {p} {p'} {f} {from} {to} i r lt at mv =
      later r (pick i lt (subst (λ x. Move p x p' to) (sym at) mv))

  worker_goes :
      {p p' : Pool} {a a' : Place} (b : Place)
      → 0 < n
      → Reached p (stand n 1 a b)
      → Move p a p' a'
      → Reached p' (stand n 1 a' b)
  worker_goes b some_worker r mv = same_places (go 0 r (omega arith) refl mv) (λ i. ground arith)

  client_goes :
      {p p' : Pool} (a : Place) {b b' : Place}
      → 0 < n
      → Reached p (stand n 1 a b)
      → Move p b p' b'
      → Reached p' (stand n 1 a b')
  client_goes a some_worker r mv =
      same_places (go n r (omega arith) (ground arith) mv) (λ i. ground arith)

  -- Worker 0 has tested the count and holds the semaphore's mutex, while the client closes the pool.
  client_closes :
      0 < n → Reached (record closed_pool { sem_locked = true }) (stand n 1 dozing notifying)
  client_closes some_worker =
      let begun : Reached new_pool (stand n 1 entering idle) =
        same_places start (λ i. ground arith) in
      let opened = worker_goes idle some_worker begun (see_open refl) in
      let locked = worker_goes idle some_worker opened (lock_sem refl) in
      let tested = worker_goes idle some_worker locked (test_low (omega arith)) in
      let called = client_goes dozing some_worker tested call_join in
      let first = client_goes dozing some_worker called (join_first refl) in
      let closed = client_goes dozing some_worker first close in
      client_goes dozing some_worker closed stop_sem

  -- The notification comes before the wait.
  worker_waits : 0 < n → Reached closed_pool (stand n 1 waiting reaping)
  unfolding woken
  worker_waits some_worker =
      let told : Reached (record closed_pool { sem_locked = true }) (stand n 1 dozing reaping) =
        same_places (later (client_closes some_worker) (notify_all n (omega arith) (ground arith)))
          (λ i. ground arith) in
      worker_goes reaping some_worker told doze

  -- The other workers leave one after the other.
  others_leave : (k : ℕ) → suc k ≤ n → Reached closed_pool (stand n (suc k) waiting reaping)
  others_leave zero le = worker_waits le
  others_leave (suc k) le =
      let before = others_leave k (omega arith) in
      let lt : suc k < suc n = omega arith in
      let here : (x : Place) (f : ℕ → Place) → put_at (suc k) x f (suc k) ≡ x =
        λ x f. rw (==_refl (suc k)) refl in
      let f : ℕ → Place = stand n (suc k) waiting reaping in
      let seen = go (suc k) before lt (ground arith) (see_done refl) in
      let locked = go (suc k) seen lt (here (acquired false) f) (lock_pool refl) in
      let left =
        go (suc k) locked lt (here (inside false) (put_at (suc k) (acquired false) f))
          (leave refl) in
      same_places left (λ i. ground arith)

  stalled-AtRest : (i : ℕ) → i < suc n → AtRest ((stalled n).place i)
  stalled-AtRest i lt = elim (ℕ_discrete i 0) [
    | yes e ↦ inl (ground arith)
    | no ne ↦ elim (dec_lt i n) [
      | yes below ↦ inr (inl (ground arith))
      | no above ↦ inr (inr (ground arith))
    ]
  ]

  only_worker : (i : ℕ) → (stalled n).place i ≡ waiting → i ≡ 0
  only_worker i e = elim (ℕ_discrete i 0) [ yes same ↦ same | no ne ↦ absurd (ground arith) ]

  -- A pool of one or more workers and one client can be left for good: the state in which worker 0
  -- waits on the semaphore, the other workers have left `run_` and the client is in `join`, is
  -- reached from the start, and every step from it is one in which the wait of worker 0 returns
  -- though nobody notified it, with the pool as it was.
  pub stalled-Reach :
      {t : System}
      → 0 < n
      → Step n (suc n) (stalled n) t
      → Reach n (suc n) (stalled n)
        × (t.place ≡ put_at 0 waking (stalled n).place)
        × (t.pool ≡ (stalled n).pool)
  stalled-Reach {t} some_worker step =
      let whole : suc (n - 1) ≡ n = omega arith in
      let at_stall : Stalled n (suc n) 0 (stalled n) = record {
        worker = some_worker;
        sleeps = refl;
        others = λ i lt. stalled-AtRest i lt;
      } in
      let woke = Stalled-spurious {j = 0} at_stall step in
      let zero_woke : woke.0 ≡ 0 = only_worker woke.0 woke.1 in
      (
        subst (λ k. Reached closed_pool (stand n k waiting reaping)) whole
            (others_leave (n - 1) (omega arith)),
        woke.2 ∙ ap (λ i. put_at i waking (stalled n).place) zero_woke,
        woke.3,
      )
