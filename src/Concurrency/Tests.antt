-- ===== src/Concurrency/Tests.antt =====
-- Schedules of small pools, evaluated.
use flecsi.Base.{ℕ, zero, suc, ◌<◌, ◌≤◌, ◌≡◌, refl, true, List, [], ◌∷◌, arith, ◌++◌}
use flecsi.Concurrency.Semaphore.{
  semaphore, increment, interrupt, Call, call_try_acquire, call_release, call_interrupt,
  perform_all, perform, try_acquire,
}
use flecsi.Concurrency.Counts.{perform_all-Bounded}
use flecsi.Concurrency.Family.{put_at}
use flecsi.Concurrency.Pool.{
  Place, locking, testing, dozing, waiting, waking, acquired, inside, taking, idle, queueing,
  emplacing, releasing, bumping, new_pool, spurious, see_open, lock_sem, test_low, test_high, doze,
  lock_pool, stay, call_queue, lock_queue, push_task, lock_release,
}
use flecsi.Concurrency.Schedule.{
  System, pick, notify_nobody, notify_one, Reach, start, later, started_pool,
}
use flecsi.Concurrency.Safety.{taking-nonempty, tasks_in_order, release-alert}
use flecsi.Concurrency.Weights.{alert}
use flecsi.Concurrency.Stall.{stalled, stalled-Reach}

-- a semaphore with the bound 2 released three times, acquired once, interrupted, and acquired
abbrev calls : List Call
calls =
    call_release ∷ call_release ∷ call_release ∷ call_try_acquire ∷ call_interrupt
    ∷ call_try_acquire ∷ []

calls_end : perform_all calls (semaphore 0 2) ≡ interrupt (semaphore 1 2)
unfolding perform_all perform increment try_acquire
calls_end = refl

perform_all-Bounded_example :
    ((perform_all calls (semaphore 0 2)).max_count ≡ 2)
    × ((perform_all calls (semaphore 0 2)).count ≤ 2)
perform_all-Bounded_example = perform_all-Bounded calls (semaphore 0 2) (omega arith, omega arith)

abbrev queued : ℕ → Place
queued =
    put_at 1 bumping
      (put_at 1 releasing (put_at 1 (emplacing 7) (put_at 1 (queueing 7) (started_pool 1).place)))

nobody_waits : (j : ℕ) → j < 2 → ¬ (queued j ≡ waiting)
nobody_waits zero lt e = ground arith
nobody_waits (suc zero) lt e = ground arith
nobody_waits (suc (suc j)) lt e = absurd (omega arith)

-- Two workers and a client; the wait of the first worker returns for no reason.
stalled-Reach_example :
    Reach 2 3 (stalled 2)
    × (put_at 0 waking (stalled 2).place ≡ put_at 0 waking (stalled 2).place)
    × ((stalled 2).pool ≡ (stalled 2).pool)
stalled-Reach_example = stalled-Reach 2 (omega arith) (pick 0 (omega arith) spurious)

-- One worker and a client, who queues the callable 7; the worker is about to take it.
abbrev busy : System
busy = record {
  pool = record new_pool { tasks = 7 ∷ []; locked = true; submitted = 7 ∷ [] };
  place = put_at 0 (taking true) (
      put_at 0 (inside true) (
        put_at 0 (acquired true) (
          put_at 0 testing (
            put_at 0 locking (
              put_at 1 idle (
                put_at 1 bumping (
                  put_at 1 releasing (
                    put_at 1 (emplacing 7) (put_at 1 (queueing 7) ((started_pool 1).place))))))))));
}

busy-Reach : Reach 1 2 busy
unfolding increment
busy-Reach =
    later
      (later
        (later
          (later
            (later
              (later
                (later
                  (later
                    (later (later start (pick 1 (omega arith) call_queue))
                      (pick 1 (omega arith) (lock_queue refl)))
                    (pick 1 (omega arith) push_task))
                  (pick 1 (omega arith) (lock_release refl)))
                (notify_nobody 1 (omega arith) refl nobody_waits))
              (pick 0 (omega arith) (see_open refl)))
            (pick 0 (omega arith) (lock_sem refl)))
          (pick 0 (omega arith) (test_high (omega arith))))
        (pick 0 (omega arith) (lock_pool refl)))
      (pick 0 (omega arith) (stay refl))

taking-nonempty_example :
    (true ≡ true) × (task : ℕ) × (rest : List ℕ) × (busy.pool.tasks ≡ task ∷ rest)
taking-nonempty_example = taking-nonempty busy-Reach 0 (omega arith) true refl

tasks_in_order_example : busy.pool.started ++ busy.pool.tasks ≡ busy.pool.submitted
tasks_in_order_example = tasks_in_order busy-Reach

-- Two workers that wait, and a client whose release notifies the first.
abbrev roused : System
roused = record {
  pool = record new_pool { tasks = 7 ∷ []; submitted = 7 ∷ []; sem = semaphore 1 0 };
  place = put_at 2 idle (
      put_at 0 waking (
        put_at 2 bumping (
          put_at 2 releasing (
            put_at 2 (emplacing 7) (
              put_at 2 (queueing 7) (
                put_at 1 waiting (
                  put_at 1 dozing (
                    put_at 1 testing (
                      put_at 1 locking (
                        put_at 0 waiting (
                          put_at 0 dozing (
                            put_at 0 testing
                              (put_at 0 locking ((started_pool 2).place))))))))))))));
}

roused-Reach : Reach 2 3 roused
unfolding increment
roused-Reach =
    later
      (later
        (later
          (later
            (later
              (later
                (later
                  (later
                    (later
                      (later
                        (later
                          (later (later start (pick 0 (omega arith) (see_open refl)))
                            (pick 0 (omega arith) (lock_sem refl)))
                          (pick 0 (omega arith) (test_low (omega arith))))
                        (pick 0 (omega arith) doze))
                      (pick 1 (omega arith) (see_open refl)))
                    (pick 1 (omega arith) (lock_sem refl)))
                  (pick 1 (omega arith) (test_low (omega arith))))
                (pick 1 (omega arith) doze))
              (pick 2 (omega arith) call_queue))
            (pick 2 (omega arith) (lock_queue refl)))
          (pick 2 (omega arith) push_task))
        (pick 2 (omega arith) (lock_release refl)))
      (notify_one 2 0 (omega arith) (omega arith) refl refl)

release-alert_example : (j : ℕ) × (j < 3) × (0 < alert (roused.place j))
release-alert_example = release-alert roused-Reach refl (omega arith) 1 (omega arith) refl
