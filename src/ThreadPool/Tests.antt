-- ===== src/ThreadPool/Tests.antt =====
-- The pool in a concrete run: client 9 appends the request 7, client 8 destroys the pool; thread 1 is a
-- worker, which takes the request behind that.
use high_performance_linux_s.Base.{
  ℕ, ◌+◌, ◌≡◌, ◌≤◌, ◌++◌, ◌≢◌, ◌↔◌, refl, Bool, true, false, some, [], ◌∷◌, ℤ, pos, arith, ◌==◌,
  length,
}
use high_performance_linux_s.Locker.{built}
use high_performance_linux_s.ThreadPool.{
  ThreadPool, Phases, checking, pushed, posting, outside, deleted, stopped, destroyed, waiting,
  woken, locked, taken, handling, testing, move, Steps, stay, go, append_lock, append_push,
  append_unlock, append_post, destroy_handles, destroy_stop, destroy_members, run_enter, run_wait,
  run_interrupted, run_empty, found_empty, run_lock, run_take, run_unlock, run_process, initial,
  starting, thread_pool, highest,
}
use high_performance_linux_s.ThreadPool.Safety.{holds, reachable-exclusive}
use high_performance_linux_s.ThreadPool.Idle.{reachable-idle}
use high_performance_linux_s.ThreadPool.Totals.{total}
use high_performance_linux_s.ThreadPool.Stock.{owed, failures, empties, reachable-stocked}
use high_performance_linux_s.ThreadPool.Requests.{
  appended, removed, occurrences, in_hand, reachable-accounted,
}
use high_performance_linux_s.ThreadPool.Create.{Launched, thread_pool-built}

abbrev worker : ℕ → Bool
worker t = t == 1

-- The request is appended.
abbrev before : ThreadPool
before = record (initial 5) { work_queue = 7 ∷ [] }

abbrev phases_before : Phases
phases_before = move 9 posting (move 9 pushed (move 9 (checking 7) (starting worker)))

appending : Steps (initial 5) (starting worker) before phases_before
unfolding move
appending =
    go 9 refl (append_lock 7 refl refl)
      (go 9 refl (append_push refl (omega arith)) (go 9 refl (append_unlock refl) stay))

-- The destructor sets `m_stop`; the worker enters its loop.
abbrev between : ThreadPool
between = record before { queue_stat = 1; handles = false; stop = true }

abbrev phases_between : Phases
phases_between = move 1 waiting (move 8 stopped (move 8 deleted (move 9 outside phases_before)))

-- The request is processed, and the members are destroyed.
abbrev after : ThreadPool
after = record (initial 5) { handles = false; stop = true; processed = 7 ∷ []; alive = false }

abbrev phases_after : Phases
phases_after = move 8 destroyed (
    move 1 testing
      (move 1 (handling 7) (move 1 (taken 7) (move 1 locked (move 1 woken phases_between)))))

serving : Steps between phases_between after phases_after
unfolding move
serving = go 1 refl (run_wait 0 refl refl) (
    go 1 refl (run_lock refl refl) (
      go 1 refl (run_take 7 [] refl refl) (
        go 1 refl (run_unlock refl)
          (go 1 refl (run_process refl (omega arith)) (go 8 refl (destroy_members refl) stay)))))

run : Steps (initial 5) (starting worker) after phases_after
unfolding move
run = go 9 refl (append_lock 7 refl refl) (
    go 9 refl (append_push refl (omega arith)) (
      go 9 refl (append_unlock refl) (
        go 9 refl (append_post refl) (
          go 8 refl (destroy_handles refl refl)
            (go 8 refl (destroy_stop refl) (go 1 refl (run_enter refl refl) serving))))))

reachable-exclusive_example :
    ((t u : ℕ) → holds (phases_after t) ≡ true → holds (phases_after u) ≡ true → t ≡ u)
    × (length after.work_queue ≤ after.max_request + 1)
reachable-exclusive_example = reachable-exclusive 5 worker after phases_after run

reachable-idle_example : before.processed ≡ []
reachable-idle_example = reachable-idle 5 worker before phases_before appending refl

-- A worker that is interrupted in its wait, and finds the queue empty.
abbrev idle_phases : Phases
idle_phases = move 1 found_empty (
    move 1 locked
      (move 1 woken (move 1 waiting (move 8 stopped (move 8 deleted (starting worker))))))

abbrev idle : ThreadPool
idle = record (initial 5) { handles = false; stop = true; holder = some 1 }

interrupted : Steps (initial 5) (starting worker) idle idle_phases
unfolding move
interrupted = go 8 refl (destroy_handles refl refl) (
    go 8 refl (destroy_stop refl) (
      go 1 refl (run_enter refl refl) (
        go 1 refl (run_interrupted refl)
          (go 1 refl (run_lock refl refl) (go 1 refl (run_empty refl refl) stay)))))

reachable-stocked_example :
    (length idle.work_queue + failures interrupted
      ≡ idle.queue_stat + total owed idle_phases (highest interrupted) + empties interrupted)
    × (empties interrupted ≤ failures interrupted)
reachable-stocked_example = reachable-stocked 5 worker idle idle_phases interrupted

reachable-accounted_example :
    (appended run ≡ removed run ++ after.work_queue)
    × ((r : ℕ)
        → r ≢ 0
        → occurrences r (removed run)
          ≡ occurrences r after.processed + total (in_hand r) phases_after (highest run))
reachable-accounted_example = reachable-accounted 5 worker after phases_after run

-- Two threads that are created and cannot be detached.
abbrev create : ℕ → ℤ
create i = pos 0

abbrev detach : ℕ → ℤ
detach i = pos 22

thread_pool-built_example :
    ((thread_pool create detach (pos 2) (pos 4)).0 ≡ built) ↔ Launched create detach (pos 2) (pos 4)
thread_pool-built_example = thread_pool-built create detach (pos 2) (pos 4)
