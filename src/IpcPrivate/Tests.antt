-- ===== src/IpcPrivate/Tests.antt =====
-- Runs of the two processes.
use high_performance_linux_s.Base.{◌≤◌, refl, none, some}
use high_performance_linux_s.IpcPrivate.{
  absent, setting, inside, finished, exited, taken, given, failed, set_value, forked, parent_enter,
  parent_leave, child_enter, child_leave, waited, removed, Run, stay, go,
}
use high_performance_linux_s.IpcPrivate.Safety.{IsSound, run-IsSound}

-- The child has the semaphore first.
child_then_parent : Run (some 0) setting absent 8 none finished exited
child_then_parent =
    go
      (go
        (go
          (go
            (go (go (go (go stay set_value) forked) (child_enter (taken 0 refl)))
              (child_leave (given 0 refl)))
            (parent_enter (taken 0 refl)))
          (parent_leave (given 0 refl)))
        waited)
      removed

run-IsSound_example : (8 ≤ 8) × IsSound none finished exited
run-IsSound_example = run-IsSound child_then_parent

-- Without a semaphore set both processes go on as if they had it.
both_inside : Run none setting absent 4 none inside inside
both_inside = go (go (go (go stay set_value) forked) (parent_enter failed)) (child_enter failed)
