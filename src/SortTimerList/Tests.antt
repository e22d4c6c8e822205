-- ===== src/SortTimerList/Tests.antt =====
-- The timer list at concrete stores.
use high_performance_linux_s.Base.{ℕ, ◌+◌, ◌≡◌, refl, some, none, [], ◌∷◌, arith}
use high_performance_linux_s.Nodes.{node, Store, fault, write, load, set_next, set_prev, free}
use high_performance_linux_s.Nodes.Returns.{Returns}
use high_performance_linux_s.SortTimerList.{
  UtilTimer, TimerCells, ends, add_timer, adjust_timer, delete_timer, tick, destroy, IsList,
}
use high_performance_linux_s.SortTimerList.Remove.{IsDeletion, delete_timer-IsDeletion}
use high_performance_linux_s.SortTimerList.Destroy.{Destroyed, destroy_lem}
use high_performance_linux_s.SortTimerList.Order.{insert}
use high_performance_linux_s.SortTimerList.Sweep.{due, later, fired}
use high_performance_linux_s.SortTimerList.Client.{
  Op, add, postpone, delete, sweep, run, adds, postpones, deletes, sweeps, History, over, next,
  IsRun, run-History,
}
use high_performance_linux_s.Base.{inl, List}
use high_performance_linux_s.SortTimerList.Sorted.{
  IsSortedList, IsSweep, add_timer-IsSortedList, adjust_timer-IsSortedList, tick-IsSweep,
}

abbrev timer : ℕ → UtilTimer
timer e = record { expire = e; cb_func = 500; user_data = e + 1000 }

-- Timers at 1, 2 and 3 in the list, and a fresh one at 4.
abbrev three : Store UtilTimer
three =
    write
      (write
        (write (write (λ _. none) 1 (some (node (timer 10) 0 2))) 2 (some (node (timer 20) 1 3))) 3
        (some (node (timer 30) 2 0)))
      4 (some (node (timer 20) 0 0))

abbrev cells : TimerCells
cells = (1, timer 10) ∷ (2, timer 20) ∷ (3, timer 30) ∷ []

three-IsList : IsList three (ends 1 3) cells
unfolding write
three-IsList = record {
  links = (refl, omega arith, refl, (refl, omega arith, refl, (refl, omega arith, refl, tt)));
  head = refl;
  tail = λ _. refl;
}

add_timer-IsSortedList_example :
    Returns
      (IsSortedList three ((4, timer 20) ∷ cells) ((4, timer 20) ∷ cells))
      (add_timer 3 4 (ends 1 3) three)
unfolding write
add_timer-IsSortedList_example =
    add_timer-IsSortedList 3 three (ends 1 3) 4 (timer 20) cells (omega arith) refl refl
      three-IsList (omega arith) (omega arith)

-- The head's expiry has been raised from 5 to 25.
abbrev raised : Store UtilTimer
raised = write three 1 (some (node (timer 25) 0 2))

abbrev raised_cells : TimerCells
raised_cells = (1, timer 25) ∷ (2, timer 20) ∷ (3, timer 30) ∷ []

raised-IsList : IsList raised (ends 1 3) raised_cells
unfolding write
raised-IsList = record {
  links = (refl, omega arith, refl, (refl, omega arith, refl, (refl, omega arith, refl, tt)));
  head = refl;
  tail = λ _. refl;
}

adjust_timer-IsSortedList_example :
    Returns (IsSortedList raised raised_cells raised_cells) (adjust_timer 2 1 (ends 1 3) raised)
adjust_timer-IsSortedList_example =
    adjust_timer-IsSortedList 2 raised (ends 1 3) 1 (timer 5) (timer 25) []
      ((2, timer 20) ∷ (3, timer 30) ∷ []) raised-IsList (omega arith) (omega arith) (omega arith)

delete_timer-IsDeletion_example :
    IsDeletion three 2
      (timer 20)
      ((1, timer 10) ∷ [])
      ((3, timer 30) ∷ [])
      (delete_timer 2 (ends 1 3) three)
delete_timer-IsDeletion_example =
    delete_timer-IsDeletion three (ends 1 3) 2 (timer 20) ((1, timer 10) ∷ []) ((3, timer 30) ∷ [])
      three-IsList

tick-IsSweep_example : Returns (IsSweep three 20 cells) (tick 4 20 (ends 1 3) three)
tick-IsSweep_example =
    tick-IsSweep 4 20 three (ends 1 3) cells three-IsList (omega arith) (omega arith) (omega arith)

destroy_lem_example : Returns (λ _ g. Destroyed three cells g) (destroy 4 (ends 1 3) three)
destroy_lem_example = destroy_lem 4 three (ends 1 3) cells three-IsList (omega arith)

-- The same operations, run.
delete_timer_run : delete_timer 3 (ends 1 3) three ≡ fault
unfolding delete_timer write load set_next set_prev free
delete_timer_run = refl

-- Three timers are added, the first is postponed, the second of the others deleted, and one runs.
abbrev ops : List Op
ops =
    add 1 (timer 10)
    ∷ add 2 (timer 20)
    ∷ add 3 (timer 15)
    ∷ postpone 1 30
    ∷ delete 3
    ∷ sweep 20
    ∷ []

abbrev postponed : UtilTimer
postponed = record (timer 10) { expire = 30 }

ops-History : History ops [] ((1, postponed) ∷ []) (record { callee = 500; argument = 1020 } ∷ [])
unfolding insert due later fired
ops-History = next (adds (omega arith) refl (omega arith)) (
    next (adds (omega arith) refl (omega arith)) (
      next (adds (omega arith) refl (omega arith)) (
        next (postpones (timer 10) [] ((3, timer 15) ∷ (2, timer 20) ∷ []) (omega arith)) (
          next (deletes (timer 15) [] ((2, timer 20) ∷ (1, postponed) ∷ []) (inl refl))
            (next sweeps over)))))

run-History_example :
    Returns
      (IsRun ((1, postponed) ∷ []) (record { callee = 500; argument = 1020 } ∷ []))
      (run 7 ops (ends 0 0) (λ _. none))
run-History_example =
    run-History 7 ops-History (λ _. none) (ends 0 0)
      (record {
        list = record { links = tt; head = refl; tail = λ ne. absurd (ne refl) };
        sorted = tt;
        callbacks = tt;
      })
      (omega arith)
