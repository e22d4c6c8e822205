-- ===== src/TimeHeap/Tests.antt =====
-- The heap at concrete timers.
use high_performance_linux_s.Base.{
  ℕ, zero, suc, ◌≡◌, ◌<◌, ◌≤◌, refl, some, none, [], ◌∷◌, All, arith, ◌-◌, ◌/◌,
}
use high_performance_linux_s.Base.Partial.{Defined}
use high_performance_linux_s.TimeHeap.{
  HeapTimer, Timers, TimeHeap, put, add_timer, time_heap, top, pop,
}
use high_performance_linux_s.TimeHeap.Arrays.{one, at, key, IsLive, IsHeap}
use high_performance_linux_s.TimeHeap.Add.{IsInserted, add_timer-IsInserted}
use high_performance_linux_s.TimeHeap.Top.{IsTop, top-IsTop}
use high_performance_linux_s.TimeHeap.Pop.{popped}
use high_performance_linux_s.TimeHeap.Built.{add_timers, times, add_timers-pop}

abbrev timer : ℕ → HeapTimer
timer e = record { expire = e; cb_func = 500; user_data = 600 }

-- Timers at 1, 2 and 3.
abbrev timers : Timers
timers = put (put (put (λ _. none) 1 (some (timer 10))) 2 (some (timer 20))) 3 (some (timer 30))

-- A full heap of two.
abbrev full : TimeHeap
full = record { array = 2 ∷ 3 ∷ []; capacity = 2; cur_size = 2 }

full-IsHeap : IsHeap timers full
unfolding at key put
full-IsHeap = record { room = refl; size = omega arith; alive = alive; order = order }
  where
    alive : (i : ℕ) → i < 2 → IsLive timers (at (2 ∷ 3 ∷ []) i)
    alive zero b = (omega arith, timer 20, refl)
    alive (suc zero) b = (omega arith, timer 30, refl)
    alive (suc (suc i)) b = absurd (omega arith)

    order :
        (i : ℕ)
        → 0 < i
        → i < 2
        → key timers (at (2 ∷ 3 ∷ []) ((i - 1) / 2)) ≤ key timers (at (2 ∷ 3 ∷ []) i)
    order zero p b = absurd (omega arith)
    order (suc zero) p b = omega arith
    order (suc (suc i)) p b = absurd (omega arith)

add_timer-IsInserted_example : Defined (IsInserted timers 1 full) (add_timer timers 1 full)
unfolding put
add_timer-IsInserted_example =
    add_timer-IsInserted timers 1 (omega arith, timer 10, refl) full full-IsHeap (omega arith)

top-IsTop_example : Defined (IsTop timers full) (top full)
top-IsTop_example = top-IsTop timers full full-IsHeap

-- Timers at 1 to 5, in a heap of capacity 6.
abbrev five : Timers
five = put (put timers 4 (some (timer 40))) 5 (some (timer 50))

abbrev five_timers : TimeHeap
five_timers = record { array = 1 ∷ 2 ∷ 3 ∷ 4 ∷ 5 ∷ 0 ∷ []; capacity = 6; cur_size = 5 }

five-IsLive : All (IsLive five) (1 ∷ 2 ∷ 3 ∷ 4 ∷ 5 ∷ [])
unfolding put
five-IsLive = (
  (omega arith, timer 10, refl),
  (
    (omega arith, timer 20, refl),
    (
      (omega arith, timer 30, refl),
      ((omega arith, timer 40, refl), ((omega arith, timer 50, refl), tt)),
    ),
  ),
)

five_different : (q : ℕ) → times q (1 ∷ 2 ∷ 3 ∷ 4 ∷ 5 ∷ []) ≤ 1
unfolding times one
five_different q = ground arith

add_timers-pop_example :
    Defined
      (λ h. IsHeap five h × (pop 2 five h ≡ popped five h 4))
      (add_timers five (1 ∷ 2 ∷ 3 ∷ 4 ∷ 5 ∷ []) (time_heap 3))
add_timers-pop_example =
    add_timers-pop five (1 ∷ 2 ∷ 3 ∷ 4 ∷ 5 ∷ []) 3 0 five-IsLive five_different (omega arith)
      (omega arith)

five_added : add_timers five (1 ∷ 2 ∷ 3 ∷ 4 ∷ 5 ∷ []) (time_heap 3) ≡ some five_timers
unfolding add_timers add_timer put time_heap
five_added = refl

-- After `pop`, the timer of 50 stands above the timer of 40.
disorder :
    popped five five_timers 4
    ≡ some
        (put five 1 none, record { array = 2 ∷ 5 ∷ 3 ∷ 4 ∷ 5 ∷ 0 ∷ []; capacity = 6; cur_size = 4 })
unfolding popped at key put
disorder = refl

-- Of three timers, the last of which expires last, an entry behind them is read.
three_timers : TimeHeap
three_timers = record { array = 1 ∷ 2 ∷ 3 ∷ 0 ∷ []; capacity = 4; cur_size = 3 }

three_timers-fault : pop 2 timers three_timers ≡ none
unfolding pop put three_timers
three_timers-fault = refl
