-- ===== src/TimeWheel/Tests.antt =====
-- The wheel at concrete stores.
use high_performance_linux_s.Base.{ℕ, ◌<◌, refl, some, none, [], ◌∷◌, arith, pos, length}
use high_performance_linux_s.Nodes.{node, Store, write, null}
use high_performance_linux_s.Nodes.Returns.{Returns}
use high_performance_linux_s.TimeWheel.{
  TwTimer, TwCells, TimeWheel, slot_count, time_wheel, put, add_timer, delete_timer, tick, destroy,
  IsWheel,
}
use high_performance_linux_s.TimeWheel.Slots.{replace, replace-elim, IsWheel-replace}
use high_performance_linux_s.TimeWheel.Tick.{IsAdvance, tick-IsAdvance}
use high_performance_linux_s.Base.{All}
use high_performance_linux_s.TimeWheel.Sweep.{HasCallback}
use high_performance_linux_s.TimeWheel.Elapsed.{ticks, IsElapsed, ticks-IsElapsed}
use high_performance_linux_s.TimeWheel.Add.{time_wheel-IsWheel, IsAdded, add_timer-IsAdded}
use high_performance_linux_s.TimeWheel.Delete.{IsDropped, delete_timer-IsDropped}
use high_performance_linux_s.TimeWheel.Destroy.{AllEmptied, destroy-AllEmptied}

-- Two timers in slot 0, one of which waits for a further turn.
abbrev waiting : TwTimer
waiting = record { rotation = 1; time_slot = 0; cb_func = 500; user_data = 1000 }

abbrev firing : TwTimer
firing = record { rotation = 0; time_slot = 0; cb_func = 500; user_data = 2000 }

abbrev two : Store TwTimer
two = write (write (λ _. none) 1 (some (node waiting 0 2))) 2 (some (node firing 1 0))

abbrev cells : TwCells
cells = (1, waiting) ∷ (2, firing) ∷ []

abbrev no_cells : ℕ → TwCells
no_cells _ = []

abbrev slot_lists : ℕ → TwCells
slot_lists = replace 0 cells no_cells

abbrev wheel : TimeWheel
wheel = record { slots = put 0 1 (λ _. null); cur_slot = 0 }

wheel-IsWheel : IsWheel two wheel slot_lists
unfolding write put
wheel-IsWheel =
    IsWheel-replace two two time_wheel wheel no_cells 0 cells (time_wheel-IsWheel two) (omega arith)
      (omega arith) (refl, omega arith, refl, (refl, omega arith, refl, tt)) refl
      (λ j ne. ground arith) (λ j b ne a i. cc) (λ j b ne a i. refl) (refl, (refl, tt))

tick-IsAdvance_example : Returns (IsAdvance two wheel slot_lists) (tick 3 wheel two)
unfolding replace
tick-IsAdvance_example =
    tick-IsAdvance 3 two wheel slot_lists wheel-IsWheel (omega arith, (omega arith, tt))
      (omega arith)

add_timer-IsAdded_example :
    Returns (IsAdded two 3 (pos 65) wheel slot_lists) (add_timer 3 (pos 65) wheel two)
unfolding write
add_timer-IsAdded_example =
    add_timer-IsAdded two 3 (pos 65) wheel slot_lists wheel-IsWheel (omega arith) refl

delete_timer-IsDropped_example :
    Returns
      (IsDropped two wheel slot_lists 2 firing ((1, waiting) ∷ []) [])
      (delete_timer 2 wheel two)
unfolding replace
delete_timer-IsDropped_example =
    delete_timer-IsDropped two wheel slot_lists 2 firing ((1, waiting) ∷ []) [] wheel-IsWheel
      (omega arith) refl

lengths : (i : ℕ) → i < slot_count → length (slot_lists i) < 3
lengths =
    replace-elim (λ j ys. j < slot_count → length ys < 3) 0 cells no_cells (λ _. omega arith)
      λ j ne b. omega arith

destroy-AllEmptied_example : Returns (λ _ g. AllEmptied two slot_lists 0 g) (destroy 3 wheel two)
destroy-AllEmptied_example = destroy-AllEmptied 3 two wheel slot_lists wheel-IsWheel lengths

callbacks : (i : ℕ) → i < slot_count → All HasCallback (slot_lists i)
callbacks =
    replace-elim (λ j ys. j < slot_count → All HasCallback ys) 0 cells no_cells
      (λ _. (omega arith, (omega arith, tt))) λ j ne b. tt

-- A turn of the wheel and one tick: both timers have fired.
ticks-IsElapsed_example : Returns (IsElapsed 61 wheel slot_lists) (ticks 61 3 wheel two)
ticks-IsElapsed_example = ticks-IsElapsed 3 two wheel slot_lists wheel-IsWheel callbacks lengths 61
