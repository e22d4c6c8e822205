-- ===== src/SortTimerList.antt =====
-- include/sort_timer_list.h and src/sort_timer_list.cc: timers in a doubly linked list, kept in
-- ascending order of expiry, over an explicit store of nodes.
-- `k` is the fuel of a loop: its rounds at most. An operation returns the list's new ends.
pub mod Order
pub mod Insert
pub mod Adjust
pub mod Remove
pub mod Destroy
pub mod Sweep
pub mod Sorted
pub mod Client
mod Tests
use mathlib.Core.Path.{subst}
use high_performance_linux_s.Base.{
  ℕ, zero, suc, ◌≡◌, ◌≢◌, sym, Bool, List, [], ◌∷◌, ltb, ◌==◌, if◌then◌else◌, ◌&&◌,
}
use high_performance_linux_s.Nodes.{
  Ptr, null, Node, Store, Run, out_of_fuel, fault, Cmd, pure, ◌>>=◌, ◌>>◌, load, set_next, set_prev,
  free, Fired, clear_prev,
}
use high_performance_linux_s.Nodes.Links.{Cells, first, last, Links}

-- `util_timer` without its links: `time_t` counts the seconds since the epoch; the callback and its
-- argument are addresses, and a callback that was never set is 0.
pub record UtilTimer : Type 0 where
  pub expire : ℕ
  pub cb_func : ℕ
  pub user_data : ℕ

abbrev pub TimerCells : Type 0
TimerCells = Cells UtilTimer

pub record TimerList : Type 0 where
  pub head : Ptr
  pub tail : Ptr

abbrev pub ends : Ptr → Ptr → TimerList
ends hd tl = record { head = hd; tail = tl }

abbrev TimerCmd : Type 0 → Type 0
TimerCmd = Cmd UtilTimer

-- The loop of the private `add_timer`, and the write behind it where it ran off the end.
add_loop : ℕ → (timer prev tmp : Ptr) → TimerList → TimerCmd TimerList
add_loop zero timer prev tmp l = λ h. out_of_fuel
add_loop (suc k) timer prev tmp l =
    if tmp == null
    then (do
      set_next prev timer
      set_prev timer prev
      set_next timer null
      pure (record l { tail = timer }))
    else (do
      t ← load timer
      c ← load tmp
      if ltb t.body.expire c.body.expire
          then (do
            set_next prev timer
            set_next timer tmp
            set_prev tmp timer
            set_prev timer prev
            pure l)
          else add_loop k timer tmp c.next l)

-- `add_timer(timer, list_head)`
pub add_timer_after : ℕ → (timer list_head : Ptr) → TimerList → TimerCmd TimerList
unfolding add_loop
add_timer_after k timer list_head l = do p ← load list_head; add_loop k timer list_head p.next l

-- `add_timer(timer)`
pub add_timer : ℕ → Ptr → TimerList → TimerCmd TimerList
add_timer k timer l =
    if timer == null
    then pure l
    else if l.head == null
    then pure (record { head = timer; tail = timer })
    else (do
      t ← load timer
      c ← load l.head
      if ltb t.body.expire c.body.expire
          then (do set_next timer l.head; set_prev l.head timer; pure (record l { head = timer }))
          else add_timer_after k timer l.head l)

-- The part of `adjust_timer` behind its early returns: `tmp` is the timer's successor.
reposition : ℕ → (timer tmp : Ptr) → TimerList → TimerCmd TimerList
reposition k timer tmp l =
    if timer == l.head
    then (do
      c ← load l.head
      set_prev c.next null
      set_next timer null
      add_timer_after k timer c.next (record l { head = c.next }))
    else (do
      t ← load timer
      set_next t.prev t.next
      t' ← load timer
      set_prev t'.next t'.prev
      t'' ← load timer
      add_timer_after k timer t''.next l)

pub adjust_timer : ℕ → Ptr → TimerList → TimerCmd TimerList
unfolding reposition
adjust_timer k timer l = if timer == null then pure l else do
  t ← load timer
  if t.next == null then pure l else (do
    c ← load t.next
    if ltb t.body.expire c.body.expire then pure l else reposition k timer t.next l)

-- The last three statements of `delete_timer`.
unlink : Ptr → TimerList → TimerCmd TimerList
unlink timer l = do
  t ← load timer
  set_next t.prev t.next
  t' ← load timer
  set_prev t'.next t'.prev
  free timer
  pure l

pub delete_timer : Ptr → TimerList → TimerCmd TimerList
unfolding unlink
delete_timer timer l =
    if timer == null
    then pure l
    else if (timer == l.head) && (timer == l.tail)
    then (do free timer; pure (record { head = null; tail = null }))
    else if timer == l.head
    then (do c ← load l.head; set_prev c.next null; free timer; pure (record l { head = c.next }))
    else if timer == l.tail
    then (do
      c ← load l.tail
      set_next c.prev null
      free timer
      unlink timer (record l { tail = c.prev }))
    else unlink timer l

-- Calling a null function pointer is undefined.
call : UtilTimer → List Fired → TimerCmd (List Fired)
call t log =
    if t.cb_func == 0
    then (λ h. fault)
    else pure (record { callee = t.cb_func; argument = t.user_data } ∷ log)

-- The loop of `tick`; the callbacks that ran are listed, the latest first.
tick_loop : ℕ → (cur : ℕ) → (tmp : Ptr) → TimerList → List Fired → TimerCmd (TimerList × List Fired)
unfolding call
tick_loop zero cur tmp l log = λ h. out_of_fuel
tick_loop (suc k) cur tmp l log = if tmp == null then pure (l, log) else (do
  t ← load tmp
  if ltb cur t.body.expire then pure (l, log) else (do
    log' ← call t.body log
    t' ← load tmp
    clear_prev t'.next
    free tmp
    tick_loop k cur t'.next (record l { head = t'.next }) log'))

-- `cur` is what `time(nullptr)` returns.
pub tick : ℕ → ℕ → TimerList → TimerCmd (TimerList × List Fired)
unfolding tick_loop
tick k cur l = if l.head == null then pure (l, []) else tick_loop k cur l.head l []

-- `~sort_timer_list`
destroy_loop : ℕ → Ptr → TimerCmd (Unit {0})
destroy_loop zero tmp = λ h. out_of_fuel
destroy_loop (suc k) tmp =
    if tmp == null then pure tt else (do t ← load tmp; free tmp; destroy_loop k t.next)

pub destroy : ℕ → TimerList → TimerCmd (Unit {0})
unfolding destroy_loop
destroy k l = destroy_loop k l.head

-- The list stands for `xs`. An empty list may have a stale `tail`, which no operation reads.
pub record IsList (h : Store UtilTimer) (l : TimerList) (xs : TimerCells) : Type 0 where
  pub links : Links h null xs null
  pub head : l.head ≡ first xs null
  pub tail : xs ≢ [] → l.tail ≡ last null xs

-- What holds of a list whose head is written out holds of the list.
pub at_head :
    (P : TimerList → Type 0) (l : TimerList) (q : Ptr) → l.head ≡ q → P (ends q l.tail) → P l
at_head P l q e p = subst (λ (x : Ptr). P (ends x l.tail)) (sym e) p
