-- ===== src/TimeWheel.antt =====
-- include/time_wheel.h and src/time_wheel.cc: timers in the slots of a wheel, each slot a doubly
-- linked list, over an explicit store of nodes.
-- `k` is the fuel of a loop: its rounds at most. An operation returns the wheel's new state.
pub mod Sweep
pub mod Loop
pub mod Slots
pub mod Agenda
pub mod Tick
pub mod Elapsed
pub mod Add
pub mod Delete
pub mod Destroy
mod Tests
use high_performance_linux_s.Base.{
  ℕ, zero, suc, ◌+◌, ◌-◌, ◌/◌, ◌%◌, ◌≡◌, ◌<◌, ◌≢◌, true, false, List, [], ◌∷◌, some, All, ltb, ◌==◌,
  if◌then◌else◌, ℤ, pos, negsuc,
}
use high_performance_linux_s.Nodes.{
  Ptr, null, node, Store, out_of_fuel, fault, Cmd, pure, ◌>>=◌, ◌>>◌, load, store, set_body,
  set_next, set_prev, free, Fired, clear_prev,
}
use high_performance_linux_s.Nodes.Links.{Cells, has, first, Links}

-- `tw_timer` without its links.
pub record TwTimer : Type 0 where
  pub rotation : ℕ
  pub time_slot : ℕ
  pub cb_func : ℕ
  pub user_data : ℕ

abbrev pub TwCells : Type 0
TwCells = Cells TwTimer

abbrev TwCmd : Type 0 → Type 0
TwCmd = Cmd TwTimer

-- `N` and `SI`
abbrev pub slot_count : ℕ
slot_count = 60

abbrev pub slot_interval : ℕ
slot_interval = 1

pub record TimeWheel : Type 0 where
  pub slots : ℕ → Ptr
  pub cur_slot : ℕ

-- `slots[i]`, and `slots[i] = p` where `slots[i]` has just been read.
unfoldable pub slot : ℕ → TimeWheel → TwCmd Ptr
slot i w = if ltb i slot_count then pure (w.slots i) else (λ h. fault)

unfoldable pub put : ℕ → Ptr → (ℕ → Ptr) → ℕ → Ptr
put i p slots j = if j == i then p else slots j

abbrev pub set_slot : ℕ → Ptr → TimeWheel → TimeWheel
set_slot i p w = record w { slots = put i p w.slots }

-- The constructor.
abbrev pub time_wheel : TimeWheel
time_wheel = record { slots = λ _. null; cur_slot = 0 }

-- The number of ticks of a timeout that is not negative.
unfoldable pub ticks_of : ℕ → ℕ
ticks_of timeout = if ltb timeout slot_interval then 1 else timeout / slot_interval

-- The end of `add_timer`: the timer goes in front of the list of slot `ts`.
unfoldable pub push_front : Ptr → (ts : ℕ) → TimeWheel → TwCmd (Ptr × TimeWheel)
unfolding slot
push_front timer ts w = do
  s ← slot ts w
  if s == null
      then pure (timer, set_slot ts timer w)
      else (do set_next timer s; set_prev s timer; pure (timer, set_slot ts timer w))

-- `add_timer`; `new_timer` is the address that `new` returns.
unfoldable pub add_timer : (new_timer : Ptr) → ℤ → TimeWheel → TwCmd (Ptr × TimeWheel)
unfolding push_front ticks_of
add_timer new_timer (negsuc n) w = pure (null, w)
add_timer new_timer (pos timeout) w =
    let ticks = ticks_of timeout in
    let ts = (w.cur_slot + ticks % slot_count) % slot_count in
    let body : TwTimer = record {
      rotation = ticks / slot_count;
      time_slot = ts;
      cb_func = 0;
      user_data = 0;
    } in
    (do store new_timer (some (node body null null)); push_front new_timer ts w)

-- `timer->prev->next = timer->next;`
-- `if(timer->next != nullptr) timer->next->prev = timer->prev;`
unfoldable pub bypass : Ptr → TwCmd (Unit {0})
bypass timer = do
  t ← load timer
  set_next t.prev t.next
  t' ← load timer
  if t'.next == null then pure tt else set_prev t'.next t'.prev

unfoldable pub delete_timer : Ptr → TimeWheel → TwCmd TimeWheel
unfolding slot bypass
delete_timer timer w = if timer == null then pure w else (do
  t ← load timer
  s ← slot t.body.time_slot w
  if timer == s
      then (do c ← load s; clear_prev c.next; free timer; pure (set_slot t.body.time_slot c.next w))
      else (do bypass timer; free timer; pure w))

-- Calling a null function pointer is undefined.
unfoldable pub run_callback : TwTimer → List Fired → TwCmd (List Fired)
run_callback t log =
    if t.cb_func == 0
    then (λ h. fault)
    else pure (record { callee = t.cb_func; argument = t.user_data } ∷ log)

-- The loop of `tick`; the callbacks that ran are listed, the latest first.
unfoldable pub tick_loop : ℕ → Ptr → TimeWheel → List Fired → TwCmd (TimeWheel × List Fired)
unfolding slot bypass run_callback
tick_loop zero tmp w log = λ h. out_of_fuel
tick_loop (suc k) tmp w log = if tmp == null then pure (w, log) else (do
  t ← load tmp
  if ltb 0 t.body.rotation
      then (do
        set_body tmp (record t.body { rotation = t.body.rotation - 1 })
        t' ← load tmp
        tick_loop k t'.next w log)
      else (do
        log' ← run_callback t.body log
        s ← slot w.cur_slot w
        if tmp == s
            then (do
              t' ← load tmp
              free tmp
              clear_prev t'.next
              tick_loop k t'.next (set_slot w.cur_slot t'.next w) log')
            else (do bypass tmp; t' ← load tmp; free tmp; tick_loop k t'.next w log')))

unfoldable pub tick : ℕ → TimeWheel → TwCmd (TimeWheel × List Fired)
unfolding slot tick_loop
tick k w = do
  tmp ← slot w.cur_slot w
  r ← tick_loop k tmp w []
  pure (record r.0 { cur_slot = (r.0.cur_slot + 1) % slot_count }, r.1)

-- The loops of the destructor: `n` slots are left, from `i` on.
unfoldable pub destroy_slot : ℕ → Ptr → TwCmd (Unit {0})
destroy_slot zero tmp = λ h. out_of_fuel
destroy_slot (suc k) tmp =
    if tmp == null then pure tt else (do t ← load tmp; free tmp; destroy_slot k t.next)

unfoldable pub destroy_slots : (k n i : ℕ) → TimeWheel → TwCmd (Unit {0})
unfolding slot destroy_slot
destroy_slots k zero i w = pure tt
destroy_slots k (suc n) i w = do tmp ← slot i w; destroy_slot k tmp; destroy_slots k n (i + 1) w

unfoldable pub destroy : ℕ → TimeWheel → TwCmd (Unit {0})
unfolding destroy_slots
destroy k w = destroy_slots k slot_count 0 w

-- The wheel's slots stand for the lists `f`: each is linked, they share no node, and a timer stands
-- in the slot that it names.
pub record IsWheel (h : Store TwTimer) (w : TimeWheel) (f : ℕ → TwCells) : Type 0 where
  pub current : w.cur_slot < slot_count
  pub links : (i : ℕ) → i < slot_count → Links h null (f i) null
  pub heads : (i : ℕ) → i < slot_count → w.slots i ≡ first (f i) null
  pub apart :
      (i j : ℕ)
      → i < slot_count
      → j < slot_count
      → i ≢ j
      → (a : Ptr) → has a (f i) ≡ true
      → has a (f j) ≡ false
  pub placed : (i : ℕ) → i < slot_count → All (λ c. c.1.time_slot ≡ i) (f i)
