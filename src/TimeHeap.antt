-- ===== src/TimeHeap.antt =====
-- include/time_heap.h and src/time_heap.cc: timers in a binary heap, an array of pointers.
-- `none` is undefined behaviour: an access outside the array, or through a pointer that is null or
-- freed; for a loop on fuel (`k` rounds at most) also that the fuel is used up.
pub mod Arrays
pub mod Rise
pub mod Add
pub mod Top
pub mod Faults
pub mod Sink
pub mod Pop
pub mod Built
mod Tests
use high_performance_linux_s.Base.{
  ℕ, zero, suc, ◌+◌, ◌-◌, ◌*◌, ◌/◌, Bool, true, false, ◌&&◌, ◌||◌, Option, none, some, List, [],
  ◌∷◌, ltb, leb, ◌==◌, if◌then◌else◌, length, get_elem?, set, replicate,
}
use high_performance_linux_s.Base.Partial.{◌>>=◌}
use high_performance_linux_s.Nodes.{Ptr, null, Fired}

-- `heap_timer`; a callback that is null is 0.
pub record HeapTimer : Type 0 where
  pub expire : ℕ
  pub cb_func : ℕ
  pub user_data : ℕ

-- The live timers at their addresses.
abbrev pub Timers : Type 0
Timers = Ptr → Option HeapTimer

pub record TimeHeap : Type 0 where
  pub array : List Ptr
  pub capacity : ℕ
  pub cur_size : ℕ

-- `*p`, `delete p`, and the two kinds of access to the array.
unfoldable pub load : Timers → Ptr → Option HeapTimer
load ts p = if p == null then none else ts p

unfoldable pub put : Timers → Ptr → Option HeapTimer → Timers
put ts p c a = if a == p then c else ts a

unfoldable pub free : Timers → Ptr → Option Timers
unfolding load
free ts p = do _ ← load ts p; some (put ts p none)

unfoldable pub write : List Ptr → ℕ → Ptr → Option (List Ptr)
write a i p = if ltb i (length a) then some (set a i p) else none

-- `array[i]->expire`
unfoldable pub expire_at : Timers → List Ptr → ℕ → Option ℕ
unfolding load
expire_at ts a i = do p ← get_elem? a i; t ← load ts p; some t.expire

-- The loop that copies `n` pointers, from index `i` on.
unfoldable pub copy_loop : (n i : ℕ) → (source target : List Ptr) → Option (List Ptr)
unfolding write
copy_loop zero i source target = some target
copy_loop (suc n) i source target = do
  p ← get_elem? source i
  target' ← write target i p
  copy_loop n (i + 1) source target'

-- `resize`
unfoldable pub resize : TimeHeap → Option TimeHeap
unfolding copy_loop
resize h = do
  tmp ← copy_loop h.cur_size 0 h.array (replicate (h.capacity * 2) null)
  some (record { array = tmp; capacity = h.capacity * 2; cur_size = h.cur_size })

-- The loop of `add_timer`: the array, and the place of the hole.
unfoldable pub rise : ℕ → Timers → Ptr → List Ptr → (hole : ℕ) → Option (List Ptr × ℕ)
unfolding expire_at load write
rise zero ts timer a hole = if hole == 0 then some (a, hole) else none
rise (suc k) ts timer a hole = if hole == 0 then some (a, hole) else (do
  e ← expire_at ts a ((hole - 1) / 2)
  t ← load ts timer
  if leb e t.expire then some (a, hole) else (do
    p ← get_elem? a ((hole - 1) / 2)
    a' ← write a hole p
    rise k ts timer a' ((hole - 1) / 2)))

-- The part of `add_timer` behind the resizing.
unfoldable pub place : Timers → Ptr → TimeHeap → Option TimeHeap
unfolding rise write
place ts timer h = do
  (a, hole) ← rise h.cur_size ts timer h.array h.cur_size
  a' ← write a hole timer
  some (record h { array = a'; cur_size = h.cur_size + 1 })

unfoldable pub add_timer : Timers → Ptr → TimeHeap → Option TimeHeap
unfolding place resize
add_timer ts timer h =
    if timer == null
    then some h
    else if leb h.capacity h.cur_size
    then (do h' ← resize h; place ts timer h')
    else place ts timer h

-- `delete_timer` clears the callback; the timer stays in the heap.
unfoldable pub delete_timer : Timers → Ptr → Option Timers
unfolding load put
delete_timer ts timer =
    if timer == null
    then some ts
    else (do t ← load ts timer; some (put ts timer (some (record t { cb_func = 0 }))))

unfoldable pub empty : TimeHeap → Bool
empty h = h.cur_size == 0

unfoldable pub top : TimeHeap → Option Ptr
unfolding empty
top h = if empty h then some null else get_elem? h.array 0

-- The first condition of the loop's body: `child <= cur_size - 1 && array[child + 1]->expire < ...`.
unfoldable pub take_right : Timers → List Ptr → (n child : ℕ) → Option Bool
unfolding expire_at
take_right ts a n child =
    if ltb child n
    then (do right ← expire_at ts a (child + 1); left ← expire_at ts a child; some (ltb right left))
    else some false

-- The loop of `percolate_down`. Its condition is `(hole << 1) | (1 <= cur_size)`.
unfoldable pub sink : ℕ → Timers → (n : ℕ) → List Ptr → (hole : ℕ) → Option (List Ptr × ℕ)
unfolding take_right expire_at write
sink zero ts n a hole = none
sink (suc k) ts n a hole =
    if (ltb 0 (hole * 2)) || (leb 1 n)
    then (do
      right ← take_right ts a n (hole * 2 + 1)
      let child : ℕ = if right then hole * 2 + 2 else hole * 2 + 1
      e ← expire_at ts a hole
      c ← expire_at ts a child
      if ltb c e
          then (do p ← get_elem? a child; a' ← write a hole p; sink k ts n a' child)
          else some (a, hole))
    else some (a, hole)

unfoldable pub percolate_down : ℕ → Timers → TimeHeap → ℕ → Option TimeHeap
unfolding sink write
percolate_down k ts h hole = do
  tmp ← get_elem? h.array hole
  (a, end) ← sink k ts h.cur_size h.array hole
  a' ← write a end tmp
  some (record h { array = a' })

unfoldable pub pop : ℕ → Timers → TimeHeap → Option (Timers × TimeHeap)
unfolding empty percolate_down free write
pop k ts h = if empty h then some (ts, h) else (do
  first ← get_elem? h.array 0
  if first == null then some (ts, h) else (do
    ts' ← free ts first
    last ← get_elem? h.array (h.cur_size - 1)
    a ← write h.array 0 last
    h' ← percolate_down k ts' (record h { array = a; cur_size = h.cur_size - 1 }) 0
    some (ts', h')))

-- The loop of `tick`; `cur` is what `time(nullptr)` returned, and the latest callback stands first.
unfoldable pub tick_loop :
    ℕ
    → (cur : ℕ) → (tmp : Ptr) → Timers
    → TimeHeap
    → List Fired
    → Option (Timers × TimeHeap × List Fired)
unfolding empty pop load
tick_loop zero cur tmp ts h log = none
tick_loop (suc k) cur tmp ts h log = if empty h || (tmp == null) then some (ts, h, log) else (do
  t ← load ts tmp
  if ltb cur t.expire then some (ts, h, log) else (do
    first ← get_elem? h.array 0
    f ← load ts first
    let log' : List Fired =
        if f.cb_func == 0 then log else record { callee = f.cb_func; argument = f.user_data } ∷ log
    (ts', h') ← pop (suc k) ts h
    tmp' ← get_elem? h'.array 0
    tick_loop k cur tmp' ts' h' log'))

unfoldable pub tick : ℕ → (cur : ℕ) → Timers → TimeHeap → Option (Timers × TimeHeap × List Fired)
unfolding tick_loop
tick k cur ts h = do tmp ← get_elem? h.array 0; tick_loop k cur tmp ts h []

-- `time_heap(cap)`
unfoldable pub time_heap : ℕ → TimeHeap
time_heap cap = record { array = replicate cap null; capacity = cap; cur_size = 0 }

-- A constructor may throw.
pub data Made : Type 0 where
  thrown : Made
  made : TimeHeap → Made

-- The loop `for(int i = (cur_size - 1) >> 1; i > 0; i--) percolate_down(i);`
unfoldable pub heapify : ℕ → Timers → TimeHeap → (i : ℕ) → Option TimeHeap
unfolding percolate_down
heapify k ts h zero = some h
heapify k ts h (suc i) = do h' ← percolate_down k ts h (suc i); heapify k ts h' i

-- `time_heap(init_array, size, cap)`
unfoldable pub time_heap_from : ℕ → Timers → (init_array : List Ptr) → (size cap : ℕ) → Option Made
unfolding copy_loop heapify
time_heap_from k ts init_array size cap = if ltb size cap then some thrown else (do
  a ← copy_loop size 0 init_array (replicate cap null)
  h ← heapify k ts (record { array = a; capacity = cap; cur_size = size }) ((size - 1) / 2)
  some (made h))

-- The destructor: `n` timers are left, from index `i` on.
unfoldable pub destroy_loop : (n i : ℕ) → Timers → List Ptr → Option Timers
unfolding free
destroy_loop zero i ts a = some ts
destroy_loop (suc n) i ts a = do
  p ← get_elem? a i
  ts' ← if p == null then some ts else free ts p
  destroy_loop n (i + 1) ts' a

unfoldable pub destroy : Timers → TimeHeap → Option Timers
unfolding destroy_loop
destroy ts h = destroy_loop h.cur_size 0 ts h.array
