-- ===== src/ThreadPool/Stock.antt =====
-- What the semaphore counts, and how often a worker finds the queue empty.
use high_performance_linux_s.Base.{
  ℕ, ◌+◌, ◌≡◌, refl, ap, ◌≤◌, ◌<◌, Bool, List, [], ◌∷◌, arith, length, length-append,
}
use high_performance_linux_s.ThreadPool.{
  ThreadPool, Phase, Phases, outside, checking, refusing, pushed, posting, deleted, stopped,
  destroyed, testing, waiting, woken, locked, found_empty, taken, handling, finished, move, Step,
  append_lock, append_refuse, append_false, append_push, append_unlock, append_post,
  destroy_handles, destroy_stop, destroy_members, run_leave, run_enter, run_wait, run_interrupted,
  run_lock, run_empty, run_again, run_take, run_unlock, run_null, run_process, Steps, stay, go,
  highest, initial, starting,
}
use high_performance_linux_s.ThreadPool.Totals.{total, total-move, total-least, total-starting}

-- The threads that have yet to post, and those that have come through `wait` and are about to look for a
-- request.
unfoldable pub owed : Phase → ℕ
owed pushed = 1
owed posting = 1
owed woken = 1
owed locked = 1
owed _ = 0

-- Whether a step is a `wait` that fails, and whether it finds the queue empty.
unfoldable pub failed_by : {t : ℕ} {s s' : ThreadPool} {ps ps' : Phases} → Step t s ps s' ps' → ℕ
failed_by (run_interrupted at) = 1
failed_by _ = 0

unfoldable pub empty_by : {t : ℕ} {s s' : ThreadPool} {ps ps' : Phases} → Step t s ps s' ps' → ℕ
empty_by (run_empty at no_request) = 1
empty_by _ = 0

unfoldable pub failures : {s s' : ThreadPool} {ps ps' : Phases} → Steps s ps s' ps' → ℕ
unfolding failed_by
failures stay = 0
failures (go t live step rest) = failed_by step + failures rest

unfoldable pub empties : {s s' : ThreadPool} {ps ps' : Phases} → Steps s ps s' ps' → ℕ
unfolding empty_by
empties stay = 0
empties (go t live step rest) = empty_by step + empties rest

-- After `f` failed waits and `e` empty queues, for the threads below `n`.
record IsStocked (n f e : ℕ) (s : ThreadPool) (ps : Phases) : Type 0 where
  stocked : length s.work_queue + f ≡ s.queue_stat + total owed ps n + e
  seldom : e ≤ f

module _ (n f e : ℕ) (s : ThreadPool) (ps : Phases) (is : IsStocked n f e s ps) (t : ℕ)
    (below : t < n) where
  -- A step from `q` to `p`, which changes the two numbers and the queue as it should.
  moves :
      (q p : Phase) (s' : ThreadPool) (f' e' : ℕ)
      → ps t ≡ q
      → length s'.work_queue + s.queue_stat + f' + owed q + e
        ≡ length s.work_queue + s'.queue_stat + f + owed p + e'
      → e' ≤ f'
      → IsStocked n f' e' s' (move t p ps)
  moves q p s' f' e' at same le =
      let sum = total-move owed ps t p q n at below in
      let before = is.stocked in record { stocked = omega arith; seldom = le }

  -- One that leaves all of them.
  still :
      (q p : Phase) (s' : ThreadPool)
      → ps t ≡ q
      → owed q ≡ owed p
      → s'.work_queue ≡ s.work_queue
      → s'.queue_stat ≡ s.queue_stat
      → IsStocked n (f + 0) (e + 0) s' (move t p ps)
  still q p s' at same queue count =
      let len = ap (λ (xs : List ℕ). length xs) queue in
      moves q p s' (f + 0) (e + 0) at (omega arith) (omega (arith, is.seldom))

Step-IsStocked :
    (n f e t : ℕ) (s s' : ThreadPool) (ps ps' : Phases) (step : Step t s ps s' ps')
    → t < n
    → IsStocked n f e s ps
    → IsStocked n (f + failed_by step) (e + empty_by step) s' ps'
unfolding owed failed_by empty_by
Step-IsStocked n f e t s _ ps _ (append_lock r at free) b is =
    still n f e s ps is t b outside (checking r) _ at refl refl refl
Step-IsStocked n f e t s _ ps _ (append_refuse {request = r} at full) b is =
    still n f e s ps is t b (checking r) refusing _ at refl refl refl
Step-IsStocked n f e t s _ ps _ (append_false at) b is =
    still n f e s ps is t b refusing outside _ at refl refl refl
Step-IsStocked n f e t s _ ps _ (append_unlock at) b is =
    still n f e s ps is t b pushed posting _ at refl refl refl
Step-IsStocked n f e t s _ ps _ (destroy_handles at whole) b is =
    still n f e s ps is t b outside deleted _ at refl refl refl
Step-IsStocked n f e t s _ ps _ (destroy_stop at) b is =
    still n f e s ps is t b deleted stopped _ at refl refl refl
Step-IsStocked n f e t s _ ps _ (destroy_members at) b is =
    still n f e s ps is t b stopped destroyed _ at refl refl refl
Step-IsStocked n f e t s _ ps _ (run_leave at off) b is =
    still n f e s ps is t b testing finished _ at refl refl refl
Step-IsStocked n f e t s _ ps _ (run_enter at on) b is =
    still n f e s ps is t b testing waiting _ at refl refl refl
Step-IsStocked n f e t s _ ps _ (run_lock at free) b is =
    still n f e s ps is t b woken locked _ at refl refl refl
Step-IsStocked n f e t s _ ps _ (run_again at) b is =
    still n f e s ps is t b found_empty testing _ at refl refl refl
Step-IsStocked n f e t s _ ps _ (run_unlock {request = r} at) b is =
    still n f e s ps is t b (taken r) (handling r) _ at refl refl refl
Step-IsStocked n f e t s _ ps _ (run_null at) b is =
    still n f e s ps is t b (handling 0) testing _ at refl refl refl
Step-IsStocked n f e t s _ ps _ (run_process {request = r} at live) b is =
    still n f e s ps is t b (handling r) testing _ at refl refl refl
Step-IsStocked n f e t s _ ps _ (append_push {request = r} at room) b is =
    let len = length-append s.work_queue (r ∷ []) in
    moves n f e s ps is t b (checking r) pushed _ (f + 0) (e + 0) at (omega arith)
      (omega (arith, is.seldom))
Step-IsStocked n f e t s _ ps _ (append_post at) b is =
    moves n f e s ps is t b posting outside _ (f + 0) (e + 0) at (omega arith)
      (omega (arith, is.seldom))
Step-IsStocked n f e t s _ ps _ (run_wait m at some_left) b is =
    moves n f e s ps is t b waiting woken _ (f + 0) (e + 0) at (omega arith)
      (omega (arith, is.seldom))
Step-IsStocked n f e t s _ ps _ (run_interrupted at) b is =
    moves n f e s ps is t b waiting woken _ (f + 1) (e + 0) at (omega arith)
      (omega (arith, is.seldom))
Step-IsStocked n f e t s _ ps _ (run_empty at no_request) b is =
    let mine = total-least owed ps t locked n at b in
    let before = is.stocked in
    let len = ap (λ (xs : List ℕ). length xs) no_request in
    moves n f e s ps is t b locked found_empty _ (f + 0) (e + 1) at (omega arith) (omega arith)
Step-IsStocked n f e t s _ ps _ (run_take r rest at queue) b is =
    let len = ap (λ (xs : List ℕ). length xs) queue in
    moves n f e s ps is t b locked (taken r) _ (f + 0) (e + 0) at (omega arith)
      (omega (arith, is.seldom))

steps-IsStocked :
    (n f e : ℕ) (s s' : ThreadPool) (ps ps' : Phases) (steps : Steps s ps s' ps')
    → highest steps ≤ n
    → IsStocked n f e s ps
    → IsStocked n (f + failures steps) (e + empties steps) s' ps'
unfolding highest failures empties
steps-IsStocked n f e s _ ps _ stay b is =
    let before = is.stocked in record { stocked = omega arith; seldom = omega (arith, is.seldom) }
steps-IsStocked n f e s s' ps ps' (go {s' = m} {ps' = pm} t live step rest) b is =
    let end =
      steps-IsStocked n (f + failed_by step) (e + empty_by step) m s' pm ps' rest (omega arith)
        (Step-IsStocked n f e t s m ps pm step (omega arith) is) in
    let all = end.stocked in
    let few = end.seldom in record { stocked = omega arith; seldom = omega arith }

-- In every state that is reached from a new pool: the requests in the queue and the waits that failed
-- are together as many as the semaphore counts, the threads that have yet to post or have been woken, and the
-- times that a worker found the queue empty; and a worker found it empty at most as often as a wait
-- failed.
pub reachable-stocked :
    (max : ℕ) (worker : ℕ → Bool) (s : ThreadPool) (ps : Phases)
    (steps : Steps (initial max) (starting worker) s ps)
    → (length s.work_queue + failures steps
        ≡ s.queue_stat + total owed ps (highest steps) + empties steps)
      × (empties steps ≤ failures steps)
unfolding owed
reachable-stocked max worker s ps steps =
    let n = highest steps in
    let start : IsStocked n 0 0 (initial max) (starting worker) = record {
      stocked = let nothing = total-starting owed worker n refl refl in omega arith;
      seldom = omega arith;
    } in
    let is = steps-IsStocked n 0 0 _ s _ ps steps (omega arith) start in
    let all = is.stocked in let few = is.seldom in (omega arith, omega arith)
