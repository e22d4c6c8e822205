-- ===== src/ThreadPool.antt =====
-- include/thread_pool.h and src/thread_pool.cc: a queue of requests behind a lock and a semaphore.
-- The constructor is a function of the results of the POSIX calls. `append`, `run` and the destructor
-- are steps of the threads: each step is one access to the shared state, and the steps interleave
-- freely. Behind the destructor no step is left, since an access is then undefined behaviour.
-- The mutex and the semaphore behave as documented: `lock` waits until no thread holds the mutex, and
-- does not fail for one of the default kind that is initialised; `wait` waits until the count is not 0,
-- or is interrupted by a signal and fails, at any time, which `run` does not notice.
pub mod Safety
pub mod Stop
pub mod Idle
pub mod Create
pub mod Totals
pub mod Requests
pub mod Stock
mod Tests
use high_performance_linux_s.Base.{
  ℕ, zero, suc, ◌+◌, ◌≡◌, ◌≢◌, ◌<◌, ◌≤◌, Bool, true, false, ◌||◌, Option, none, some, List, [], ◌∷◌,
  ◌++◌, ℤ, pos, negsuc, ◌==◌, if◌then◌else◌, length,
}
use high_performance_linux_s.Locker.{Built, thrown, built, is_zero}

-- The loop of the constructor, at the `i`th of the threads with `n` to go: the result, and how many
-- threads run. `create` and `detach` are the results of the two calls for each thread.
unfoldable pub create_loop : (create detach : ℕ → ℤ) → (n i : ℕ) → Built × ℕ
create_loop create detach zero i = (built, i)
create_loop create detach (suc n) i =
    let rest = create_loop create detach n (i + 1) in
    if is_zero (create i)
    then (if is_zero (detach i) then (thrown, i + 1) else rest)
    else (thrown, i)

unfoldable pub thread_pool : (create detach : ℕ → ℤ) → (thread_number max_requests : ℤ) → Built × ℕ
unfolding create_loop
thread_pool create detach (pos (suc n)) (pos (suc m)) = create_loop create detach (suc n) 0
thread_pool create detach (pos (suc n)) (pos zero) = (thrown, 0)
thread_pool create detach (pos (suc n)) (negsuc m) = (thrown, 0)
thread_pool create detach (pos zero) max_requests = (thrown, 0)
thread_pool create detach (negsuc n) max_requests = (thrown, 0)

-- What the threads share; `holder` is the thread that holds `m_queue_locker`, `queue_stat` the count
-- of `m_queue_stat`, and `processed` lists the requests whose `process` was called. `handles` is
-- whether `m_threads` is allocated, `alive` whether the members have not been destroyed.
pub record ThreadPool : Type 0 where
  pub max_request : ℕ
  pub work_queue : List ℕ
  pub holder : Option ℕ
  pub queue_stat : ℕ
  pub stop : Bool
  pub handles : Bool
  pub alive : Bool
  pub processed : List ℕ

-- Where a thread stands: in `append` (the first four behind `outside`), in the destructor (the next
-- three), or in `run`.
pub data Phase : Type 0 where
  outside : Phase
  checking : (request : ℕ) → Phase
  refusing : Phase
  pushed : Phase
  posting : Phase
  deleted : Phase
  stopped : Phase
  destroyed : Phase
  testing : Phase
  waiting : Phase
  woken : Phase
  locked : Phase
  found_empty : Phase
  taken : (request : ℕ) → Phase
  handling : (request : ℕ) → Phase
  finished : Phase

abbrev pub Phases : Type 0
Phases = ℕ → Phase

unfoldable pub move : ℕ → Phase → Phases → Phases
move t p ps u = if u == t then p else ps u

-- One step of the thread `t`.
pub data Step (t : ℕ) : ThreadPool → Phases → ThreadPool → Phases → Type 0 where
  append_lock :
      {s : ThreadPool} {ps : Phases} (request : ℕ)
      → ps t ≡ outside
      → s.holder ≡ none
      → Step t s ps (record s { holder = some t }) (move t (checking request) ps)
  append_refuse :
      {s : ThreadPool} {ps : Phases} {request : ℕ}
      → ps t ≡ checking request
      → s.max_request < length s.work_queue
      → Step t s ps s (move t refusing ps)
  append_false :
      {s : ThreadPool} {ps : Phases}
      → ps t ≡ refusing
      → Step t s ps (record s { holder = none }) (move t outside ps)
  append_push :
      {s : ThreadPool} {ps : Phases} {request : ℕ}
      → ps t ≡ checking request
      → length s.work_queue ≤ s.max_request
      → Step t s ps (record s { work_queue = s.work_queue ++ request ∷ [] }) (move t pushed ps)
  append_unlock :
      {s : ThreadPool} {ps : Phases}
      → ps t ≡ pushed
      → Step t s ps (record s { holder = none }) (move t posting ps)
  append_post :
      {s : ThreadPool} {ps : Phases}
      → ps t ≡ posting
      → Step t s ps (record s { queue_stat = s.queue_stat + 1 }) (move t outside ps)
  destroy_handles :
      {s : ThreadPool} {ps : Phases}
      → ps t ≡ outside
      → s.handles ≡ true
      → Step t s ps (record s { handles = false }) (move t deleted ps)
  destroy_stop :
      {s : ThreadPool} {ps : Phases}
      → ps t ≡ deleted
      → Step t s ps (record s { stop = true }) (move t stopped ps)
  destroy_members :
      {s : ThreadPool} {ps : Phases}
      → ps t ≡ stopped
      → Step t s ps (record s { alive = false }) (move t destroyed ps)
  run_leave :
      {s : ThreadPool} {ps : Phases}
      → ps t ≡ testing
      → s.stop ≡ false
      → Step t s ps s (move t finished ps)
  run_enter :
      {s : ThreadPool} {ps : Phases}
      → ps t ≡ testing
      → s.stop ≡ true
      → Step t s ps s (move t waiting ps)
  run_wait :
      {s : ThreadPool} {ps : Phases} (n : ℕ)
      → ps t ≡ waiting
      → s.queue_stat ≡ n + 1
      → Step t s ps (record s { queue_stat = n }) (move t woken ps)
  run_interrupted :
      {s : ThreadPool} {ps : Phases} → ps t ≡ waiting → Step t s ps s (move t woken ps)
  run_lock :
      {s : ThreadPool} {ps : Phases}
      → ps t ≡ woken
      → s.holder ≡ none
      → Step t s ps (record s { holder = some t }) (move t locked ps)
  run_empty :
      {s : ThreadPool} {ps : Phases}
      → ps t ≡ locked
      → s.work_queue ≡ []
      → Step t s ps s (move t found_empty ps)
  run_again :
      {s : ThreadPool} {ps : Phases}
      → ps t ≡ found_empty
      → Step t s ps (record s { holder = none }) (move t testing ps)
  run_take :
      {s : ThreadPool} {ps : Phases} (request : ℕ) (rest : List ℕ)
      → ps t ≡ locked
      → s.work_queue ≡ request ∷ rest
      → Step t s ps (record s { work_queue = rest }) (move t (taken request) ps)
  run_unlock :
      {s : ThreadPool} {ps : Phases} {request : ℕ}
      → ps t ≡ taken request
      → Step t s ps (record s { holder = none }) (move t (handling request) ps)
  run_null : {s : ThreadPool} {ps : Phases} → ps t ≡ handling 0 → Step t s ps s (move t testing ps)
  run_process :
      {s : ThreadPool} {ps : Phases} {request : ℕ}
      → ps t ≡ handling request
      → request ≢ 0
      → Step t s ps (record s { processed = request ∷ s.processed }) (move t testing ps)

-- Any number of steps, of any threads.
pub data Steps : ThreadPool → Phases → ThreadPool → Phases → Type 0 where
  stay : {s : ThreadPool} {ps : Phases} → Steps s ps s ps
  go :
      {s s' s'' : ThreadPool} {ps ps' ps'' : Phases} (t : ℕ)
      → s.alive ≡ true
      → Step t s ps s' ps'
      → Steps s' ps' s'' ps''
      → Steps s ps s'' ps''

-- A number above every thread that takes one of the steps.
unfoldable pub highest : {s s' : ThreadPool} {ps ps' : Phases} → Steps s ps s' ps' → ℕ
highest stay = 0
highest (go t _ _ rest) = t + 1 + highest rest

-- The pool as its constructor leaves it; `worker i` tells the threads of the pool from its clients.
abbrev pub initial : ℕ → ThreadPool
initial max = record {
  max_request = max;
  work_queue = [];
  holder = none;
  queue_stat = 0;
  stop = false;
  handles = true;
  alive = true;
  processed = [];
}

abbrev pub starting : (worker : ℕ → Bool) → Phases
starting worker t = if worker t then testing else outside
