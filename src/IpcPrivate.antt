-- ===== src/IpcPrivate.antt =====
-- src/ipc_private.cc: a parent and a child that share a System V semaphore.
-- Each step is one call of one of the two processes, and the steps interleave freely. The semaphore
-- set behaves as documented: `semop` with -1 waits until the value is not 0, and the calls on a set
-- that is not there fail, which the program does not look at. `fork` may fail.
pub mod Safety
mod Tests
use high_performance_linux_s.Base.{ℕ, zero, suc, ◌+◌, ◌≡◌, Option, none, some}

-- Where a process stands: at the call that it makes next. `inside` is the time for which it has the
-- semaphore, with the `sleep`, up to its `pv(sem_id, 1)`.
pub data Phase : Type 0 where
  absent : Phase
  setting : Phase
  forking : Phase
  trying : Phase
  inside : Phase
  waiting : Phase
  removing : Phase
  finished : Phase
  refused : Phase
  exited : Phase

-- `semctl(sem_id, 0, SETVAL, sem_un)`; `none` is a set that is not there.
abbrev pub set_val : Option ℕ → Option ℕ
set_val none = none
set_val (some n) = some 1

pub data Op : Type 0 where
  down : Op
  up : Op

-- `pv(sem_id, -1)` and `pv(sem_id, 1)`: the value before and behind it.
pub data Pv : Op → Option ℕ → Option ℕ → Type 0 where
  taken : {m : Option ℕ} (n : ℕ) → m ≡ some (n + 1) → Pv down m (some n)
  given : {m : Option ℕ} (n : ℕ) → m ≡ some n → Pv up m (some (n + 1))
  failed : {op : Op} → Pv op none none

-- The semaphore, the parent and the child, before and behind a step.
pub data Step : Option ℕ → Phase → Phase → Option ℕ → Phase → Phase → Type 0 where
  set_value : {m : Option ℕ} {c : Phase} → Step m setting c (set_val m) forking c
  fork_failed : {m : Option ℕ} → Step m forking absent m refused absent
  forked : {m : Option ℕ} → Step m forking absent m trying trying
  parent_enter : {m m' : Option ℕ} {c : Phase} → Pv down m m' → Step m trying c m' inside c
  parent_leave : {m m' : Option ℕ} {c : Phase} → Pv up m m' → Step m inside c m' waiting c
  child_enter : {m m' : Option ℕ} {p : Phase} → Pv down m m' → Step m p trying m' p inside
  child_leave : {m m' : Option ℕ} {p : Phase} → Pv up m m' → Step m p inside m' p exited
  waited : {m : Option ℕ} → Step m waiting exited m removing exited
  removed : {m : Option ℕ} {c : Phase} → Step m removing c none finished c

-- `n` steps.
pub data Run (m : Option ℕ) (p c : Phase) : ℕ → Option ℕ → Phase → Phase → Type 0 where
  stay : Run m p c 0 m p c
  go :
      {n : ℕ} {m' m'' : Option ℕ} {p' p'' c' c'' : Phase}
      → Run m p c n m' p' c'
      → Step m' p' c' m'' p'' c''
      → Run m p c (suc n) m'' p'' c''
