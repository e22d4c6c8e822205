-- ===== src/Locker.antt =====
-- include/locker.h and src/locker.cc: the classes `sem`, `locker` and `cond` around POSIX objects.
-- The operating system is a parameter: `os calls c` is the result of the call `c` when the calls
-- `calls` have been made before, the latest first. A method returns its result and all calls.
pub mod Balance
mod Tests
use high_performance_linux_s.Base.{
  ℕ, zero, suc, ◌+◌, ◌-◌, Bool, true, false, List, [], ◌∷◌, ℤ, pos, negsuc, ◌==◌, if◌then◌else◌,
}

-- A POSIX call on the object's only member of that kind.
pub data Call : Type 0 where
  sem_init : Call
  sem_destroy : Call
  sem_wait : Call
  sem_post : Call
  mutex_init : Call
  mutex_destroy : Call
  mutex_lock : Call
  mutex_unlock : Call
  cond_init : Call
  cond_destroy : Call
  cond_wait : Call
  cond_signal : Call

abbrev pub Os : Type 0
Os = List Call → Call → ℤ

-- A constructor throws or returns.
pub data Built : Type 0 where
  thrown : Built
  built : Built

abbrev pub Run : Type 0 → Type 0
Run A = List Call → A × List Call

abbrev pub pure : {A : Type 0} → A → Run A
pure a calls = (a, calls)

infixl 5 ◌>>=◌ ◌>>◌
abbrev pub ◌>>=◌ : {A B : Type 0} → Run A → (A → Run B) → Run B
◌>>=◌ m k calls = let r = m calls in k r.0 r.1

abbrev pub ◌>>◌ : {A B : Type 0} → Run A → Run B → Run B
m >> k = m >>= λ _. k

abbrev pub is_zero : ℤ → Bool
is_zero (pos n) = n == 0
is_zero (negsuc n) = false

module _ (os : Os) where
  abbrev pub make : Call → Run ℤ
  make c calls = (os calls c, c ∷ calls)

  -- A call and whether it returned 0.
  abbrev pub succeeds : Call → Run Bool
  succeeds c = do r ← make c; pure (is_zero r)

  unfoldable pub sem_new : Run Built
  sem_new = do ok ← succeeds sem_init; pure (if ok then built else thrown)

  unfoldable pub sem_delete : Run (Unit {0})
  sem_delete = do make sem_destroy; pure tt

  unfoldable pub wait : Run Bool
  wait = succeeds sem_wait

  unfoldable pub post : Run Bool
  post = succeeds sem_post

  unfoldable pub locker_new : Run Built
  locker_new = do ok ← succeeds mutex_init; pure (if ok then built else thrown)

  unfoldable pub locker_delete : Run (Unit {0})
  locker_delete = do make mutex_destroy; pure tt

  unfoldable pub lock : Run Bool
  lock = succeeds mutex_lock

  unfoldable pub unlock : Run Bool
  unlock = succeeds mutex_unlock

  unfoldable pub cond_new : Run Built
  cond_new = do
    ok ← succeeds mutex_init
    if ok
        then (do
          ok' ← succeeds cond_init
          if ok' then pure built else (do make mutex_destroy; pure thrown))
        else pure thrown

  unfoldable pub cond_delete : Run (Unit {0})
  cond_delete = do make mutex_destroy; make cond_destroy; pure tt

  unfoldable pub wait_cond : Run Bool
  wait_cond = do make mutex_lock; ret ← make Call.cond_wait; make mutex_unlock; pure (is_zero ret)

  unfoldable pub signal : Run Bool
  signal = succeeds cond_signal
