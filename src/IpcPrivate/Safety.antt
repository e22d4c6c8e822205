-- ===== src/IpcPrivate/Safety.antt =====
-- Mutual exclusion, and the end of every run.
use mathlib.Core.Path.{subst}
use high_performance_linux_s.Base.{
  ℕ, ◌+◌, ◌≤◌, ◌<◌, ◌≡◌, refl, ◌⊎◌, inl, inr, Bool, true, false, ◌≢◌, ◌∙◌, Option, none, some,
  arith, sym, ap,
}
use high_performance_linux_s.IpcPrivate.{
  Phase, absent, setting, forking, trying, inside, waiting, removing, finished, refused, exited,
  down, up, Pv, taken, given, Step, set_value, fork_failed, forked, parent_enter, parent_leave,
  child_enter, child_leave, waited, removed, Run, stay, go,
}

-- The states that are reached: the value is 1 less the number of processes that have the semaphore.
data Shape : Option ℕ → Phase → Phase → Type 0 where
  created : {n : ℕ} → Shape (some n) setting absent
  set : Shape (some 1) forking absent
  alone : Shape (some 1) refused absent
  both : Shape (some 1) trying trying
  parent_first : Shape (some 0) inside trying
  child_first : Shape (some 0) trying inside
  child_left : Shape (some 1) trying exited
  parent_left : Shape (some 1) waiting trying
  child_second : Shape (some 0) waiting inside
  parent_second : Shape (some 0) inside exited
  over : Shape (some 1) waiting exited
  last : Shape (some 1) removing exited
  gone : Shape none finished exited

-- The steps that are left for a process.
parent_left_steps : Phase → ℕ
parent_left_steps setting = 6
parent_left_steps forking = 5
parent_left_steps trying = 4
parent_left_steps inside = 3
parent_left_steps waiting = 2
parent_left_steps removing = 1
parent_left_steps _ = 0

child_left_steps : Phase → ℕ
child_left_steps absent = 2
child_left_steps trying = 2
child_left_steps inside = 1
child_left_steps _ = 0

value : Option ℕ → ℕ
value none = 0
value (some n) = n

steps_left : (parent child : Phase) → ℕ
unfolding parent_left_steps child_left_steps
steps_left parent child = parent_left_steps parent + child_left_steps child

number : {a b : ℕ} → some a ≡ some b → a ≡ b
unfolding value
number e = ap value e

module _ (P : Option ℕ → Type 0) where
  -- Behind `pv(sem_id, -1)` at 1, and behind `pv(sem_id, 1)` at 0.
  down_from_one : {m : Option ℕ} → Pv down (some 1) m → P (some 0) → P m
  down_from_one (taken n e) x = subst (λ (k : ℕ). P (some k)) (omega (arith, number e)) x

  up_from_zero : {m : Option ℕ} → Pv up (some 0) m → P (some 1) → P m
  up_from_zero (given n e) x =
      let zero : 0 ≡ n = number e in subst (λ (k : ℕ). P (some k)) (omega arith) x

down_from_zero {ℓ} : {A : Type ℓ} {m : Option ℕ} → Pv down (some 0) m → A
down_from_zero (taken n e) = absurd (omega (arith, number e))

Step-Shape :
    {m m' : Option ℕ} {p c p' c' : Phase} → Step m p c m' p' c' → Shape m p c → Shape m' p' c'
Step-Shape set_value created = set
Step-Shape fork_failed set = alone
Step-Shape forked set = both
Step-Shape (parent_enter v) both = down_from_one (λ m. Shape m inside trying) v parent_first
Step-Shape (parent_enter v) child_left = down_from_one (λ m. Shape m inside exited) v parent_second
Step-Shape (parent_enter v) child_first = down_from_zero v
Step-Shape (parent_leave v) parent_first = up_from_zero (λ m. Shape m waiting trying) v parent_left
Step-Shape (parent_leave v) parent_second = up_from_zero (λ m. Shape m waiting exited) v over
Step-Shape (child_enter v) both = down_from_one (λ m. Shape m trying inside) v child_first
Step-Shape (child_enter v) parent_left = down_from_one (λ m. Shape m waiting inside) v child_second
Step-Shape (child_enter v) parent_first = down_from_zero v
Step-Shape (child_leave v) child_first = up_from_zero (λ m. Shape m trying exited) v child_left
Step-Shape (child_leave v) child_second = up_from_zero (λ m. Shape m waiting exited) v over
Step-Shape waited over = last
Step-Shape removed last = gone

Step-fewer :
    {m m' : Option ℕ} {p c p' c' : Phase} → Step m p c m' p' c' → steps_left p' c' < steps_left p c
unfolding steps_left parent_left_steps child_left_steps
Step-fewer set_value = omega arith
Step-fewer fork_failed = omega arith
Step-fewer forked = omega arith
Step-fewer (parent_enter v) = omega arith
Step-fewer (parent_leave v) = omega arith
Step-fewer (child_enter v) = omega arith
Step-fewer (child_leave v) = omega arith
Step-fewer waited = omega arith
Step-fewer removed = omega arith

-- The parent has returned: the child has exited and the set is removed, or there is no child.
pub data IsOver : Option ℕ → Phase → Phase → Type 0 where
  clean : IsOver none finished exited
  childless : {m : Option ℕ} → IsOver m refused absent

pub record HasNext (m : Option ℕ) (p c : Phase) : Type 0 where
  semaphore : Option ℕ
  parent : Phase
  child : Phase
  step : Step m p c semaphore parent child

-- At most one process has the semaphore, and the program is over or some process can go on.
pub record IsSound (m : Option ℕ) (p c : Phase) : Type 0 where
  exclusive : (p ≢ inside) ⊎ (c ≢ inside)
  goes_on : IsOver m p c ⊎ HasNext m p c

next : {m m' : Option ℕ} {p c p' c' : Phase} → Step m p c m' p' c' → HasNext m p c
next s = record { semaphore = _; parent = _; child = _; step = s }

is_inside : Phase → Bool
is_inside inside = true
is_inside _ = false

outside : (p : Phase) → is_inside p ≡ false → p ≢ inside
unfolding is_inside
outside p e q = absurd (cc (sym e ∙ ap is_inside q))

Shape-goes_on : {m : Option ℕ} {p c : Phase} → Shape m p c → IsOver m p c ⊎ HasNext m p c
Shape-goes_on created = inr (next set_value)
Shape-goes_on set = inr (next forked)
Shape-goes_on alone = inl childless
Shape-goes_on both = inr (next (parent_enter (taken 0 refl)))
Shape-goes_on parent_first = inr (next (parent_leave (given 0 refl)))
Shape-goes_on child_first = inr (next (child_leave (given 0 refl)))
Shape-goes_on child_left = inr (next (parent_enter (taken 0 refl)))
Shape-goes_on parent_left = inr (next (child_enter (taken 0 refl)))
Shape-goes_on child_second = inr (next (child_leave (given 0 refl)))
Shape-goes_on parent_second = inr (next (parent_leave (given 0 refl)))
Shape-goes_on over = inr (next waited)
Shape-goes_on last = inr (next removed)
Shape-goes_on gone = inl clean

Shape-exclusive : {m : Option ℕ} {p c : Phase} → Shape m p c → (p ≢ inside) ⊎ (c ≢ inside)
unfolding is_inside
Shape-exclusive created = inl (outside _ refl)
Shape-exclusive set = inl (outside _ refl)
Shape-exclusive alone = inl (outside _ refl)
Shape-exclusive both = inl (outside _ refl)
Shape-exclusive parent_first = inr (outside _ refl)
Shape-exclusive child_first = inl (outside _ refl)
Shape-exclusive child_left = inl (outside _ refl)
Shape-exclusive parent_left = inl (outside _ refl)
Shape-exclusive child_second = inl (outside _ refl)
Shape-exclusive parent_second = inr (outside _ refl)
Shape-exclusive over = inl (outside _ refl)
Shape-exclusive last = inl (outside _ refl)
Shape-exclusive gone = inl (outside _ refl)

Run-Shape :
    {k n : ℕ} {m : Option ℕ} {p c : Phase}
    → Run (some k) setting absent n m p c
    → Shape m p c × (n + steps_left p c ≤ 8)
unfolding steps_left parent_left_steps child_left_steps
Run-Shape stay = (created, omega arith)
Run-Shape (go r s) =
    let (shape, few) = Run-Shape r in (Step-Shape s shape, omega (arith, Step-fewer s))

-- Where the semaphore set was created: in every interleaving of the two processes, at most one of
-- them has the semaphore at a time, none is ever stuck before the end, which comes after at most
-- eight steps; there the set is removed and the child has exited, or `fork` has failed.
pub run-IsSound :
    {k n : ℕ} {m : Option ℕ} {p c : Phase}
    → Run (some k) setting absent n m p c
    → (n ≤ 8) × IsSound m p c
run-IsSound r =
    let (shape, few) = Run-Shape r in
    (omega arith, record { exclusive = Shape-exclusive shape; goes_on = Shape-goes_on shape })
