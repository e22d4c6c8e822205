-- ===== src/SortTimerList/Sorted.antt =====
-- The sorted timer list as its users see it.
use mathlib.Core.List.{Perm}
use high_performance_linux_s.Base.{
  ℕ, ◌<◌, ◌≤◌, ◌≡◌, refl, ◌≢◌, true, false, some, none, List, [], ◌∷◌, ◌++◌, arith, ltb, length,
  All, Bool-cases, inl, inr, ltb→lt, ltb→le,
}
use high_performance_linux_s.Nodes.{Fired, Ptr, null, node, Store}
use high_performance_linux_s.Nodes.Returns.{Returns, Returns-mono}
use high_performance_linux_s.Nodes.Links.{has, SameOutside}
use high_performance_linux_s.SortTimerList.{
  UtilTimer, TimerCells, TimerList, add_timer, adjust_timer, tick, IsList,
}
use high_performance_linux_s.SortTimerList.Order.{
  insert, AllFrom, IsSorted, insert-IsSorted, insert-perm, adjust-IsSorted, adjust-perm,
}
use high_performance_linux_s.SortTimerList.Insert.{add_timer-insert}
use high_performance_linux_s.SortTimerList.Adjust.{adjust_timer-insert}
use high_performance_linux_s.SortTimerList.Sweep.{
  HasCallback, due, later, fired, due-due, due_nil, later_nil, due_later, later_due, later-later,
  tick_lem,
}

-- A sorted list of exactly the timers `xs`; only nodes of `touched` differ from `h`.
pub record IsSortedList (h : Store UtilTimer) (touched xs : TimerCells) (l : TimerList)
    (g : Store UtilTimer) : Type 0 where
  pub cells : TimerCells
  pub list : IsList g l cells
  pub sorted : IsSorted cells
  pub perm : Perm cells xs
  pub same : SameOutside touched h g

-- `add_timer` of a fresh timer to a sorted list that does not hold it returns, with as many rounds as
-- the list has timers, and leaves a sorted list of exactly the old timers and the new one; no node
-- outside these is written.
pub add_timer-IsSortedList :
    (k : ℕ) (h : Store UtilTimer) (l : TimerList) (t : Ptr) (tv : UtilTimer) (xs : TimerCells)
    → t ≢ null
    → h t ≡ some (node tv null null)
    → has t xs ≡ false
    → IsList h l xs
    → IsSorted xs
    → length xs ≤ k
    → Returns (IsSortedList h ((t, tv) ∷ xs) ((t, tv) ∷ xs)) (add_timer k t l h)
add_timer-IsSortedList k h l t tv xs ne at out is s fuel =
    Returns-mono (add_timer-insert h t tv ne k l xs at out is fuel) λ l' g r. record {
      cells = insert (t, tv) xs;
      list = r.list;
      sorted = insert-IsSorted t tv xs s;
      perm = insert-perm t tv xs;
      same = r.same;
    }

-- `adjust_timer` of a timer of the list, whose expiry was raised (from that of `old`) while the list
-- was sorted, returns and leaves a sorted list of the same timers, on every branch.
pub adjust_timer-IsSortedList :
    (k : ℕ) (h : Store UtilTimer) (l : TimerList) (t : Ptr) (old tv : UtilTimer)
    (ys zs : TimerCells)
    → IsList h l (ys ++ (t, tv) ∷ zs)
    → IsSorted (ys ++ (t, old) ∷ zs)
    → old.expire ≤ tv.expire
    → length zs ≤ k
    → Returns (IsSortedList h (ys ++ (t, tv) ∷ zs) (ys ++ (t, tv) ∷ zs)) (adjust_timer k t l h)
adjust_timer-IsSortedList k h l t old tv ys zs is s le fuel =
    Returns-mono (adjust_timer-insert k h l t tv ys zs is fuel) λ l' g r. record {
      cells = ys ++ insert (t, tv) zs;
      list = r.list;
      sorted = adjust-IsSorted t old tv ys zs s le;
      perm = adjust-perm t tv ys zs;
      same = r.same;
    }

-- What a sweep at time `cur` should do to the timers `xs`.
pub record IsSweep (h : Store UtilTimer) (cur : ℕ) (xs : TimerCells) (r : TimerList × List Fired)
    (g : Store UtilTimer) : Type 0 where
  pub ran : TimerCells
  pub left : TimerCells
  pub parts : ran ++ left ≡ xs
  pub expired : All (λ c. c.1.expire ≤ cur) ran
  pub pending : All (λ c. cur < c.1.expire) left
  pub list : IsList g r.0 left
  pub log_is : r.1 ≡ fired ran []
  pub freed : (a : Ptr) → has a ran ≡ true → g a ≡ none
  pub same : SameOutside xs h g

pub due-append-later : (cur : ℕ) (xs : TimerCells) → due cur xs ++ later cur xs ≡ xs
unfolding due later
due-append-later cur [] = refl
due-append-later cur ((p, v) ∷ xs) = ground (arith, due-append-later cur xs)

due-expired : (cur : ℕ) (xs : TimerCells) → All (λ c. c.1.expire ≤ cur) (due cur xs)
due-expired cur [] = rw due_nil tt
due-expired cur ((p, v) ∷ xs) = elim (Bool-cases (ltb cur v.expire)) [
  | inl lt ↦ rw (due_later cur p v xs lt) tt
  | inr ge ↦ rw (due-due cur p v xs ge) (ltb→le _ _ ge, due-expired cur xs)
]

All-later : (cur e : ℕ) (xs : TimerCells) → cur < e → AllFrom e xs → All (λ c. cur < c.1.expire) xs
All-later cur e [] lt h = tt
All-later cur e ((p, v) ∷ xs) lt h = (omega arith, All-later cur e xs lt h.1)

later-pending :
    (cur : ℕ) (xs : TimerCells) → IsSorted xs → All (λ c. cur < c.1.expire) (later cur xs)
later-pending cur [] s = rw later_nil tt
later-pending cur ((p, v) ∷ xs) s = elim (Bool-cases (ltb cur v.expire)) [
  | inl lt ↦
      rw (later-later cur p v xs lt) (ltb→lt _ _ lt, All-later cur v.expire xs (ltb→lt _ _ lt) s.0)
  | inr ge ↦ rw (later_due cur p v xs ge) (later-pending cur xs s.1)
]

-- `tick` at time `cur` on a sorted list whose callbacks are set returns, with a round more than the
-- list has timers: it runs the callbacks of exactly the timers that expire at `cur` or before, each
-- once and in the order of the list, frees exactly those nodes, and leaves a list of the others.
pub tick-IsSweep :
    (k cur : ℕ) (h : Store UtilTimer) (l : TimerList) (xs : TimerCells)
    → IsList h l xs
    → IsSorted xs
    → All HasCallback xs
    → length xs < k
    → Returns (IsSweep h cur xs) (tick k cur l h)
tick-IsSweep k cur h l xs is s cb fuel = Returns-mono (tick_lem k cur h l xs is cb fuel) λ r g t.
    record {
      ran = due cur xs;
      left = later cur xs;
      parts = due-append-later cur xs;
      expired = due-expired cur xs;
      pending = later-pending cur xs s;
      list = t.list;
      log_is = t.log_is;
      freed = t.freed;
      same = t.same;
    }
