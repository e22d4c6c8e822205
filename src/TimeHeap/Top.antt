-- ===== src/TimeHeap/Top.antt =====
-- `top` and the order of the heap.
use high_performance_linux_s.Base.{
  ℕ, zero, suc, ◌-◌, ◌/◌, ◌<◌, ◌≤◌, ◌≡◌, refl, arith, ◌==◌, Bool-cases, inl, inr,
}
use high_performance_linux_s.Base.Partial.{Defined, defined}
use high_performance_linux_s.Nodes.{Ptr, null}
use high_performance_linux_s.TimeHeap.{Timers, TimeHeap, empty, top}
use high_performance_linux_s.TimeHeap.Arrays.{at, get_elem?-at, key, IsHeap}

-- The root is least: up from `i` to the root, `k` edges at most.
root-least :
    (ts : Timers) (h : TimeHeap)
    → IsHeap ts h
    → (k i : ℕ) → i ≤ k
    → i < h.cur_size
    → key ts (at h.array 0) ≤ key ts (at h.array i)
root-least ts h is k zero le b = omega arith
root-least ts h is zero (suc i) le b = absurd (omega arith)
root-least ts h is (suc k) (suc i) le b =
    let edge = is.order (suc i) (omega arith) b in
    let above = root-least ts h is k ((suc i - 1) / 2) (omega arith) (omega arith) in omega arith

-- The timer that `top` returns: null for an empty heap.
abbrev pub IsTop : Timers → TimeHeap → Ptr → Type 0
IsTop ts h p =
    ((h.cur_size ≡ 0) → p ≡ null)
    × ((i : ℕ) → i < h.cur_size → key ts p ≤ key ts (at h.array i))
    × (0 < h.cur_size → p ≡ at h.array 0)

-- `top` of a valid heap is defined: null for an empty heap, and otherwise a timer of the heap that
-- expires no later than any other of its timers.
pub top-IsTop : (ts : Timers) (h : TimeHeap) → IsHeap ts h → Defined (IsTop ts h) (top h)
unfolding top empty
top-IsTop ts h is =
    let size = is.size in
    let room = is.room in
    elim (Bool-cases (h.cur_size == 0)) [
      | inl e ↦
          rw e (defined ((λ _. refl), (λ i b. absurd (ground arith)), λ p. absurd (ground arith)))
      | inr ne ↦
          rw (ne, get_elem?-at h.array 0 (ground arith))
            (defined (
              (λ z. absurd (ground arith)),
              (λ i b. root-least ts h is i i (omega arith) b),
              λ p. refl,
            ))
    ]
