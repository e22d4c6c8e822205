-- ===== src/TimeHeap/Faults.antt =====
-- Where the second constructor fails.
use high_performance_linux_s.Base.{
  ℕ, zero, suc, ◌+◌, ◌<◌, ◌≤◌, ◌≡◌, refl, ◌≢◌, none, some, List, arith, ltb, if◌then◌else◌, length,
  replicate, length-replicate, length-set, set, Bool-cases, inl, inr,
}
use high_performance_linux_s.Nodes.{Ptr, null}
use high_performance_linux_s.TimeHeap.{Timers, thrown, write, copy_loop, time_heap_from}
use high_performance_linux_s.TimeHeap.Arrays.{at, get_elem?-at}

-- A copy that leaves the target's bounds.
copy_loop-fault :
    (n i : ℕ) (source target : List Ptr)
    → i + n ≤ length source
    → i ≤ length target
    → length target < i + n
    → copy_loop n i source target ≡ none
unfolding copy_loop write
copy_loop-fault zero i source target s b t = absurd (omega arith)
copy_loop-fault (suc n) i source target s b t =
    rw (get_elem?-at source i (omega arith)) (elim (Bool-cases (ltb i (length target))) [
      | inl lt ↦
          let len = length-set target i (at source i) in
          rw lt (
            copy_loop-fault n (i + 1) source (set target i (at source i)) (omega arith)
              (ground arith) (omega arith))
      | inr ge ↦ rw ge
    ])

-- The constructor from an array of `size` timers throws when they are fewer than the capacity, and is
-- undefined behaviour when they are more.
pub time_heap_from-size :
    (k : ℕ) (ts : Timers) (init_array : List Ptr) (size cap : ℕ)
    → length init_array ≡ size
    → size ≢ cap
    → time_heap_from k ts init_array size cap ≡ (if ltb size cap then some thrown else none)
unfolding time_heap_from
time_heap_from-size k ts init_array size cap e ne = elim (Bool-cases (ltb size cap)) [
  | inl lt ↦ rw lt
  | inr ge ↦
      let len = length-replicate cap null in
      rw
        (
          ge,
          copy_loop-fault size 0 init_array (replicate cap null) (omega arith) (omega arith)
              (ground arith),
        )
        refl
]
