-- ===== src/TimeHeap/Built.antt =====
-- A heap that is made by `time_heap(cap)` and `add_timer`.
use high_performance_linux_s.Base.{
  ℕ, zero, suc, ◌+◌, ◌-◌, ◌<◌, ◌≤◌, ◌≡◌, refl, ◌∙◌, ap, ◌≢◌, Option, some, List, [], ◌∷◌, arith,
  ◌==◌, length, length-replicate, Bool-cases, inl, inr, ==→eq, ==_self, All,
}
use high_performance_linux_s.Base.Partial.{◌>>=◌, Defined, defined, Defined-mono, Defined-bind}
use high_performance_linux_s.Nodes.{Ptr, null}
use high_performance_linux_s.TimeHeap.{Timers, TimeHeap, add_timer, time_heap, pop}
use high_performance_linux_s.TimeHeap.Arrays.{at, IsLive, one, count, IsHeap, count_in}
use high_performance_linux_s.TimeHeap.Add.{IsFresh, add_timer-IsInserted, at-replicate}
use high_performance_linux_s.TimeHeap.Pop.{popped, pop-popped}

-- A client that adds the timers one after the other.
unfoldable pub add_timers : Timers → List Ptr → TimeHeap → Option TimeHeap
add_timers ts [] h = some h
add_timers ts (p ∷ ps) h = do h' ← add_timer ts p h; add_timers ts ps h'

-- How often a timer is among those that are added.
unfoldable pub times : Ptr → List Ptr → ℕ
times q [] = 0
times q (p ∷ ps) = one q p + times q ps

one-same : (q p : Ptr) → p ≡ q → one q p ≡ 1
unfolding one
one-same q p e = ap (one q) e ∙ rw (==_self q) refl

count-once : (q : Ptr) (f : ℕ → Ptr) (n i : ℕ) → i < n → f i ≡ q → 1 ≤ count q f n
unfolding count
count-once q f zero i b e = absurd (omega arith)
count-once q f (suc n) i b e = elim (Bool-cases (n == i)) [
  | inl last ↦ let here = one-same q (f n) (ap f (==→eq n i last) ∙ e) in omega arith
  | inr other ↦ let rest = count-once q f n i (ground arith) e in omega arith
]

count-twice :
    (q : Ptr) (f : ℕ → Ptr) (n i : ℕ) → 0 < i → i < n → f i ≡ q → f 0 ≡ q → 2 ≤ count q f n
unfolding count
count-twice q f zero i pos b e first = absurd (omega arith)
count-twice q f (suc n) i pos b e first = elim (Bool-cases (n == i)) [
  | inl last ↦
      let here = one-same q (f n) (ap f (==→eq n i last) ∙ e) in
      let rest = count-once q f n 0 (ground arith) first in omega arith
  | inr other ↦ let rest = count-twice q f n i pos (ground arith) e first in omega arith
]

record IsBuilt (ts : Timers) (c : ℕ) (before : Ptr → ℕ) (h : TimeHeap) : Type 0 where
  heap : IsHeap ts h
  size_is : h.cur_size ≡ c
  capacity : 0 < h.capacity
  counted : (q : Ptr) → count_in q h ≡ before q
  fresh : IsFresh h

add_timers-IsBuilt :
    (ts : Timers) (ps : List Ptr) (c : ℕ) (before : Ptr → ℕ) (h : TimeHeap)
    → All (IsLive ts) ps
    → IsBuilt ts c before h
    → Defined (IsBuilt ts (c + length ps) (λ q. before q + times q ps)) (add_timers ts ps h)
unfolding add_timers times
add_timers-IsBuilt ts [] c before h live is = defined (record {
  heap = is.heap;
  size_is = let size = is.size_is in omega arith;
  capacity = is.capacity;
  counted = λ q. let all = is.counted q in omega arith;
  fresh = is.fresh;
})
add_timers-IsBuilt ts (p ∷ ps) c before h (live, others) is =
    let size = is.size_is in
    let cap = is.capacity in
    Defined-bind (add_timer-IsInserted ts p live h is.heap cap) λ g s.
      let more = s.capacity_is in
      let next : IsBuilt ts (c + 1) (λ q. before q + one q p) g = record {
        heap = s.heap;
        size_is = s.size_is ∙ ap (λ (n : ℕ). n + 1) size;
        capacity = omega arith;
        counted = λ q. s.counted q ∙ ap (λ (n : ℕ). n + one q p) (is.counted q);
        fresh = s.fresh is.fresh;
      } in
      Defined-mono (add_timers-IsBuilt ts ps (c + 1) (λ q. before q + one q p) g others next)
        λ g' b. record {
          heap = b.heap;
          size_is = let size' = b.size_is in omega arith;
          capacity = b.capacity;
          counted = λ q. let all = b.counted q in omega arith;
          fresh = b.fresh;
        }

time_heap-IsBuilt : (ts : Timers) (cap : ℕ) → 0 < cap → IsBuilt ts 0 (λ _. 0) (time_heap cap)
unfolding time_heap IsFresh count
time_heap-IsBuilt ts cap pos = record {
  heap = record {
    room = length-replicate cap null;
    size = omega arith;
    alive = λ i b. absurd (omega arith);
    order = λ i p b. absurd (omega arith);
  };
  size_is = refl;
  capacity = pos;
  counted = λ q. refl;
  fresh = λ i b. at-replicate cap i;
}

-- A new heap, to which different live timers are added, at least two: every `add_timer` is defined, the
-- heap is in order, and `pop` of it is what `popped` says, with two rounds or more.
pub add_timers-pop :
    (ts : Timers) (ps : List Ptr) (cap k : ℕ)
    → All (IsLive ts) ps
    → ((q : Ptr) → times q ps ≤ 1)
    → 2 ≤ length ps
    → 0 < cap
    → Defined
        (λ h. IsHeap ts h × (pop (suc (suc k)) ts h ≡ popped ts h (length ps - 1)))
        (add_timers ts ps (time_heap cap))
unfolding IsFresh
add_timers-pop ts ps cap k live different several pos =
    Defined-mono
      (add_timers-IsBuilt ts ps 0 (λ _. 0) (time_heap cap) live (time_heap-IsBuilt ts cap pos))
      λ h is.
        let size = is.size_is in
        let once : (i : ℕ) → 0 < i → i < h.cur_size → at h.array i ≢ at h.array 0 = λ i p b same.
          let q = at h.array 0 in
          let twice = count-twice q (at h.array) h.cur_size i p b same refl in
          let counted = is.counted q in let single = different q in absurd (omega arith) in
        (
          is.heap,
          pop-popped ts h (length ps - 1) is.heap (omega arith) (omega arith) once is.fresh k,
        )
