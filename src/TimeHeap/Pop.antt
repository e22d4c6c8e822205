-- ===== src/TimeHeap/Pop.antt =====
-- `pop` of a heap to which timers have only been added.
use mathlib.Core.Path.{subst}
use high_performance_linux_s.Base.{
  ℕ, zero, suc, ◌+◌, ◌-◌, ◌*◌, ◌/◌, ◌<◌, ◌≤◌, ◌≡◌, refl, ◌∙◌, sym, ap, ◌≢◌, false, ◌&&◌, Option,
  none, some, List, [], ◌∷◌, arith, ltb, leb, ◌==◌, if◌then◌else◌, length, get_elem?, set,
  length-set, Bool-cases, inl, inr, ne→==,
}
use high_performance_linux_s.Base.Partial.{◌>>=◌}
use high_performance_linux_s.Nodes.{Ptr, null}
use high_performance_linux_s.TimeHeap.{
  HeapTimer, Timers, TimeHeap, load, put, free, write, expire_at, empty, sink, percolate_down, pop,
}
use high_performance_linux_s.TimeHeap.Arrays.{
  at, get_elem?-at, write-ok, key, IsLive, expire_at-ok, IsHeap,
}
use high_performance_linux_s.TimeHeap.Sink.{expire_at-set_root, HasExpiries, least, sink-root}

-- The child of the root that `percolate_down` compares, when `n` timers are left.
unfoldable pub smaller : Timers → List Ptr → (n : ℕ) → ℕ
smaller ts a n = if ltb 1 n && ltb (key ts (at a 2)) (key ts (at a 1)) then 2 else 1

-- What `pop` comes to, for `n + 1` timers: the last timer replaces the root if it expires no later
-- than the root's children; otherwise the child moves up, and the last timer takes its place, whatever
-- stands below; if nothing does, an entry behind the timers is read.
unfoldable pub popped : Timers → TimeHeap → (n : ℕ) → Option (Timers × TimeHeap)
unfolding smaller
popped ts h n =
    let a = h.array in
    let c = smaller ts a n in
    let left : Timers = put ts (at a 0) none in
    if leb (key ts (at a n)) (key ts (at a c))
    then some (left, record h { array = set a 0 (at a n); cur_size = n })
    else if leb (c * 2 + 1) n
    then some (left, record h { array = set (set a 0 (at a c)) c (at a n); cur_size = n })
    else none

-- Writes to the root.
set_root-twice : (p q : Ptr) (a : List Ptr) → set (set a 0 p) 0 q ≡ set a 0 q
set_root-twice p q [] = refl
set_root-twice p q (x ∷ a) = refl

at-set_root : (p : Ptr) (a : List Ptr) → 0 < length a → at (set a 0 p) 0 ≡ p
unfolding at
at-set_root p [] lt = absurd (omega arith)
at-set_root p (x ∷ a) lt = refl

at-set_other : (p : Ptr) (a : List Ptr) (i : ℕ) → 0 < i → at (set a 0 p) i ≡ at a i
unfolding at
at-set_other p [] i lt = refl
at-set_other p (x ∷ a) zero lt = absurd (omega arith)
at-set_other p (x ∷ a) (suc i) lt = refl

expire_at-null : (ts : Timers) (a : List Ptr) (i : ℕ) → at a i ≡ null → expire_at ts a i ≡ none
unfolding expire_at at load
expire_at-null ts [] i e = refl
expire_at-null ts (x ∷ a) zero e = rw e refl
expire_at-null ts (x ∷ a) (suc i) e = expire_at-null ts a i e

-- A timer that is deleted leaves the others.
module _ (ts : Timers) (p q : Ptr) (ne : q ≢ p) where
  put-far : put ts p none q ≡ ts q
  unfolding put
  put-far = rw (ne→== q p ne) refl

  key-far : key (put ts p none) q ≡ key ts q
  unfolding key
  key-far = ap (λ (t : Option HeapTimer). elim t [ none ↦ 0 | some v ↦ v.expire ]) put-far

  IsLive-far : IsLive ts q → IsLive (put ts p none) q
  IsLive-far (nn, t, e) = (nn, t, put-far ∙ e)

module _ (ts : Timers) (h : TimeHeap) (n : ℕ) (is : IsHeap ts h) (size_is : h.cur_size ≡ suc n)
    (pos : 0 < n) (once : (i : ℕ) → 0 < i → i < h.cur_size → at h.array i ≢ at h.array 0)
    (fresh : (i : ℕ) → h.cur_size ≤ i → at h.array i ≡ null) where
  abbrev array : List Ptr
  array = h.array

  abbrev left : Timers
  left = put ts (at array 0) none

  abbrev moved : List Ptr
  moved = set array 0 (at array n)

  expiry : ℕ → ℕ
  expiry i = key ts (at array i)

  order : (i : ℕ) → 2 < i → i ≤ n → expiry ((i - 1) / 2) ≤ expiry i
  unfolding expiry
  order i lt b = is.order i (omega arith) (omega arith)

  room : n < length array
  room = omega (arith, is.room, is.size)

  expire_at-left : (i : ℕ) → 0 < i → i ≤ n → expire_at left array i ≡ some (expiry i)
  unfolding expiry
  expire_at-left i lt b =
      let ne = once i lt (omega arith) in
      expire_at-ok left array i (omega (arith, room))
        (IsLive-far ts (at array 0) (at array i) ne (is.alive i (omega arith)))
      ∙ ap some (key-far ts (at array 0) (at array i) ne)

  moved-HasExpiries : HasExpiries left n expiry order moved
  moved-HasExpiries = record {
    stands = λ i lt b. expire_at-set_root left (at array n) array i lt ∙ expire_at-left i lt b;
    behind = λ i lt.
        expire_at-set_root left (at array n) array i (omega arith)
        ∙ expire_at-null left array i (fresh i (omega arith));
  }

  moved-root : expire_at left moved 0 ≡ some (key ts (at array n))
  moved-root =
      let ne = once n pos (omega arith) in
      let here = at-set_root (at array n) array (omega (arith, room)) in
      let alive = IsLive-far ts (at array 0) (at array n) ne (is.alive n (omega arith)) in
      expire_at-ok left moved 0 (omega (arith, room, length-set array 0 (at array n)))
        (subst (IsLive left) (sym here) alive)
      ∙ ap some (ap (key left) here ∙ key-far ts (at array 0) (at array n) ne)

  least-smaller : least left n expiry order ≡ smaller ts array n
  unfolding least smaller expiry
  least-smaller = refl

  smaller-bounds : (0 < smaller ts array n) × (smaller ts array n ≤ n)
  unfolding smaller
  smaller-bounds = ground (arith, pos)

  abbrev last : Ptr
  last = at array n

  room-set : (p : Ptr) → n < length (set array 0 p)
  room-set p = omega (arith, room, length-set array 0 p)

  moved-first : get_elem? moved 0 ≡ some last
  moved-first =
      get_elem?-at moved 0 (omega (arith, room-set last))
      ∙ ap some (at-set_root last array (omega (arith, room)))

  write-root : write moved 0 last ≡ some moved
  write-root =
      write-ok moved 0 last (omega (arith, room-set last))
      ∙ ap some (set_root-twice last last array)

  write-child :
      (c : ℕ)
      → 0 < c
      → c ≤ n
      → write (set moved 0 (at moved c)) c last ≡ some (set (set array 0 (at array c)) c last)
  write-child c lt b =
      let up =
        set_root-twice last (at moved c) array ∙ ap (set array 0) (at-set_other last array c lt) in
      ap (λ (a : List Ptr). write a c last) up
      ∙ write-ok (set array 0 (at array c)) c last (omega (arith, room-set (at array c)))

  -- What `percolate_down` does behind its loop.
  finish : Option (List Ptr × ℕ) → Option TimeHeap
  finish r = do (a, end) ← r; a' ← write a end last; some (record h { array = a'; cur_size = n })

  percolate_down-finish :
      (k : ℕ)
      → percolate_down k left (record h { array = moved; cur_size = n }) 0
        ≡ finish (sink k left n moved 0)
  unfolding percolate_down finish
  percolate_down-finish k = rw moved-first refl

  finish-popped :
      let c = smaller ts array n in
      finish (
        if leb (key ts last) (key ts (at array c))
        then some (moved, 0)
        else if leb (c * 2 + 1) n
        then some (set moved 0 (at moved c), c)
        else none)
      ≡ (if leb (key ts last) (key ts (at array c))
          then some (record h { array = moved; cur_size = n })
          else if leb (c * 2 + 1) n
          then some (record h { array = set (set array 0 (at array c)) c last; cur_size = n })
          else none)
  unfolding finish
  finish-popped =
      let c = smaller ts array n in
      let (lt, b) = smaller-bounds in
      elim (Bool-cases (leb (key ts last) (key ts (at array c)))) [
        | inl le ↦ rw (le, write-root) refl
        | inr gt ↦ elim (Bool-cases (leb (c * 2 + 1) n)) [
          | inl inside ↦ rw (gt, inside, write-child c lt b) refl
          | inr outside ↦ rw (gt, outside) refl
        ]
      ]

  percolate_down-popped :
      (k : ℕ)
      → let c = smaller ts array n in
        percolate_down (suc (suc k)) left (record h { array = moved; cur_size = n }) 0 ≡ (
          if leb (key ts last) (key ts (at array c))
          then some (record h { array = moved; cur_size = n })
          else if leb (c * 2 + 1) n
          then some (record h { array = set (set array 0 (at array c)) c last; cur_size = n })
          else none)
  unfolding smaller least expiry
  percolate_down-popped k =
      percolate_down-finish (suc (suc k))
      ∙ ap finish (
          sink-root left n expiry order (key ts last) moved moved-HasExpiries moved-root pos
            (room-set last) k)
      ∙ finish-popped

  pop-step :
      (k : ℕ)
      → pop k ts h ≡ (do
        h' ← percolate_down k left (record h { array = moved; cur_size = n }) 0
        some (left, h'))
  unfolding pop empty free
  pop-step k =
      let (nn, t, e) = is.alive 0 (omega arith) in
      let some_left : (h.cur_size == 0) ≡ false = ground arith in
      let smaller_by_one : h.cur_size - 1 ≡ n = omega arith in
      rw (some_left, get_elem?-at array 0 (omega (arith, room)))
        (rw (ne→== (at array 0) null nn) (
          rw e (
            rw
              (
                smaller_by_one,
                get_elem?-at array n room,
                write-ok array 0 (at array n) (omega (arith, room)),
              )
              refl)))

  -- `pop` of a heap of at least two timers, the first of which stands in it once, with null behind the
  -- last, is what `popped` says, with two rounds of the loop or more.
  pub pop-popped : (k : ℕ) → pop (suc (suc k)) ts h ≡ popped ts h n
  unfolding popped
  pop-popped k =
      let c = smaller ts array n in
      pop-step (suc (suc k))
      ∙ rw (percolate_down-popped k) (elim (Bool-cases (leb (key ts last) (key ts (at array c)))) [
        | inl le ↦ rw le refl
        | inr gt ↦ elim (Bool-cases (leb (c * 2 + 1) n)) [
          | inl inside ↦ rw (gt, inside) refl
          | inr outside ↦ rw (gt, outside) refl
        ]
      ])
