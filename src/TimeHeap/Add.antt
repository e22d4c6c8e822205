-- ===== src/TimeHeap/Add.antt =====
-- `resize` and `add_timer`.
use mathlib.Core.Path.{fun_ext, subst}
use native.Mathlib.Numerals.{add-one}
use high_performance_linux_s.Base.{
  ℕ, zero, suc, ◌+◌, ◌*◌, ◌-◌, ◌/◌, ◌<◌, ◌≤◌, ◌≡◌, refl, ◌∙◌, sym, ap, List, arith, ◌==◌, leb,
  length, set, replicate, length-set, length-replicate, Bool-cases, inl, inr, ==→eq, ==→ne, ne→==,
  leb→le,
}
use high_performance_linux_s.Base.Partial.{Defined, defined, Defined-mono, Defined-bind}
use high_performance_linux_s.Nodes.{Ptr, null}
use high_performance_linux_s.TimeHeap.{Timers, TimeHeap, copy_loop, resize, place, add_timer}
use high_performance_linux_s.TimeHeap.Arrays.{
  at, fill, hit, miss, get_elem?-at, at-set, write-ok, key, IsLive, one, count, count-suc,
  count-same, IsHeap, count_in,
}
use high_performance_linux_s.TimeHeap.Rise.{HasHole, rise_lem}

-- The copied part of the array, and the rest.
record Copied (n i : ℕ) (source target r : List Ptr) : Type 0 where
  len : length r ≡ length target
  copied : (j : ℕ) → i ≤ j → j < i + n → at r j ≡ at source j
  rest : (j : ℕ) → j < i → at r j ≡ at target j
  behind : (j : ℕ) → i + n ≤ j → at r j ≡ at target j

copy_loop_lem :
    (n i : ℕ) (source target : List Ptr)
    → i + n ≤ length source
    → i + n ≤ length target
    → Defined (Copied n i source target) (copy_loop n i source target)
unfolding copy_loop
copy_loop_lem zero i source target s t = defined (record {
  len = refl;
  copied = λ j l b. absurd (omega arith);
  rest = λ j b. refl;
  behind = λ j b. refl;
})
copy_loop_lem (suc n) i source target s t =
    let p = at source i in
    let len = length-set target i p in
    rw (get_elem?-at source i (omega arith), write-ok target i p (omega arith))
      (Defined-mono (copy_loop_lem n (i + 1) source (set target i p) (omega arith) (omega arith))
        λ r c. record {
          len = c.len ∙ len;
          copied = λ j l b. elim (Bool-cases (j == i)) [
            | inl e ↦
                let same = ==→eq j i e in
                c.rest j (omega arith)
                ∙ at-set target i p j (omega arith)
                ∙ hit (at target) i p j e
                ∙ ap (at source) (sym same)
            | inr ne ↦ c.copied j (let other = ==→ne j i ne in omega arith) (omega arith)
          ];
          rest = λ j b.
              c.rest j (omega arith)
              ∙ at-set target i p j (omega arith)
              ∙ miss (at target) i p j (ground arith);
          behind = λ j b.
              c.behind j (omega arith)
              ∙ at-set target i p j (omega arith)
              ∙ miss (at target) i p j (ground arith);
        })

-- What holds below `cur_size` carries over to another array.
IsHeap-same :
    (ts : Timers) (h g : TimeHeap)
    → IsHeap ts h
    → g.cur_size ≡ h.cur_size
    → length g.array ≡ g.capacity
    → h.capacity ≤ g.capacity
    → ((i : ℕ) → i < h.cur_size → at g.array i ≡ at h.array i)
    → IsHeap ts g
IsHeap-same ts h g is size room cap same = record {
  room = room;
  size = let s = is.size in omega arith;
  alive = λ i b. rw (same i (omega arith)) (is.alive i (omega arith));
  order = λ i p b.
      rw (same i (omega arith), same ((i - 1) / 2) (omega arith)) (is.order i p (omega arith));
}

pub at-replicate : (n i : ℕ) → at (replicate n null) i ≡ null
unfolding at
at-replicate zero i = refl
at-replicate (suc n) zero = refl
at-replicate (suc n) (suc i) = at-replicate n i

-- Behind its timers the array holds null.
unfoldable pub IsFresh : TimeHeap → Type 0
IsFresh h = (i : ℕ) → h.cur_size ≤ i → at h.array i ≡ null

-- What `resize` should do.
pub record IsResized (ts : Timers) (h g : TimeHeap) : Type 0 where
  pub heap : IsHeap ts g
  pub capacity_is : g.capacity ≡ h.capacity * 2
  pub size_is : g.cur_size ≡ h.cur_size
  pub entries : (i : ℕ) → i < h.cur_size → at g.array i ≡ at h.array i
  pub behind : (i : ℕ) → h.cur_size ≤ i → at g.array i ≡ null

-- `resize` of a valid heap is defined: the capacity is doubled, and the heap holds the same timers in
-- the same places, and null behind them.
pub resize-IsResized :
    (ts : Timers) (h : TimeHeap) → IsHeap ts h → Defined (IsResized ts h) (resize h)
unfolding resize
resize-IsResized ts h is =
    let s = is.size in
    let r = is.room in
    let len = length-replicate (h.capacity * 2) null in
    Defined-bind
      (copy_loop_lem h.cur_size 0 h.array (replicate (h.capacity * 2) null) (omega arith)
        (omega arith))
      λ a c.
        let g : TimeHeap = record { array = a; capacity = h.capacity * 2; cur_size = h.cur_size } in
        let same = λ (i : ℕ) (b : i < h.cur_size). c.copied i (omega arith) (omega arith) in
        defined (record {
          heap = IsHeap-same ts h g is refl (c.len ∙ len) (omega arith) same;
          capacity_is = refl;
          size_is = refl;
          entries = same;
          behind = λ i b. c.behind i (omega arith) ∙ at-replicate (h.capacity * 2) i;
        })

-- What `add_timer` should do.
pub record IsInserted (ts : Timers) (timer : Ptr) (h g : TimeHeap) : Type 0 where
  pub heap : IsHeap ts g
  pub size_is : g.cur_size ≡ h.cur_size + 1
  pub counted : (q : Ptr) → count_in q g ≡ count_in q h + one q timer
  pub capacity_is : h.capacity ≤ g.capacity
  pub fresh : IsFresh h → IsFresh g

module _ (ts : Timers) (timer : Ptr) (live : IsLive ts timer) where
  place_lem :
      (h : TimeHeap)
      → IsHeap ts h
      → h.cur_size < h.capacity
      → Defined (IsInserted ts timer h) (place ts timer h)
  unfolding place IsFresh
  place_lem h is space =
      let n = h.cur_size in
      let a = h.array in
      let r = is.room in
      let inside : (i : ℕ) → i < n → fill (at a) n timer i ≡ at a i =
        λ i b. miss (at a) n timer i (ground arith) in
      let hole : HasHole ts timer live n (at a) n = record {
        bound = omega arith;
        alive = λ i b ne. is.alive i (omega arith);
        order = λ i p b ne. rw (inside ((i - 1) / 2) (omega arith)) (is.order i p (omega arith));
        skip = λ i p q b e. absurd (omega arith);
      } in
      Defined-bind (rise_lem ts timer live n n a n (omega arith) hole (omega arith)) λ (a', end) s.
        let len = s.len in
        let b = s.bound in
        let final : fill (at a') end timer ≡ at (set a' end timer) =
          fun_ext (λ j. sym (at-set a' end timer j (omega arith))) in
        let len' = length-set a' end timer in
        rw (write-ok a' end timer (omega arith)) (
          defined (record {
            heap = record {
              room = len' ∙ len ∙ r;
              size = omega arith;
              alive =
                  subst (λ (A : ℕ → Ptr). (i : ℕ) → i < n + 1 → IsLive ts (A i)) final
                    λ i c. elim (Bool-cases (i == end)) [
                      | inl e ↦ rw (hit (at a') end timer i e) live
                      | inr ne ↦
                          rw (miss (at a') end timer i ne)
                            (s.alive i (omega arith) (==→ne i end ne))
                    ];
              order =
                  subst
                    (λ (A : ℕ → Ptr).
                      (i : ℕ) → 0 < i → i < n + 1 → key ts (A ((i - 1) / 2)) ≤ key ts (A i))
                    final λ i p c. s.order i p (omega arith);
            };
            size_is = refl;
            capacity_is = omega arith;
            fresh = λ clear i far.
                at-set a' end timer i (omega arith)
                ∙ miss (at a') end timer i (ground arith)
                ∙ s.behind i (omega arith)
                ∙ clear i (omega arith);
            counted = λ q.
                let last : one q (fill (at a) n timer n) ≡ one q timer =
                  ap (one q) (hit (at a) n timer n (ground arith)) in
                let others = count-same q (fill (at a) n timer) (at a) n inside in
                let all = s.counted q in
                let moved = ap (λ (A : ℕ → Ptr). count q A (suc n)) final in
                let split = count-suc q (fill (at a) n timer) n in rw (add-one n) (omega arith);
          }))

  -- `add_timer` of a live timer to a valid heap whose capacity is not 0 is defined, also when the
  -- array is full and grows first: the heap is valid, it holds each timer as often as before
  -- and the new one once more, and null behind the timers if that was so before.
  pub add_timer-IsInserted :
      (h : TimeHeap)
      → IsHeap ts h
      → 0 < h.capacity
      → Defined (IsInserted ts timer h) (add_timer ts timer h)
  unfolding add_timer IsFresh
  add_timer-IsInserted h is cap =
      let size = is.size in
      rw (ne→== timer null live.0) (elim (Bool-cases (leb h.capacity h.cur_size)) [
        | inl full ↦
            let c = leb→le _ _ full in
            rw full (
              Defined-bind (resize-IsResized ts h is) λ g r.
                let double = r.capacity_is in
                let same = r.size_is in
                Defined-mono (place_lem g r.heap (omega arith)) λ g' s. record {
                  heap = s.heap;
                  size_is = s.size_is ∙ ap (λ (n : ℕ). n + 1) same;
                  capacity_is = let more = s.capacity_is in omega arith;
                  fresh = λ clear. s.fresh λ i b. r.behind i (omega arith);
                  counted = λ q.
                      s.counted q
                      ∙ ap (λ (x : ℕ). x + one q timer)
                          (ap (λ (n : ℕ). count q (at g.array) n) same
                            ∙ count-same q (at g.array) (at h.array) h.cur_size r.entries);
                })
        | inr room ↦ rw room (place_lem h is (ground arith))
      ])
