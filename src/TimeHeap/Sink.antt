-- ===== src/TimeHeap/Sink.antt =====
-- The loop of `percolate_down` at the root, over timers that stand in order everywhere below it.
use mathlib.Core.Path.{subst}
use high_performance_linux_s.Base.{
  ℕ, zero, suc, ◌+◌, ◌-◌, ◌*◌, ◌/◌, ◌<◌, ◌≤◌, ◌≡◌, refl, ◌∙◌, ap, true, false, ◌&&◌, Option, none,
  some, List, [], ◌∷◌, arith, ltb, leb, if◌then◌else◌, length, get_elem?, set, Bool-cases, inl, inr,
}
use high_performance_linux_s.Base.Partial.{◌>>=◌}
use high_performance_linux_s.Nodes.{Ptr}
use high_performance_linux_s.TimeHeap.{Timers, write, expire_at, take_right, sink}
use high_performance_linux_s.TimeHeap.Arrays.{at, get_elem?-at, write-ok}

pub expire_at-set_root :
    (ts : Timers) (p : Ptr) (a : List Ptr) (i : ℕ)
    → 0 < i
    → expire_at ts (set a 0 p) i ≡ expire_at ts a i
unfolding expire_at
expire_at-set_root ts p [] i lt = refl
expire_at-set_root ts p (x ∷ a) zero lt = absurd (omega arith)
expire_at-set_root ts p (x ∷ a) (suc i) lt = refl

-- `sink` over an array whose entries from 1 to `n` have the expiries `expiry`.
module _ (ts : Timers) (n : ℕ) (expiry : ℕ → ℕ)
    (order : (i : ℕ) → 2 < i → i ≤ n → expiry ((i - 1) / 2) ≤ expiry i) where
  pub record HasExpiries (a : List Ptr) : Type 0 where
    pub stands : (i : ℕ) → 0 < i → i ≤ n → expire_at ts a i ≡ some (expiry i)
    pub behind : (i : ℕ) → n < i → expire_at ts a i ≡ none

  not_less : (c i : ℕ) → (i - 1) / 2 ≡ c → 2 < i → i ≤ n → ltb (expiry i) (expiry c) ≡ false
  not_less c i e lt b =
      let above : expiry c ≤ expiry i = subst (λ (x : ℕ). expiry x ≤ expiry i) e (order i lt b) in
      ground arith

  -- Below a child of the root the loop stops, since it compares that child, not the timer that sinks.
  sink-stops :
      (k c : ℕ) (a : List Ptr)
      → HasExpiries a
      → 0 < c
      → c ≤ n
      → sink (suc k) ts n a c ≡ (if leb (c * 2 + 1) n then some (a, c) else none)
  unfolding sink take_right
  sink-stops k c a has p b =
      let deeper : ltb 0 (c * 2) ≡ true = ground arith in
      let here = has.stands c p b in
      elim (Bool-cases (ltb (c * 2 + 1) n)) [
        | inl lt ↦
            let inside : leb (c * 2 + 1) n ≡ true = ground arith in
            let left = has.stands (c * 2 + 1) (omega arith) (ground arith) in
            let right = has.stands (c * 2 + 1 + 1) (omega arith) (ground arith) in
            rw (deeper, lt, right, left, inside)
              (elim (Bool-cases (ltb (expiry (c * 2 + 1 + 1)) (expiry (c * 2 + 1)))) [
                | inl r ↦
                    rw
                      (
                        r,
                        here,
                        has.stands (c * 2 + 2) (omega arith) (ground arith),
                        not_less c (c * 2 + 2) (omega arith) (omega arith) (ground arith),
                      )
                      refl
                | inr l ↦
                    rw
                      (
                        l,
                        here,
                        left,
                        not_less c (c * 2 + 1) (omega arith) (omega arith) (ground arith),
                      )
                      refl
              ])
        | inr ge ↦ elim (Bool-cases (leb (c * 2 + 1) n)) [
          | inl inside ↦
              let left = has.stands (c * 2 + 1) (omega arith) (ground arith) in
              let no_less : ltb (expiry (c * 2 + 1)) (expiry c) ≡ false =
                not_less c (c * 2 + 1) (omega arith) (omega arith) (ground arith) in
              rw (deeper, ge, here, left, no_less, inside) refl
          | inr outside ↦
              let left = has.behind (c * 2 + 1) (ground arith) in
              rw (deeper, ge, here, left, outside) refl
        ]
      ]

  -- An entry at the root does not matter further down.
  pub HasExpiries-root : (p : Ptr) (a : List Ptr) → HasExpiries a → HasExpiries (set a 0 p)
  HasExpiries-root p a has = record {
    stands = λ i lt b. expire_at-set_root ts p a i lt ∙ has.stands i lt b;
    behind = λ i lt. expire_at-set_root ts p a i (omega arith) ∙ has.behind i lt;
  }

  unfoldable pub least : ℕ
  least = if ltb 1 n && ltb (expiry 2) (expiry 1) then 2 else 1

  module _ (e : ℕ) (a : List Ptr) (has : HasExpiries a) (root : expire_at ts a 0 ≡ some e)
      (pos : 0 < n) (room : n < length a) where
    -- The comparison of the root, which expires at `e`, with a child.
    compare_root :
        (j d : ℕ)
        → 0 < d
        → d ≤ n
        → (do
          x ← expire_at ts a 0
          c ← expire_at ts a d
          if ltb c x
              then (do p ← get_elem? a d; a' ← write a 0 p; sink j ts n a' d)
              else some (a, 0))
          ≡ (if leb e (expiry d) then some (a, 0) else sink j ts n (set a 0 (at a d)) d)
    compare_root j d lt b = elim (Bool-cases (leb e (expiry d))) [
      | inl le ↦
          let no_less : ltb (expiry d) e ≡ false = ground arith in
          rw (root, has.stands d lt b, le, no_less) refl
      | inr gt ↦
          let less : ltb (expiry d) e ≡ true = ground arith in
          rw (root, has.stands d lt b, gt, less)
            (rw (get_elem?-at a d (omega arith), write-ok a 0 (at a d) (omega arith)) refl)
    ]

    sink-first :
        (j : ℕ)
        → sink (suc j) ts n a 0
          ≡ (if leb e (expiry least) then some (a, 0) else sink j ts n (set a 0 (at a least)) least)
    unfolding sink take_right least
    sink-first j =
        let some_left : leb 1 n ≡ true = ground arith in
        elim (Bool-cases (ltb 1 n)) [
          | inl lt ↦
              let two = has.stands 2 (omega arith) (ground arith) in
              let one = has.stands 1 (omega arith) (ground arith) in
              elim (Bool-cases (ltb (expiry 2) (expiry 1))) [
                | inl r ↦
                    rw (some_left, lt, two, one, r) (compare_root j 2 (omega arith) (ground arith))
                | inr l ↦
                    rw (some_left, lt, two, one, l) (compare_root j 1 (omega arith) (omega arith))
              ]
          | inr ge ↦ rw (some_left, ge) (compare_root j 1 (omega arith) (omega arith))
        ]

    pub least-bounds : (0 < least) × (least ≤ n)
    unfolding least
    least-bounds = ground arith

    pub sink-root :
        (k : ℕ)
        → sink (suc (suc k)) ts n a 0 ≡ (
            if leb e (expiry least)
            then some (a, 0)
            else if leb (least * 2 + 1) n
            then some (set a 0 (at a least), least)
            else none)
    sink-root k =
        let (lt, b) = least-bounds in
        sink-first (suc k)
        ∙ ap (λ (r : Option (List Ptr × ℕ)). if leb e (expiry least) then some (a, 0) else r)
            (sink-stops k least _ (HasExpiries-root (at a least) a has) lt b)
