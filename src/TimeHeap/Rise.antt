-- ===== src/TimeHeap/Rise.antt =====
-- The loop of `add_timer`.
use mathlib.Core.Path.{fun_ext, subst}
use high_performance_linux_s.Base.{
  ℕ, zero, suc, ◌-◌, ◌/◌, ◌<◌, ◌≤◌, ◌≡◌, refl, ◌∙◌, sym, ◌≢◌, ap, true, false, List, arith, ◌==◌,
  leb, length, set, length-set, Bool-cases, inl, inr, ==→eq, ==→ne, leb→le,
}
use high_performance_linux_s.Base.Partial.{Defined, defined, Defined-mono}
use high_performance_linux_s.Nodes.{Ptr}
use high_performance_linux_s.TimeHeap.{Timers, rise}
use high_performance_linux_s.TimeHeap.Arrays.{
  at, fill, miss, get_elem?-at, at-set, write-ok, key, IsLive, load-live, expire_at-ok, one, count,
  count-fill,
}

module _ (ts : Timers) (timer : Ptr) (live : IsLive ts timer) (n : ℕ) where
  -- The array with the timer in the hole is in order along every edge, but for the one above the
  -- hole; `A` is the array as a function.
  pub record HasHole (A : ℕ → Ptr) (hole : ℕ) : Type 0 where
    pub bound : hole ≤ n
    pub alive : (i : ℕ) → i ≤ n → i ≢ hole → IsLive ts (A i)
    pub order :
        (i : ℕ) → 0 < i → i ≤ n → i ≢ hole → key ts (fill A hole timer ((i - 1) / 2)) ≤ key ts (A i)
    pub skip :
        (i : ℕ)
        → 0 < hole
        → 0 < i
        → i ≤ n
        → (i - 1) / 2 ≡ hole
        → key ts (A ((hole - 1) / 2)) ≤ key ts (A i)

  -- One round: the parent moves into the hole.
  module _ (A : ℕ → Ptr) (hole : ℕ) (is : HasHole A hole) (pos : 0 < hole) where
    abbrev parent : ℕ
    parent = (hole - 1) / 2

    abbrev moved : ℕ → Ptr
    moved = fill A hole (A parent)

    moved-order :
        key ts timer < key ts (A parent)
        → (i : ℕ) → 0 < i
        → i ≤ n
        → i ≢ parent
        → key ts (fill moved parent timer ((i - 1) / 2)) ≤ key ts (moved i)
    unfolding fill
    moved-order lt i p b ne = elim (Bool-cases (i == hole)) [
      | inl e ↦ let up : ((i - 1) / 2 == parent) ≡ true = ground arith in rw (e, up) (omega arith)
      | inr other ↦
          let old = is.order i p b (==→ne _ _ other) in
          elim (Bool-cases ((i - 1) / 2 == parent)) [
            | inl e ↦
                let up : A ((i - 1) / 2) ≡ A parent = ap A (==→eq _ _ e) in
                let far : ((i - 1) / 2 == hole) ≡ false = ground arith in
                let above : key ts (A parent) ≤ key ts (A i) = rw⁻¹ up (rw far at old) in
                rw (other, e) (omega arith)
            | inr far ↦ elim (Bool-cases ((i - 1) / 2 == hole)) [
              | inl e ↦ rw (other, far, e) (is.skip i pos p b (==→eq _ _ e))
              | inr further ↦ rw (other, far, further) (rw further at old)
            ]
          ]
    ]

    moved-HasHole : key ts timer < key ts (A parent) → HasHole moved parent
    unfolding fill
    moved-HasHole lt = record {
      bound = let b = is.bound in omega arith;
      alive = λ i b ne. elim (Bool-cases (i == hole)) [
        | inl e ↦
            let up = is.alive parent (let c = is.bound in omega arith) (omega arith) in rw e up
        | inr other ↦ rw other (is.alive i b (==→ne _ _ other))
      ];
      order = moved-order lt;
      skip = λ i p q b e.
          let c = is.bound in
          let far : ((parent - 1) / 2 == hole) ≡ false = ground arith in
          let over : key ts (A ((parent - 1) / 2)) ≤ key ts (A parent) =
            (let top = is.order parent p (omega arith) (omega arith) in rw far at top) in
          rw far (elim (Bool-cases (i == hole)) [
            | inl same ↦ rw same over
            | inr other ↦
                let old = is.order i q b (==→ne _ _ other) in
                let up : A ((i - 1) / 2) ≡ A parent = ap A e in
                let beside : ((i - 1) / 2 == hole) ≡ false = ground arith in
                let below : key ts (A parent) ≤ key ts (A i) = rw⁻¹ up (rw beside at old) in
                rw other (omega arith)
          ]);
    }

    moved-count :
        (q : Ptr) → count q (fill moved parent timer) (suc n) ≡ count q (fill A hole timer) (suc n)
    unfolding fill
    moved-count q =
        let b = is.bound in
        let first = count-fill q moved parent timer (suc n) (omega arith) in
        let second = count-fill q A hole (A parent) (suc n) (omega arith) in
        let third = count-fill q A hole timer (suc n) (omega arith) in
        let far : (parent == hole) ≡ false = ground arith in
        let here : one q (moved parent) ≡ one q (A parent) = rw far refl in omega arith

  pub record Risen (a : List Ptr) (hole : ℕ) (r : List Ptr × ℕ) : Type 0 where
    pub len : length r.0 ≡ length a
    pub bound : r.1 ≤ n
    pub behind : (i : ℕ) → n < i → at r.0 i ≡ at a i
    pub alive : (i : ℕ) → i ≤ n → i ≢ r.1 → IsLive ts (at r.0 i)
    pub order :
        (i : ℕ)
        → 0 < i
        → i ≤ n
        → key ts (fill (at r.0) r.1 timer ((i - 1) / 2)) ≤ key ts (fill (at r.0) r.1 timer i)
    pub counted :
        (q : Ptr)
        → count q (fill (at r.0) r.1 timer) (suc n) ≡ count q (fill (at a) hole timer) (suc n)

  -- The loop stops where the order holds above the hole too.
  stop :
      (a : List Ptr) (hole : ℕ)
      → HasHole (at a) hole
      → (0 < hole → key ts (at a ((hole - 1) / 2)) ≤ key ts timer)
      → Risen a hole (a, hole)
  unfolding fill
  stop a hole is top = record {
    len = refl;
    bound = is.bound;
    behind = λ i lt. refl;
    alive = is.alive;
    order = λ i p b. elim (Bool-cases (i == hole)) [
      | inl e ↦
          let same : i ≡ hole = ==→eq _ _ e in
          let up : at a ((i - 1) / 2) ≡ at a ((hole - 1) / 2) =
            ap (λ (x : ℕ). at a ((x - 1) / 2)) same in
          let far : ((i - 1) / 2 == hole) ≡ false = ground arith in
          rw (e, far, up) (top (omega arith))
      | inr other ↦ rw other (is.order i p b (==→ne _ _ other))
    ];
    counted = λ q. refl;
  }

  pub rise_lem :
      (k : ℕ) (a : List Ptr) (hole : ℕ)
      → n < length a
      → HasHole (at a) hole
      → hole ≤ k
      → Defined (Risen a hole) (rise k ts timer a hole)
  unfolding rise
  rise_lem zero a hole room is fuel =
      let e : (hole == 0) ≡ true = ground arith in
      rw e (defined (stop a hole is λ p. absurd (omega arith)))
  rise_lem (suc k) a hole room is fuel = elim (Bool-cases (hole == 0)) [
    | inl e ↦ rw e (defined (stop a hole is λ p. absurd (ground arith)))
    | inr ne ↦
        let p : 0 < hole = ground arith in
        let b = is.bound in
        let up = (hole - 1) / 2 in
        let above = is.alive up (omega arith) (omega arith) in
        let (t, at_timer, k_timer) = load-live ts timer live in
        rw (ne, expire_at-ok ts a up (omega arith) above, at_timer)
          (elim (Bool-cases (leb (key ts (at a up)) t.expire)) [
            | inl le ↦ let fits = leb→le _ _ le in rw le (defined (stop a hole is λ _. omega arith))
            | inr gt ↦
                let lt : key ts timer < key ts (at a up) = ground arith in
                let a' = set a hole (at a up) in
                let same : fill (at a) hole (at a up) ≡ at a' =
                  fun_ext (λ j. sym (at-set a hole (at a up) j (omega arith))) in
                let len = length-set a hole (at a up) in
                rw (gt, get_elem?-at a up (omega arith), write-ok a hole (at a up) (omega arith))
                  (Defined-mono
                    (rise_lem k a' up (omega arith)
                      (subst (λ A. HasHole A up) same (moved-HasHole (at a) hole is p lt))
                      (omega arith))
                    λ r s. record {
                      len = s.len ∙ len;
                      bound = s.bound;
                      behind = λ i far.
                          s.behind i far
                          ∙ at-set a hole (at a up) i (omega arith)
                          ∙ miss (at a) hole (at a up) i (ground arith);
                      alive = s.alive;
                      order = s.order;
                      counted = λ q.
                          s.counted q
                          ∙ ap (λ (A : ℕ → Ptr). count q (fill A up timer) (suc n)) (sym same)
                          ∙ moved-count (at a) hole is p q;
                    })
          ])
  ]
