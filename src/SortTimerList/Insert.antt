-- ===== src/SortTimerList/Insert.antt =====
-- The two `add_timer`s.
use high_performance_linux_s.Base.{
  ℕ, zero, suc, ◌<◌, ◌≤◌, ◌≡◌, refl, ◌≢◌, true, false, some, [], ◌∷◌, arith, ltb, ◌==◌, length,
  Bool-cases, inl, inr, ne→==,
}
use high_performance_linux_s.Nodes.{Ptr, null, node, Store, write}
use high_performance_linux_s.Nodes.Returns.{Returns, returns, Returns-mono}
use high_performance_linux_s.Nodes.Links.{
  has, first, last, Links, Links-write, SameOutside, load-ok, set_next-ok, set_prev-ok,
}
use high_performance_linux_s.SortTimerList.{
  UtilTimer, TimerCells, TimerList, add_loop, add_timer_after, add_timer, IsList, ends, at_head,
}
use high_performance_linux_s.SortTimerList.Order.{
  insert, has-insert, insert-nil, insert_before, insert_after,
}

-- After the loop that started behind the node `p`.
pub record Added (h : Store UtilTimer) (pv p : Ptr) (v : UtilTimer) (t : Ptr) (tv : UtilTimer)
    (xs : TimerCells) (l l' : TimerList) (g : Store UtilTimer) : Type 0 where
  pub links : Links g pv ((p, v) ∷ insert (t, tv) xs) null
  pub head : l'.head ≡ l.head
  pub tail : l.tail ≡ last p xs → l'.tail ≡ last p (insert (t, tv) xs)
  pub same : SameOutside ((t, tv) ∷ (p, v) ∷ xs) h g

module _ (t : Ptr) (tv : UtilTimer) (tp tn : Ptr) (tne : t ≢ null) where
  add_loop-nil :
      (k : ℕ) (h : Store UtilTimer) (pv p : Ptr) (v : UtilTimer) (l : TimerList)
      → h t ≡ some (node tv tp tn)
      → (t == p) ≡ false
      → Links h pv ((p, v) ∷ []) null
      → Returns (Added h pv p v t tv [] l) (add_loop (suc k) t p null l h)
  unfolding add_loop write
  add_loop-nil k h pv p v l at ne ls =
      let h₁ = write h p (some (node v pv t)) in
      let h₂ = write h₁ t (some (node tv p tn)) in
      rw (set_next-ok h p _ ls.1 ls.0 t) (
        rw (set_prev-ok h₁ t (node tv tp tn) tne (ground arith) p) (
          rw (set_next-ok h₂ t (node tv p tn) tne (ground arith) null) (
            returns (record {
              links =
                  rw (insert-nil t tv)
                    (ground arith, ls.1, ground arith, (ground arith, tne, refl, tt));
              head = refl;
              tail = λ _. rw (insert-nil t tv);
              same = λ a o. ground arith;
            }))))

  add_loop-before :
      (k : ℕ) (h : Store UtilTimer) (pv p : Ptr) (v : UtilTimer) (q : Ptr) (w : UtilTimer)
      (xs : TimerCells) (l : TimerList)
      → h t ≡ some (node tv tp tn)
      → has t ((p, v) ∷ (q, w) ∷ xs) ≡ false
      → Links h pv ((p, v) ∷ (q, w) ∷ xs) null
      → ltb tv.expire w.expire ≡ true
      → Returns (Added h pv p v t tv ((q, w) ∷ xs) l) (add_loop (suc k) t p q l h)
  unfolding add_loop write
  add_loop-before k h pv p v q w xs l at out ls lt =
      let (hp, pne, pout, (hq, qne, qout, rest)) = ls in
      let h₁ = write h p (some (node v pv t)) in
      let h₂ = write h₁ t (some (node tv tp q)) in
      let h₃ = write h₂ q (some (node w t (first xs null))) in
      rw (ne→== q null qne, load-ok h t _ tne at, load-ok h q _ qne hq, lt)
        (rw (set_next-ok h p _ pne hp t) (
          rw (set_next-ok h₁ t (node tv tp tn) tne (ground arith) q) (
            rw (set_prev-ok h₂ q (node w p (first xs null)) qne (ground arith) t) (
              rw (set_prev-ok h₃ t (node tv tp q) tne (ground arith) p) (
                returns (record {
                  links = rw (insert_before t tv q w xs lt) (
                    ground arith,
                    pne,
                    ground arith,
                    (
                      ground arith,
                      tne,
                      ground arith,
                      (
                        ground arith,
                        qne,
                        qout,
                        Links-write h₃ q xs null t _ (ground arith) (
                            Links-write h₂ q xs null q _ qout (
                              Links-write h₁ q xs null t _ (ground arith)
                                (Links-write h q xs null p _ (ground arith) rest))),
                      ),
                    ),
                  );
                  head = refl;
                  tail = λ e. rw (insert_before t tv q w xs lt) e;
                  same = λ a o. ground arith;
                }))))))

  add_loop_lem :
      (k : ℕ) (h : Store UtilTimer) (pv p : Ptr) (v : UtilTimer) (xs : TimerCells) (l : TimerList)
      → h t ≡ some (node tv tp tn)
      → has t ((p, v) ∷ xs) ≡ false
      → Links h pv ((p, v) ∷ xs) null
      → length xs < k
      → Returns (Added h pv p v t tv xs l) (add_loop k t p (first xs null) l h)
  unfolding add_loop
  add_loop_lem zero h pv p v xs l at out ls fuel = absurd (omega arith)
  add_loop_lem (suc k) h pv p v [] l at out ls fuel = add_loop-nil k h pv p v l at (ground arith) ls
  add_loop_lem (suc k) h pv p v ((q, w) ∷ xs) l at out ls fuel =
      elim (Bool-cases (ltb tv.expire w.expire)) [
        | inl lt ↦ add_loop-before k h pv p v q w xs l at out ls lt
        | inr ge ↦
            rw (ne→== q null ls.3.1, load-ok h t _ tne at, load-ok h q _ ls.3.1 ls.3.0, ge)
              (Returns-mono (add_loop_lem k h p q w xs l at (ground arith) ls.3 (omega arith))
                λ l' g r. record {
                  links = rw (insert_after t tv q w xs ge) (
                    ground (arith, r.same p),
                    ls.1,
                    ground (arith, has-insert p t tv xs),
                    r.links,
                  );
                  head = r.head;
                  tail = λ e. rw (insert_after t tv q w xs ge) (r.tail e);
                  same = λ a o. r.same a (ground arith);
                })
      ]

  pub add_timer_after_lem :
      (k : ℕ) (h : Store UtilTimer) (pv p : Ptr) (v : UtilTimer) (xs : TimerCells) (l : TimerList)
      → h t ≡ some (node tv tp tn)
      → has t ((p, v) ∷ xs) ≡ false
      → Links h pv ((p, v) ∷ xs) null
      → length xs < k
      → Returns (Added h pv p v t tv xs l) (add_timer_after k t p l h)
  unfolding add_timer_after
  add_timer_after_lem k h pv p v xs l at out ls fuel =
      rw (load-ok h p _ ls.1 ls.0) (add_loop_lem k h pv p v xs l at out ls fuel)

-- What an insertion should leave.
pub record Inserted (h : Store UtilTimer) (t : Ptr) (tv : UtilTimer) (xs : TimerCells)
    (l' : TimerList) (g : Store UtilTimer) : Type 0 where
  pub list : IsList g l' (insert (t, tv) xs)
  pub same : SameOutside ((t, tv) ∷ xs) h g

module _ (h : Store UtilTimer) (t : Ptr) (tv : UtilTimer) (tne : t ≢ null) where
  module _ (q : Ptr) (w : UtilTimer) (xs : TimerCells) (tl : Ptr) where
    add_timer-front :
        (k : ℕ)
        → h t ≡ some (node tv null null)
        → has t ((q, w) ∷ xs) ≡ false
        → Links h null ((q, w) ∷ xs) null
        → tl ≡ last q xs
        → ltb tv.expire w.expire ≡ true
        → Returns (Inserted h t tv ((q, w) ∷ xs)) (add_timer k t (ends q tl) h)
    unfolding add_timer write
    add_timer-front k at out ls tail lt =
        let h₁ = write h t (some (node tv null q)) in
        rw (ne→== t null tne, ne→== q null ls.1, load-ok h t _ tne at, load-ok h q _ ls.1 ls.0, lt)
          (rw (set_next-ok h t _ tne at q) (
            rw (set_prev-ok h₁ q (node w null (first xs null)) ls.1 (ground arith) t) (
              returns (record {
                list = rw (insert_before t tv q w xs lt) (record {
                  links = (
                    ground arith,
                    tne,
                    ground arith,
                    (
                      ground arith,
                      ls.1,
                      ls.2,
                      Links-write h₁ q xs null q _ ls.2
                          (Links-write h q xs null t _ (ground arith) ls.3),
                    ),
                  );
                  head = refl;
                  tail = λ _. tail;
                });
                same = λ a o. ground arith;
              }))))

    add_timer-behind :
        (k : ℕ)
        → h t ≡ some (node tv null null)
        → has t ((q, w) ∷ xs) ≡ false
        → Links h null ((q, w) ∷ xs) null
        → tl ≡ last q xs
        → ltb tv.expire w.expire ≡ false
        → length xs < k
        → Returns (Inserted h t tv ((q, w) ∷ xs)) (add_timer k t (ends q tl) h)
    unfolding add_timer
    add_timer-behind k at out ls tail ge fuel =
        rw (ne→== t null tne, ne→== q null ls.1, load-ok h t _ tne at, load-ok h q _ ls.1 ls.0, ge)
          (Returns-mono
            (add_timer_after_lem t tv null null tne k h null q w xs (ends q tl) at out ls fuel)
            λ l' g r. record {
              list =
                  rw (insert_after t tv q w xs ge)
                    (record { links = r.links; head = r.head; tail = λ _. r.tail tail });
              same = r.same;
            })

  pub add_timer-insert :
      (k : ℕ) (l : TimerList) (xs : TimerCells)
      → h t ≡ some (node tv null null)
      → has t xs ≡ false
      → IsList h l xs
      → length xs ≤ k
      → Returns (Inserted h t tv xs) (add_timer k t l h)
  unfolding add_timer
  add_timer-insert k l [] at out is fuel =
      rw (ne→== t null tne, is.head)
        (returns (record {
          list =
              rw (insert-nil t tv)
                (record { links = (at, tne, refl, tt); head = refl; tail = λ _. refl });
          same = λ a o. refl;
        }))
  add_timer-insert k l ((q, w) ∷ xs) at out is fuel =
      at_head (λ l'. Returns (Inserted h t tv ((q, w) ∷ xs)) (add_timer k t l' h)) l q is.head
        (elim (Bool-cases (ltb tv.expire w.expire)) [
          | inl lt ↦ add_timer-front q w xs l.tail k at out is.links (is.tail (ground arith)) lt
          | inr ge ↦
              add_timer-behind q w xs l.tail k at out is.links (is.tail (ground arith)) ge fuel
        ])
