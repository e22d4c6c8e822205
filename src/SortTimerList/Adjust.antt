-- ===== src/SortTimerList/Adjust.antt =====
-- `adjust_timer`.
use mathlib.Core.Path.{subst}
use mathlib.Core.List.{append_assoc}
use high_performance_linux_s.Base.{
  ℕ, ◌<◌, ◌≤◌, ◌≡◌, refl, ◌∙◌, ◌≢◌, true, false, some, [], ◌∷◌, ◌++◌, arith, ltb, ◌==◌, length, sym,
  ap, append-ne-nil, snoc_view, Bool-cases, inl, inr, or_false_right, ne→==, ==_self,
}
use high_performance_linux_s.Nodes.{Ptr, null, node, Store, write, ok}
use high_performance_linux_s.Nodes.Returns.{Returns, returns, Returns-mono}
use high_performance_linux_s.Nodes.Links.{
  first, last, Links, Links-write, SameOutside, load-ok, set_next-ok, set_prev-ok,
}
use high_performance_linux_s.Nodes.Links.Split.{
  not-has-right, first-append, first-ne, not-has-front, last-append, Links-suffix, Links-apart,
  Links-replace,
}
use high_performance_linux_s.SortTimerList.{
  UtilTimer, TimerCells, TimerList, reposition, adjust_timer, IsList, ends, at_head,
}
use high_performance_linux_s.SortTimerList.Order.{
  insert, has-insert, insert-nil, insert_before, insert_after,
}
use high_performance_linux_s.SortTimerList.Insert.{add_timer_after_lem}

module _ (h : Store UtilTimer) (t : Ptr) (tv : UtilTimer) (q : Ptr) (w : UtilTimer)
    (zs : TimerCells) where
  -- At the head of the list.
  reposition-head :
      (k : ℕ) (tl : Ptr)
      → Links h null ((t, tv) ∷ (q, w) ∷ zs) null
      → tl ≡ last q zs
      → ltb tv.expire w.expire ≡ false
      → length zs < k
      → Returns
          (λ l' g.
            IsList g l' (insert (t, tv) ((q, w) ∷ zs)) × SameOutside ((t, tv) ∷ (q, w) ∷ zs) h g)
          (reposition k t q (ends t tl) h)
  unfolding reposition write
  reposition-head k tl ls tail ge fuel =
      let (ht, tne, out, (hq, qne, qout, rest)) = ls in
      let h₁ = write h q (some (node w null (first zs null))) in
      let h₂ = write h₁ t (some (node tv null null)) in
      let start : Links h₂ null ((q, w) ∷ zs) null = (
        ground arith,
        qne,
        qout,
        Links-write h₁ q zs null t _ (ground arith) (Links-write h q zs null q _ qout rest),
      ) in
      rw (==_self t, load-ok h t _ tne ht)
        (rw (set_prev-ok h q _ qne hq null) (
          rw (set_next-ok h₁ t (node tv null q) tne (ground arith) null) (
            Returns-mono
              (add_timer_after_lem t tv null null tne k h₂ null q w zs (ends q tl) (ground arith)
                out start fuel)
              λ l' g r. (
                rw (insert_after t tv q w zs ge)
                    (record { links = r.links; head = r.head; tail = λ _. r.tail tail }),
                λ a o. ground (arith, r.same a),
              ))))

  -- Behind the node `p`.
  reposition-inner :
      (k : ℕ) (pv p : Ptr) (v : UtilTimer) (l : TimerList)
      → Links h pv ((p, v) ∷ (t, tv) ∷ (q, w) ∷ zs) null
      → (t == l.head) ≡ false
      → length zs < k
      → Returns
          (λ l' g.
            Links g pv ((p, v) ∷ (q, w) ∷ insert (t, tv) zs) null
            × (l'.head ≡ l.head)
            × (l.tail ≡ last q zs → l'.tail ≡ last q (insert (t, tv) zs))
            × SameOutside ((p, v) ∷ (t, tv) ∷ (q, w) ∷ zs) h g)
          (reposition k t q l h)
  unfolding reposition write
  reposition-inner k pv p v l ls ne fuel =
      let (hp, pne, pout, (ht, tne, out, (hq, qne, qout, rest))) = ls in
      let h₁ = write h p (some (node v pv q)) in
      let h₂ = write h₁ q (some (node w p (first zs null))) in
      let start : Links h₂ p ((q, w) ∷ zs) null = (
        ground arith,
        qne,
        qout,
        Links-write h₁ q zs null q _ qout (Links-write h q zs null p _ (ground arith) rest),
      ) in
      let hp₂ : h₂ p ≡ some (node v pv q) = ground arith in
      let outside : SameOutside ((p, v) ∷ (t, tv) ∷ (q, w) ∷ zs) h h₂ = λ a o. ground arith in
      rw (ne, load-ok h t _ tne ht)
        (rw (set_next-ok h p _ pne hp q) (
          rw (load-ok h₁ t (node tv p q) tne (ground arith)) (
            rw (set_prev-ok h₁ q (node w t (first zs null)) qne (ground arith) p) (
              rw (load-ok h₂ t (node tv p q) tne (ground arith)) (
                Returns-mono
                  (add_timer_after_lem t tv p q tne k h₂ p q w zs l (ground arith) out start fuel)
                  λ l' g r. (
                    (r.same p pout ∙ hp₂, pne, ground (arith, has-insert p t tv zs), r.links),
                    r.head,
                    r.tail,
                    λ a o. r.same a (or_false_right _ _ o) ∙ outside a o,
                  ))))))

module _ (k : ℕ) (h : Store UtilTimer) (l : TimerList) (t : Ptr) (tv : UtilTimer) (tp : Ptr)
    (tne : t ≢ null) where
  adjust_timer-last : h t ≡ some (node tv tp null) → adjust_timer k t l h ≡ ok l h
  unfolding adjust_timer
  adjust_timer-last at = rw (ne→== t null tne, load-ok h t _ tne at)

  module _ (q : Ptr) (w : UtilTimer) (wn : Ptr) (qne : q ≢ null) where
    adjust_timer-early :
        h t ≡ some (node tv tp q)
        → h q ≡ some (node w t wn)
        → ltb tv.expire w.expire ≡ true
        → adjust_timer k t l h ≡ ok l h
    unfolding adjust_timer
    adjust_timer-early at hq lt =
        rw (ne→== t null tne, load-ok h t _ tne at)
          (rw (ne→== q null qne, load-ok h q _ qne hq) (rw lt))

    adjust_timer-late :
        h t ≡ some (node tv tp q)
        → h q ≡ some (node w t wn)
        → ltb tv.expire w.expire ≡ false
        → adjust_timer k t l h ≡ reposition k t q l h
    unfolding adjust_timer
    adjust_timer-late at hq ge =
        rw (ne→== t null tne, load-ok h t _ tne at)
          (rw (ne→== q null qne, load-ok h q _ qne hq) (rw ge))

-- What `adjust_timer` leaves: the timer stands in front of the first later timer behind it.
pub record Adjusted (h : Store UtilTimer) (t : Ptr) (tv : UtilTimer) (ys zs : TimerCells)
    (l' : TimerList) (g : Store UtilTimer) : Type 0 where
  pub list : IsList g l' (ys ++ insert (t, tv) zs)
  pub same : SameOutside (ys ++ (t, tv) ∷ zs) h g

module _ (k : ℕ) (h : Store UtilTimer) (l : TimerList) (t : Ptr) (tv : UtilTimer) where
  -- Where the timer need not move.
  Adjusted-same :
      (ys zs : TimerCells)
      → IsList h l (ys ++ (t, tv) ∷ zs)
      → insert (t, tv) zs ≡ (t, tv) ∷ zs
      → adjust_timer k t l h ≡ ok l h
      → Returns (Adjusted h t tv ys zs) (adjust_timer k t l h)
  Adjusted-same ys zs is e run = rw run (returns (record { list = rw e is; same = λ a o. refl }))

  adjust_timer-head :
      (q : Ptr) (w : UtilTimer) (zs : TimerCells)
      → IsList h l ((t, tv) ∷ (q, w) ∷ zs)
      → ltb tv.expire w.expire ≡ false
      → length zs < k
      → Returns (Adjusted h t tv [] ((q, w) ∷ zs)) (adjust_timer k t l h)
  adjust_timer-head q w zs is ge fuel =
      let ls = is.links in
      rw (adjust_timer-late k h l t tv null ls.1 q w _ ls.3.1 ls.0 ls.3.0 ge) (
        at_head (λ l'. Returns (Adjusted h t tv [] ((q, w) ∷ zs)) (reposition k t q l' h)) l t
          is.head
          (Returns-mono (reposition-head h t tv q w zs k l.tail ls (is.tail (ground arith)) ge fuel)
            λ l' g r. record { list = r.0; same = r.1 }))

  adjust_timer-inner :
      (ys : TimerCells) (p : Ptr) (v : UtilTimer) (q : Ptr) (w : UtilTimer) (zs : TimerCells)
      → IsList h l (ys ++ (p, v) ∷ (t, tv) ∷ (q, w) ∷ zs)
      → ltb tv.expire w.expire ≡ false
      → length zs < k
      → Returns
          (λ l' g.
            IsList g l' (ys ++ (p, v) ∷ insert (t, tv) ((q, w) ∷ zs))
            × SameOutside (ys ++ (p, v) ∷ (t, tv) ∷ (q, w) ∷ zs) h g)
          (adjust_timer k t l h)
  adjust_timer-inner ys p v q w zs is ge fuel =
      let xs = (p, v) ∷ (t, tv) ∷ (q, w) ∷ zs in
      let ls = Links-suffix h null ys xs null is.links in
      let apart = λ (a : Ptr). Links-apart h null ys xs null a is.links in
      let out = not-has-front h null ys xs null t is.links (ground arith) in
      rw (adjust_timer-late k h l t tv p ls.3.1 q w _ ls.3.3.1 ls.3.0 ls.3.3.0 ge) (
        Returns-mono
          (reposition-inner h t tv q w zs k (last null ys) p v l ls
            (rw is.head (first-ne t ys p v ((t, tv) ∷ (q, w) ∷ zs) null out (ground arith))) fuel)
          λ l' g r. (
            rw (insert_after t tv q w zs ge) (record {
              links =
                  Links-replace h g null ys xs ((p, v) ∷ (q, w) ∷ insert (t, tv) zs) null is.links
                    (λ a i. r.3 a (apart a i))
                    (λ a i. ground (arith, apart a i, has-insert a t tv zs)) refl r.0;
              head =
                  r.1
                  ∙ is.head
                  ∙ first-append ys xs ((p, v) ∷ (q, w) ∷ insert (t, tv) zs) null refl;
              tail = λ _.
                  r.2 (is.tail (append-ne-nil ys _ _) ∙ last-append null ys xs)
                  ∙ sym (last-append null ys _);
            }),
            λ a o. r.3 a (not-has-right a ys xs o),
          ))

  adjust_timer-move :
      (ys : TimerCells) (q : Ptr) (w : UtilTimer) (zs : TimerCells)
      → IsList h l (ys ++ (t, tv) ∷ (q, w) ∷ zs)
      → ltb tv.expire w.expire ≡ false
      → length zs < k
      → Returns (Adjusted h t tv ys ((q, w) ∷ zs)) (adjust_timer k t l h)
  adjust_timer-move [] q w zs is ge fuel = adjust_timer-head q w zs is ge fuel
  adjust_timer-move (y ∷ ys) q w zs is ge fuel =
      let (front, (p, v), e) = snoc_view y ys in
      let at = λ (xs : TimerCells). ap (λ us. us ++ xs) e ∙ append_assoc front ((p, v) ∷ []) xs in
      let behind = (t, tv) ∷ (q, w) ∷ zs in
      Returns-mono (adjust_timer-inner front p v q w zs (subst (IsList h l) (at behind) is) ge fuel)
        λ l' g r. record {
          list = subst (IsList g l') (sym (at (insert (t, tv) ((q, w) ∷ zs)))) r.0;
          same = subst (λ xs. SameOutside xs h g) (sym (at behind)) r.1;
        }

  -- `adjust_timer` on a timer of the list, whose expiry has been changed: on every branch, the timer
  -- ends in front of the first later timer behind its place, and what stands before it stays.
  pub adjust_timer-insert :
      (ys zs : TimerCells)
      → IsList h l (ys ++ (t, tv) ∷ zs)
      → length zs ≤ k
      → Returns (Adjusted h t tv ys zs) (adjust_timer k t l h)
  adjust_timer-insert ys [] is fuel =
      let ls = Links-suffix h null ys _ null is.links in
      Adjusted-same ys [] is (insert-nil t tv) (adjust_timer-last k h l t tv _ ls.1 ls.0)
  adjust_timer-insert ys ((q, w) ∷ zs) is fuel =
      let ls = Links-suffix h null ys _ null is.links in
      elim (Bool-cases (ltb tv.expire w.expire)) [
        | inl lt ↦
            Adjusted-same ys ((q, w) ∷ zs) is (insert_before t tv q w zs lt)
              (adjust_timer-early k h l t tv _ ls.1 q w _ ls.3.1 ls.0 ls.3.0 lt)
        | inr ge ↦ adjust_timer-move ys q w zs is ge fuel
      ]
