-- ===== src/SortTimerList/Remove.antt =====
-- `delete_timer`: what it does at the head, inside and at the tail of the list.
use mathlib.Core.Path.{subst}
use mathlib.Core.List.{append_assoc}
use high_performance_linux_s.Base.{
  ◌≡◌, refl, ◌∙◌, sym, ap, ◌≢◌, ◌⊎◌, inl, inr, false, some, none, [], ◌∷◌, ◌++◌, arith, ◌==◌, ne→==,
  ==_self, append-ne-nil, snoc_view,
}
use high_performance_linux_s.Nodes.{Ptr, null, node, Store, Run, fault, write}
use high_performance_linux_s.Nodes.Returns.{Returns, returns, Returns-mono}
use high_performance_linux_s.Nodes.Links.{
  first, last, Links, Links-write, SameOutside, load-ok, load-fault, set_next-ok, set_prev-ok,
  free-ok,
}
use high_performance_linux_s.Nodes.Links.Split.{
  last-ne, first-append, first-ne, not-has-front, not-has-right, last-append, Links-suffix,
  Links-apart, Links-replace,
}
use high_performance_linux_s.SortTimerList.{
  UtilTimer, TimerCells, TimerList, unlink, delete_timer, IsList, ends, at_head,
}

-- The timer is gone and its node freed; the others stay in order, and no other node changes.
pub record Removed (h : Store UtilTimer) (t : Ptr) (tv : UtilTimer) (ys zs : TimerCells)
    (l' : TimerList) (g : Store UtilTimer) : Type 0 where
  pub list : IsList g l' (ys ++ zs)
  pub freed : g t ≡ none
  pub same : SameOutside (ys ++ (t, tv) ∷ zs) h g

-- What `delete_timer` comes to for a timer between `ys` and `zs`.
pub data IsDeletion (h : Store UtilTimer) (t : Ptr) (tv : UtilTimer) (ys zs : TimerCells)
    : Run UtilTimer TimerList → Type 0 where
  removes :
      {r : Run UtilTimer TimerList}
      → (ys ≡ []) ⊎ (zs ≢ [])
      → Returns (Removed h t tv ys zs) r
      → IsDeletion h t tv ys zs r
  faults : ys ≢ [] → zs ≡ [] → IsDeletion h t tv ys zs fault

module _ (h : Store UtilTimer) (t : Ptr) (tv : UtilTimer) where
  delete_timer-only :
      (tl : Ptr)
      → Links h null ((t, tv) ∷ []) null
      → tl ≡ t
      → Returns (Removed h t tv [] []) (delete_timer t (ends t tl) h)
  unfolding delete_timer write
  delete_timer-only tl ls e =
      rw (ne→== t null ls.1, ==_self t, e, ==_self t, free-ok h t _ ls.1 ls.0)
        (returns (record {
          list = record { links = tt; head = refl; tail = λ ne. absurd (ne refl) };
          freed = ground arith;
          same = λ a o. ground arith;
        }))

  module _ (q : Ptr) (w : UtilTimer) (zs : TimerCells) where
    delete_timer-head :
        (tl : Ptr)
        → Links h null ((t, tv) ∷ (q, w) ∷ zs) null
        → tl ≡ last q zs
        → Returns (Removed h t tv [] ((q, w) ∷ zs)) (delete_timer t (ends t tl) h)
    unfolding delete_timer write
    delete_timer-head tl ls e =
        let (ht, tne, out, (hq, qne, qout, rest)) = ls in
        let h₁ = write h q (some (node w null (first zs null))) in
        let h₂ = write h₁ t none in
        let not_tail : (t == tl) ≡ false = rw e (last-ne t q w zs out) in
        rw (ne→== t null tne, ==_self t, not_tail, load-ok h t _ tne ht)
          (rw (set_prev-ok h q _ qne hq null) (
            rw (free-ok h₁ t (node tv null q) tne (ground arith)) (
              returns (record {
                list = record {
                  links = (
                    ground arith,
                    qne,
                    qout,
                    Links-write h₁ q zs null t none (ground arith)
                        (Links-write h q zs null q _ qout rest),
                  );
                  head = refl;
                  tail = λ _. e;
                };
                freed = ground arith;
                same = λ a o. ground arith;
              }))))

    -- The last three statements, at a node between `p` and `q`.
    unlink-inner :
        (pv p : Ptr) (v : UtilTimer) (l : TimerList)
        → Links h pv ((p, v) ∷ (t, tv) ∷ (q, w) ∷ zs) null
        → Returns
            (λ l' g.
              (l' ≡ l)
              × Links g pv ((p, v) ∷ (q, w) ∷ zs) null
              × (g t ≡ none)
              × SameOutside ((p, v) ∷ (t, tv) ∷ (q, w) ∷ zs) h g)
            (unlink t l h)
    unfolding unlink write
    unlink-inner pv p v l ls =
        let (hp, pne, pout, (ht, tne, out, (hq, qne, qout, rest))) = ls in
        let h₁ = write h p (some (node v pv q)) in
        let h₂ = write h₁ q (some (node w p (first zs null))) in
        rw (load-ok h t _ tne ht) (
          rw (set_next-ok h p _ pne hp q) (
            rw (load-ok h₁ t (node tv p q) tne (ground arith)) (
              rw (set_prev-ok h₁ q (node w t (first zs null)) qne (ground arith) p) (
                rw (free-ok h₂ t (node tv p q) tne (ground arith)) (
                  returns (
                    refl,
                    (
                      ground arith,
                      pne,
                      ground arith,
                      (
                        ground arith,
                        qne,
                        qout,
                        Links-write h₂ q zs null t none (ground arith) (
                            Links-write h₁ q zs null q _ qout
                              (Links-write h q zs null p _ (ground arith) rest)),
                      ),
                    ),
                    ground arith,
                    λ a o. ground arith,
                  ))))))

module _ (h : Store UtilTimer) (l : TimerList) (t : Ptr) (tv : UtilTimer) where
  delete_timer-inner :
      (ys : TimerCells) (p : Ptr) (v : UtilTimer) (q : Ptr) (w : UtilTimer) (zs : TimerCells)
      → IsList h l (ys ++ (p, v) ∷ (t, tv) ∷ (q, w) ∷ zs)
      → Returns
          (λ l' g.
            IsList g l' (ys ++ (p, v) ∷ (q, w) ∷ zs)
            × (g t ≡ none)
            × SameOutside (ys ++ (p, v) ∷ (t, tv) ∷ (q, w) ∷ zs) h g)
          (delete_timer t l h)
  unfolding delete_timer
  delete_timer-inner ys p v q w zs is =
      let xs : TimerCells = (p, v) ∷ (t, tv) ∷ (q, w) ∷ zs in
      let ls = Links-suffix h null ys xs null is.links in
      let apart = λ (a : Ptr). Links-apart h null ys xs null a is.links in
      let out = not-has-front h null ys xs null t is.links (ground arith) in
      let end = is.tail (append-ne-nil ys _ _) ∙ last-append null ys xs in
      let not_head : (t == l.head) ≡ false =
        rw is.head (first-ne t ys p v ((t, tv) ∷ (q, w) ∷ zs) null out (ground arith)) in
      let not_tail : (t == l.tail) ≡ false = rw end (last-ne t q w zs ls.3.2) in
      rw (ne→== t null ls.3.1, not_head, not_tail)
        (Returns-mono (unlink-inner h t tv q w zs (last null ys) p v l ls) λ l' g r. (
          record {
            links =
                Links-replace h g null ys xs ((p, v) ∷ (q, w) ∷ zs) null is.links
                  (λ a i. r.3 a (apart a i)) (λ a i. ground (arith, apart a i)) refl r.1;
            head =
                ap (λ (x : TimerList). x.head) r.0
                ∙ is.head
                ∙ first-append ys xs ((p, v) ∷ (q, w) ∷ zs) null refl;
            tail = λ _. ap (λ (x : TimerList). x.tail) r.0 ∙ end ∙ sym (last-append null ys _);
          },
          r.2,
          λ a o. r.3 a (not-has-right a ys xs o),
        ))

  -- The branch for the tail has no `return`: the statements behind it read the freed node.
  delete_timer-end :
      (ys : TimerCells) (p : Ptr) (v : UtilTimer)
      → IsList h l (ys ++ (p, v) ∷ (t, tv) ∷ [])
      → delete_timer t l h ≡ fault
  unfolding delete_timer unlink write
  delete_timer-end ys p v is =
      let xs : TimerCells = (p, v) ∷ (t, tv) ∷ [] in
      let ls = Links-suffix h null ys xs null is.links in
      let (hp, pne, pout, (ht, tne, _, _)) = ls in
      let out = not-has-front h null ys xs null t is.links (ground arith) in
      let end = is.tail (append-ne-nil ys _ _) ∙ last-append null ys xs in
      let not_head : (t == l.head) ≡ false =
        rw is.head (first-ne t ys p v ((t, tv) ∷ []) null out (ground arith)) in
      let h₁ = write h p (some (node v (last null ys) null)) in
      rw (ne→== t null tne, not_head, end, ==_self t)
        (rw (load-ok h t (node tv p null) tne ht) (
          rw (set_next-ok h p _ pne hp null) (
            rw (free-ok h₁ t (node tv p null) tne (ground arith))
              (rw (load-fault (write h₁ t none) t (ground arith))))))

  delete_timer-front :
      (zs : TimerCells)
      → IsList h l ((t, tv) ∷ zs)
      → Returns (Removed h t tv [] zs) (delete_timer t l h)
  delete_timer-front [] is =
      at_head (λ l'. Returns (Removed h t tv [] []) (delete_timer t l' h)) l t is.head
        (delete_timer-only h t tv l.tail is.links (is.tail (append-ne-nil [] _ _)))
  delete_timer-front ((q, w) ∷ zs) is =
      at_head (λ l'. Returns (Removed h t tv [] ((q, w) ∷ zs)) (delete_timer t l' h)) l t is.head
        (delete_timer-head h t tv q w zs l.tail is.links (is.tail (append-ne-nil [] _ _)))

  -- `delete_timer` on a timer with a successor, or on the only timer, takes it out and frees it.
  pub delete_timer-removes :
      (ys zs : TimerCells)
      → IsList h l (ys ++ (t, tv) ∷ zs)
      → (ys ≡ []) ⊎ (zs ≢ [])
      → Returns (Removed h t tv ys zs) (delete_timer t l h)
  delete_timer-removes [] zs is side = delete_timer-front zs is
  delete_timer-removes (y ∷ ys) [] is side = absurd (ground arith)
  delete_timer-removes (y ∷ ys) ((q, w) ∷ zs) is side =
      let (front, (p, v), e) = snoc_view y ys in
      let at = λ (xs : TimerCells). ap (λ us. us ++ xs) e ∙ append_assoc front ((p, v) ∷ []) xs in
      let behind = (t, tv) ∷ (q, w) ∷ zs in
      Returns-mono (delete_timer-inner front p v q w zs (subst (IsList h l) (at behind) is))
        λ l' g r. record {
          list = subst (IsList g l') (sym (at ((q, w) ∷ zs))) r.0;
          freed = r.1;
          same = subst (λ xs. SameOutside xs h g) (sym (at behind)) r.2;
        }

  delete_timer-tail :
      (ys : TimerCells) → IsList h l (ys ++ (t, tv) ∷ []) → ys ≢ [] → delete_timer t l h ≡ fault
  delete_timer-tail [] is ne = absurd (ne refl)
  delete_timer-tail (y ∷ ys) is ne =
      let (front, (p, v), e) = snoc_view y ys in
      let at = λ (xs : TimerCells). ap (λ us. us ++ xs) e ∙ append_assoc front ((p, v) ∷ []) xs in
      delete_timer-end front p v (subst (IsList h l) (at ((t, tv) ∷ [])) is)

  -- `delete_timer` of a timer of the list takes exactly this timer out and frees it, where the timer is
  -- the only one or has a successor; of the last of several timers it is undefined behaviour.
  pub delete_timer-IsDeletion :
      (ys zs : TimerCells)
      → IsList h l (ys ++ (t, tv) ∷ zs)
      → IsDeletion h t tv ys zs (delete_timer t l h)
  delete_timer-IsDeletion [] zs is = removes (inl refl) (delete_timer-removes [] zs is (inl refl))
  delete_timer-IsDeletion (y ∷ ys) (z ∷ zs) is =
      let more : z ∷ zs ≢ [] = λ e. cc in
      removes (inr more) (delete_timer-removes (y ∷ ys) (z ∷ zs) is (inr more))
  delete_timer-IsDeletion (y ∷ ys) [] is =
      let several : y ∷ ys ≢ [] = λ e. cc in
      subst (IsDeletion h t tv (y ∷ ys) []) (sym (delete_timer-tail (y ∷ ys) is several))
        (faults several refl)
