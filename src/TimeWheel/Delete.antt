-- ===== src/TimeWheel/Delete.antt =====
-- `delete_timer`.
use mathlib.Core.Path.{subst}
use mathlib.Core.List.{append_assoc}
use high_performance_linux_s.Base.{
  ℕ, ◌<◌, ◌≡◌, refl, ◌∙◌, sym, ◌≢◌, true, false, none, [], ◌∷◌, ◌++◌, arith, ◌==◌, ap, ne→==,
  lt→ltb, ==_self, All, snoc_view,
}
use high_performance_linux_s.Nodes.{Ptr, null, node, Store, write}
use high_performance_linux_s.Nodes.Returns.{Returns, returns, Returns-mono, Returns-bind}
use high_performance_linux_s.Nodes.Links.{
  has, has-append, first, last, Links, SameOutside, Links-write, load-ok, free-ok, clear_prev_lem,
  write_self, write_other,
}
use high_performance_linux_s.Nodes.Links.Split.{
  Links-suffix, Links-apart, Links-replace, first-ne, not-has-front, not-has-right,
}
use high_performance_linux_s.TimeWheel.{
  TwTimer, TwCells, TimeWheel, slot_count, slot, put, delete_timer, IsWheel,
}
use high_performance_linux_s.TimeWheel.Sweep.{bypass_lem}
use high_performance_linux_s.TimeWheel.Slots.{replace, IsWheel-replace}

-- The list of the timer's slot without the timer, and its new head.
pub record Dropped (h : Store TwTimer) (w : TimeWheel) (t : Ptr) (tv : TwTimer) (ys zs : TwCells)
    (w' : TimeWheel) (g : Store TwTimer) : Type 0 where
  pub links : Links g null (ys ++ zs) null
  pub head : w'.slots tv.time_slot ≡ first (ys ++ zs) null
  pub others : (j : ℕ) → j ≢ tv.time_slot → w'.slots j ≡ w.slots j
  pub current : w'.cur_slot ≡ w.cur_slot
  pub freed : g t ≡ none
  pub same : SameOutside (ys ++ (t, tv) ∷ zs) h g

module _ (h : Store TwTimer) (w : TimeWheel) (t : Ptr) (tv : TwTimer) (zs : TwCells)
    (bound : tv.time_slot < slot_count) where
  delete-head :
      w.slots tv.time_slot ≡ t
      → Links h null ((t, tv) ∷ zs) null
      → Returns (Dropped h w t tv [] zs) (delete_timer t w h)
  unfolding delete_timer slot put write
  delete-head hd ls =
      let (ht, tne, out, rest) = ls in
      rw (ne→== t null tne, load-ok h t _ tne ht)
        (rw (lt→ltb _ _ bound) (
          rw (hd, ==_self t)
            (rw (load-ok h t _ tne ht) (
              Returns-bind (clear_prev_lem h t zs rest) λ _ g c.
                rw (free-ok g t (node tv null (first zs null)) tne (c.1 t out ∙ ht)) (
                  returns (record {
                    links = Links-write g null zs null t none out c.0;
                    head = ground arith;
                    others = λ j ne. ground arith;
                    current = refl;
                    freed = ground arith;
                    same = λ a o. let far = c.1 a in ground (arith, far);
                  }))))))

  delete-inner :
      (ys : TwCells) (q : Ptr) (u : TwTimer)
      → w.slots tv.time_slot ≡ first (ys ++ (q, u) ∷ (t, tv) ∷ zs) null
      → Links h null (ys ++ (q, u) ∷ (t, tv) ∷ zs) null
      → Returns
          (λ w' g.
            (w' ≡ w)
            × Links g null (ys ++ (q, u) ∷ zs) null
            × (g t ≡ none)
            × SameOutside (ys ++ (q, u) ∷ (t, tv) ∷ zs) h g)
          (delete_timer t w h)
  unfolding delete_timer slot
  delete-inner ys q u hd l =
      let xs : TwCells = (q, u) ∷ (t, tv) ∷ zs in
      let ls = Links-suffix h null ys xs null l in
      let (hq, qne, qout, (ht, tne, out, rest)) = ls in
      let apart = λ (a : Ptr). Links-apart h null ys xs null a l in
      let front = not-has-front h null ys xs null t l (ground arith) in
      let not_head : (t == w.slots tv.time_slot) ≡ false =
        rw hd (first-ne t ys q u ((t, tv) ∷ zs) null front (ground arith)) in
      rw (ne→== t null tne, load-ok h t _ tne ht)
        (rw (lt→ltb _ _ bound) (
          rw not_head (
            Returns-bind (bypass_lem h (last null ys) q u t tv zs ls) λ _ g b.
              rw (free-ok g t _ tne b.node_is) (
                let g₁ = write g t none in
                let far : (a : Ptr) → has a xs ≡ false → g₁ a ≡ h a =
                  λ a o. write_other g t none a (ground arith) ∙ b.same a (ground arith) in
                returns (
                  refl,
                  Links-replace h g₁ null ys xs ((q, u) ∷ zs) null l (λ a e. far a (apart a e))
                      (λ a e. ground (arith, apart a e)) refl
                      (Links-write g (last null ys) ((q, u) ∷ zs) null t none (ground arith)
                        b.links),
                  write_self g t none,
                  λ a o. far a (not-has-right a ys xs o),
                )))))

  delete-any :
      (ys : TwCells)
      → w.slots tv.time_slot ≡ first (ys ++ (t, tv) ∷ zs) null
      → Links h null (ys ++ (t, tv) ∷ zs) null
      → Returns (Dropped h w t tv ys zs) (delete_timer t w h)
  delete-any [] hd ls = delete-head hd ls
  delete-any (y ∷ ys) hd ls =
      let (front, (q, u), e) = snoc_view y ys in
      let at = λ (xs : TwCells). ap (λ us. us ++ xs) e ∙ append_assoc front ((q, u) ∷ []) xs in
      let whole = at ((t, tv) ∷ zs) in
      Returns-mono
        (delete-inner front q u (hd ∙ ap (λ (xs : TwCells). first xs null) whole)
          (subst (λ (xs : TwCells). Links h null xs null) whole ls))
        λ w' g r. record {
          links = subst (λ (xs : TwCells). Links g null xs null) (sym (at zs)) r.1;
          head = ap (λ (x : TimeWheel). x.slots tv.time_slot) r.0 ∙ hd;
          others = λ j ne. ap (λ (x : TimeWheel). x.slots j) r.0;
          current = ap (λ (x : TimeWheel). x.cur_slot) r.0;
          freed = r.2;
          same = subst (λ (xs : TwCells). SameOutside xs h g) (sym whole) r.3;
        }

-- What deleting a timer of a wheel should do.
pub record IsDropped (h : Store TwTimer) (w : TimeWheel) (f : ℕ → TwCells) (t : Ptr) (tv : TwTimer)
    (ys zs : TwCells) (w' : TimeWheel) (g : Store TwTimer) : Type 0 where
  pub wheel : IsWheel g w' (replace tv.time_slot (ys ++ zs) f)
  pub current_is : w'.cur_slot ≡ w.cur_slot
  pub freed : g t ≡ none
  pub same : SameOutside (ys ++ (t, tv) ∷ zs) h g

has-without :
    (a t : Ptr) (tv : TwTimer) (ys zs : TwCells)
    → has a (ys ++ (t, tv) ∷ zs) ≡ false
    → has a (ys ++ zs) ≡ false
has-without a t tv ys zs o = ground (arith, has-append a ys zs, has-append a ys ((t, tv) ∷ zs))

placed-without :
    (i : ℕ) (t : Ptr) (tv : TwTimer) (ys zs : TwCells)
    → All (λ c. c.1.time_slot ≡ i) (ys ++ (t, tv) ∷ zs)
    → All (λ c. c.1.time_slot ≡ i) (ys ++ zs)
placed-without i t tv [] zs h = h.1
placed-without i t tv ((p, v) ∷ ys) zs h = (h.0, placed-without i t tv ys zs h.1)

-- `delete_timer` of any timer of a valid wheel, wherever it stands in its slot, returns: the timer is
-- gone from its slot and its node freed, the wheel is valid and holds the other timers as before,
-- and no node outside the timer's slot is written.
pub delete_timer-IsDropped :
    (h : Store TwTimer) (w : TimeWheel) (f : ℕ → TwCells) (t : Ptr) (tv : TwTimer) (ys zs : TwCells)
    → IsWheel h w f
    → tv.time_slot < slot_count
    → f tv.time_slot ≡ ys ++ (t, tv) ∷ zs
    → Returns (IsDropped h w f t tv ys zs) (delete_timer t w h)
delete_timer-IsDropped h w f t tv ys zs is bound e =
    let i = tv.time_slot in
    let whole = ys ++ (t, tv) ∷ zs in
    Returns-mono
      (delete-any h w t tv zs bound ys (is.heads i bound ∙ ap (λ (xs : TwCells). first xs null) e)
        (subst (λ (xs : TwCells). Links h null xs null) e (is.links i bound)))
      λ w' g r.
        let apart : (j : ℕ)
            → j < slot_count
            → j ≢ i
            → (a : Ptr) → has a (f j) ≡ true
            → has a whole ≡ false =
          λ j b ne a t. ap (λ (xs : TwCells). has a xs) (sym e) ∙ is.apart j i b bound ne a t in
        record {
          wheel =
              IsWheel-replace h g w w' f i (ys ++ zs) is bound (rw r.current is.current) r.links
                r.head r.others (λ j b ne a o. has-without a t tv ys zs (apart j b ne a o))
                (λ j b ne a o. r.same a (apart j b ne a o))
                (placed-without i t tv ys zs (
                  subst (λ (xs : TwCells). All (λ c. c.1.time_slot ≡ i) xs) e (is.placed i bound)));
          current_is = r.current;
          freed = r.freed;
          same = r.same;
        }
