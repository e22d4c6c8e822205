-- ===== src/TimeWheel/Tick.antt =====
-- `tick` on the whole wheel.
use high_performance_linux_s.Base.{
  ℕ, ◌+◌, ◌%◌, ◌<◌, ◌≡◌, refl, ◌∙◌, ◌≢◌, true, false, none, List, [], ◌∷◌, arith, ap, ltb, length,
  All, Bool-cases, inl, inr, lt→ltb,
}
use high_performance_linux_s.Nodes.{Fired, Ptr, Store}
use high_performance_linux_s.Nodes.Returns.{Returns, returns, Returns-bind}
use high_performance_linux_s.Nodes.Links.{has, SameOutside}
use high_performance_linux_s.TimeWheel.{
  TwTimer, TwCells, TimeWheel, slot_count, slot, tick, IsWheel,
}
use high_performance_linux_s.TimeWheel.Sweep.{
  kept, calls, HasCallback, kept_nil, kept_turns, kept_fires, has-kept,
}
use high_performance_linux_s.TimeWheel.Loop.{Turned, tick_loop_lem}
use high_performance_linux_s.TimeWheel.Slots.{replace, replace-elim, IsWheel-replace}
use high_performance_linux_s.TimeWheel.Agenda.{
  remaining, count_down, due_now, remaining-kept, remaining-other, due_now-expired, due_now-other,
}

-- What a tick should do to a wheel whose slots stand for `f`.
pub record IsAdvance (h : Store TwTimer) (w : TimeWheel) (f : ℕ → TwCells)
    (r : TimeWheel × List Fired) (g : Store TwTimer) : Type 0 where
  pub after : ℕ → TwCells
  pub wheel : IsWheel g r.0 after
  pub agenda :
      (i : ℕ)
      → i < slot_count
      → remaining r.0.cur_slot (after i) ≡ count_down (remaining w.cur_slot (f i))
  pub log_is : r.1 ≡ calls (due_now w.cur_slot (f w.cur_slot)) []
  pub none_else : (i : ℕ) → i < slot_count → i ≢ w.cur_slot → due_now w.cur_slot (f i) ≡ []
  pub freed : (a : Ptr) → has a (due_now w.cur_slot (f w.cur_slot)) ≡ true → g a ≡ none
  pub same : SameOutside (f w.cur_slot) h g
  pub after_is : after ≡ replace w.cur_slot (kept (f w.cur_slot)) f
  pub current_is : r.0.cur_slot ≡ (w.cur_slot + 1) % slot_count

kept-placed :
    (i : ℕ) (xs : TwCells)
    → All (λ c. c.1.time_slot ≡ i) xs
    → All (λ c. c.1.time_slot ≡ i) (kept xs)
kept-placed i [] placed = rw kept_nil tt
kept-placed i ((p, v) ∷ xs) placed = elim (Bool-cases (ltb 0 v.rotation)) [
  | inl t ↦ rw (kept_turns p v xs t) (placed.0, kept-placed i xs placed.1)
  | inr t ↦ rw (kept_fires p v xs t) (kept-placed i xs placed.1)
]

module _ (k : ℕ) (h : Store TwTimer) (w : TimeWheel) (f : ℕ → TwCells) (is : IsWheel h w f) where
  advance :
      (r : TimeWheel × List Fired) (g : Store TwTimer)
      → Turned h (f w.cur_slot) w [] r g
      → IsAdvance h w f (record r.0 { cur_slot = (r.0.cur_slot + 1) % slot_count }, r.1) g
  advance r g t =
      let cur = w.cur_slot in
      let placed = is.placed cur is.current in
      let now = due_now-expired cur is.current (f cur) placed in
      let next : (r.0.cur_slot + 1) % slot_count ≡ (cur + 1) % slot_count =
        ap (λ (x : ℕ). (x + 1) % slot_count) t.cur_slot_is in
      let outside : (j : ℕ)
          → j < slot_count
          → j ≢ cur
          → (a : Ptr) → has a (f j) ≡ true
          → has a (f cur) ≡ false =
        λ j b ne a. is.apart j cur b is.current ne a in
      record {
        after = replace cur (kept (f cur)) f;
        wheel =
            IsWheel-replace h g w (record r.0 { cur_slot = (r.0.cur_slot + 1) % slot_count }) f cur
              (kept (f cur)) is is.current (omega arith) t.links t.head t.others
              (λ j b ne a i. has-kept a (f cur) (outside j b ne a i))
              (λ j b ne a i. t.same a (outside j b ne a i)) (kept-placed cur (f cur) placed);
        agenda = rw next (
            replace-elim
              (λ i ys.
                i < slot_count
                → remaining ((cur + 1) % slot_count) ys ≡ count_down (remaining cur (f i)))
              cur (kept (f cur)) f (λ _. remaining-kept cur is.current (f cur) placed)
              λ j ne b. remaining-other cur is.current j (f j) b ne (is.placed j b));
        log_is = t.log_is ∙ ap (λ (x : TwCells). calls x []) now;
        none_else = λ i b ne. due_now-other cur is.current i (f i) b ne (is.placed i b);
        freed = λ a i. t.freed a (ap (λ (x : TwCells). has a x) now ∙ i);
        same = t.same;
        after_is = refl;
        current_is = next;
      }

  -- `tick` on a valid wheel whose current slot holds only timers with a callback returns, with a
  -- round more than that slot has timers. Each timer of the wheel has one tick less to wait, and
  -- those that had none left are gone: exactly their callbacks ran, once each and in the order of
  -- the slot, and exactly their nodes are freed. The wheel is valid again.
  pub tick-IsAdvance :
      All HasCallback (f w.cur_slot)
      → length (f w.cur_slot) < k
      → Returns (IsAdvance h w f) (tick k w h)
  unfolding tick slot
  tick-IsAdvance cb fuel = rw (lt→ltb _ _ is.current) (
      rw (is.heads w.cur_slot is.current) (
        Returns-bind
          (tick_loop_lem k h (f w.cur_slot) w [] is.current (is.heads w.cur_slot is.current)
            (is.links w.cur_slot is.current) cb fuel)
          λ r g t. returns (advance r g t)))
