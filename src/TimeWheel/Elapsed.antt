-- ===== src/TimeWheel/Elapsed.antt =====
-- The wheel after any number of ticks.
use high_performance_linux_s.Base.{
  ℕ, zero, suc, ◌+◌, ◌%◌, ◌<◌, ◌≤◌, ◌≡◌, refl, ◌∙◌, sym, ap, ◌≢◌, true, false, List, [], ◌∷◌, ◌++◌,
  arith, ltb, ◌==◌, if◌then◌else◌, length, All, Bool-cases, inl, inr,
}
use high_performance_linux_s.Nodes.{Fired, Ptr, Store, Cmd, pure, ◌>>=◌}
use high_performance_linux_s.Nodes.Returns.{Returns, returns, Returns-bind}
use high_performance_linux_s.TimeWheel.{TwTimer, TwCells, TimeWheel, slot_count, tick, IsWheel}
use high_performance_linux_s.TimeWheel.Sweep.{
  kept, calls, HasCallback, kept_nil, kept_turns, kept_fires, calls_nil, calls_cons,
}
use high_performance_linux_s.TimeWheel.Slots.{replace-elim}
use high_performance_linux_s.TimeWheel.Agenda.{
  due_in, due_now, due_in-now, due_in-turns, due_in-lower, due_in-other,
}
use high_performance_linux_s.TimeWheel.Tick.{IsAdvance, tick-IsAdvance}

-- A program that calls `tick` `m` times; the latest callback stands first.
unfoldable pub ticks : (m k : ℕ) → TimeWheel → Cmd TwTimer (TimeWheel × List Fired)
ticks zero k w = pure (w, [])
ticks (suc m) k w = do r ← ticks m k w; r' ← tick k r.0; pure (r'.0, r'.1 ++ r.1)

-- The timers of a slot that have `m` ticks left.
unfoldable pub due_at : (m cur : ℕ) → TwCells → TwCells
due_at m cur [] = []
due_at m cur ((p, v) ∷ xs) = if due_in cur v == m then (p, v) ∷ due_at m cur xs else due_at m cur xs

-- The callbacks of `m` ticks: for each tick, those of the timers that have as many ticks left as went
-- before, in the order of their slot.
unfoldable pub history : (m cur : ℕ) → (ℕ → TwCells) → List Fired
history zero cur f = []
history (suc m) cur f = calls (due_at m cur (f ((cur + m) % slot_count))) (history m cur f)

-- A slot, and the same slot `m` ticks later: the timers with fewer ticks left are gone, the others
-- are there in the old order with `m` ticks less.
pub data Aged (m cur now : ℕ) : TwCells → TwCells → Type 0 where
  aged_nil : Aged m cur now [] []
  stays :
      {p : Ptr} {v v' : TwTimer} {xs ys : TwCells}
      → due_in now v' + m ≡ due_in cur v
      → v'.cb_func ≡ v.cb_func
      → v'.user_data ≡ v.user_data
      → Aged m cur now xs ys
      → Aged m cur now ((p, v) ∷ xs) ((p, v') ∷ ys)
  gone :
      {p : Ptr} {v : TwTimer} {xs ys : TwCells}
      → due_in cur v < m
      → Aged m cur now xs ys
      → Aged m cur now ((p, v) ∷ xs) ys

Aged-start : (cur : ℕ) (xs : TwCells) → Aged 0 cur cur xs xs
Aged-start cur [] = aged_nil
Aged-start cur ((p, v) ∷ xs) = stays (omega arith) refl refl (Aged-start cur xs)

-- Facts on aged slots.
module _ {m cur now : ℕ} where
  Aged-length : {xs ys : TwCells} → Aged m cur now xs ys → length ys ≤ length xs
  Aged-length aged_nil = omega arith
  Aged-length (stays d c u a) = omega (arith, Aged-length a)
  Aged-length (gone d a) = omega (arith, Aged-length a)

  Aged-HasCallback :
      {xs ys : TwCells} → Aged m cur now xs ys → All HasCallback xs → All HasCallback ys
  Aged-HasCallback aged_nil all = tt
  Aged-HasCallback (stays d c u a) (cb, all) = (λ e. cb (sym c ∙ e), Aged-HasCallback a all)
  Aged-HasCallback (gone d a) (cb, all) = Aged-HasCallback a all

  -- The timers that fire now are those that had `m` ticks left.
  Aged-calls :
      {xs ys : TwCells} (log : List Fired)
      → Aged m cur now xs ys
      → calls (due_now now ys) log ≡ calls (due_at m cur xs) log
  unfolding due_now due_at calls
  Aged-calls log aged_nil = refl
  Aged-calls log (stays {p = p} {v = v} {v' = v'} {xs = xs} {ys = ys} d c u a) =
      elim (Bool-cases (due_in now v' == 0)) [
        | inl e ↦
            let at : (due_in cur v == m) ≡ true = ground arith in rw (e, at, c, u) (Aged-calls _ a)
        | inr e ↦
            let at : (due_in cur v == m) ≡ false = ground arith in rw (e, at) (Aged-calls log a)
      ]
  Aged-calls log (gone {v = v} d a) =
      let at : (due_in cur v == m) ≡ false = ground arith in rw at (Aged-calls log a)

  -- A slot that is not the current one.
  Aged-other :
      (lt : now < slot_count) (i : ℕ) {xs ys : TwCells}
      → i < slot_count
      → i ≢ now
      → All (λ c. c.1.time_slot ≡ i) ys
      → Aged m cur now xs ys
      → Aged (suc m) cur ((now + 1) % slot_count) xs ys
  Aged-other lt i b ne placed aged_nil = aged_nil
  Aged-other lt i b ne placed (stays {v' = v'} d c u a) =
      stays (omega (arith, due_in-other now lt v' i b ne placed.0)) c u
        (Aged-other lt i b ne placed.1 a)
  Aged-other lt i b ne placed (gone d a) = gone (omega arith) (Aged-other lt i b ne placed a)

  -- The current slot.
  Aged-kept :
      (lt : now < slot_count) {xs ys : TwCells}
      → All (λ c. c.1.time_slot ≡ now) ys
      → Aged m cur now xs ys
      → Aged (suc m) cur ((now + 1) % slot_count) xs (kept ys)
  Aged-kept lt placed aged_nil = rw kept_nil aged_nil
  Aged-kept lt placed (stays {p = p} {v' = v'} {ys = ys} d c u a) =
      elim (Bool-cases (ltb 0 v'.rotation)) [
        | inl t ↦
            let turns = due_in-turns now lt v' placed.0 (ground arith) in
            let less = due_in-lower now lt v' placed.0 (ground arith) in
            let many : 0 < v'.rotation = ground arith in
            rw (kept_turns p v' ys t) (stays (omega arith) c u (Aged-kept lt placed.1 a))
        | inr t ↦
            let now_due = due_in-now now lt v' placed.0 (ground arith) in
            rw (kept_fires p v' ys t) (gone (omega arith) (Aged-kept lt placed.1 a))
      ]
  Aged-kept lt placed (gone d a) = gone (omega arith) (Aged-kept lt placed a)

calls-append :
    (xs : TwCells) (log log' : List Fired) → calls xs log ++ log' ≡ calls xs (log ++ log')
calls-append [] log log' = rw (calls_nil log, calls_nil (log ++ log')) refl
calls-append ((p, v) ∷ xs) log log' =
    rw (calls_cons p v xs log, calls_cons p v xs (log ++ log')) (calls-append xs _ log')

-- The wheel `m` ticks later.
pub record IsElapsed (m : ℕ) (w : TimeWheel) (f : ℕ → TwCells) (r : TimeWheel × List Fired)
    (g : Store TwTimer) : Type 0 where
  pub after : ℕ → TwCells
  pub wheel : IsWheel g r.0 after
  pub current_is : r.0.cur_slot ≡ (w.cur_slot + m) % slot_count
  pub aged : (i : ℕ) → i < slot_count → Aged m w.cur_slot r.0.cur_slot (f i) (after i)
  pub log_is : r.1 ≡ history m w.cur_slot f

module _ (k : ℕ) (h : Store TwTimer) (w : TimeWheel) (f : ℕ → TwCells) (is : IsWheel h w f)
    (cb : (i : ℕ) → i < slot_count → All HasCallback (f i))
    (fuel : (i : ℕ) → i < slot_count → length (f i) < k) where
  further :
      (m : ℕ) (r r' : TimeWheel × List Fired) (g g' : Store TwTimer)
      → (e : IsElapsed m w f r g) → IsAdvance g r.0 e.after r' g'
      → IsElapsed (suc m) w f (r'.0, r'.1 ++ r.1) g'
  unfolding history
  further m r r' g g' e t =
      let now = r.0.cur_slot in
      let bound = e.wheel.current in
      let xs = due_now now (e.after now) in
      let same : calls xs [] ++ r.1 ≡ calls (due_at m w.cur_slot (f now)) r.1 =
        calls-append xs [] r.1 ∙ Aged-calls r.1 (e.aged now bound) in
      record {
        after = t.after;
        wheel = t.wheel;
        current_is = omega (arith, t.current_is, e.current_is);
        aged =
            rw (t.after_is, t.current_is)
              (replace-elim
                (λ i ys. i < slot_count → Aged (suc m) w.cur_slot ((now + 1) % slot_count) (f i) ys)
                now (kept (e.after now)) e.after
                (λ b. Aged-kept bound (e.wheel.placed now bound) (e.aged now bound))
                λ j ne b. Aged-other bound j b ne (e.wheel.placed j b) (e.aged j b));
        log_is =
            ap (λ (log : List Fired). log ++ r.1) t.log_is
            ∙ same
            ∙ ap (λ (i : ℕ). calls (due_at m w.cur_slot (f i)) r.1) e.current_is
            ∙ ap (calls (due_at m w.cur_slot (f ((w.cur_slot + m) % slot_count)))) e.log_is;
      }

  -- `tick` called any number of times on a valid wheel of timers with callbacks returns each time.
  -- After `m` calls the wheel is valid, and exactly the timers that had fewer than `m` ticks left
  -- are gone, of which a timer with `n` ticks left was called by the call of number `n + 1`, once;
  -- the others have `m` ticks less to wait. Within a call the callbacks run in the order of the slot.
  pub ticks-IsElapsed : (m : ℕ) → Returns (IsElapsed m w f) (ticks m k w h)
  unfolding ticks history
  ticks-IsElapsed zero = returns (record {
    after = f;
    wheel = is;
    current_is = omega (arith, is.current);
    aged = λ i b. Aged-start w.cur_slot (f i);
    log_is = refl;
  })
  ticks-IsElapsed (suc m) = Returns-bind (ticks-IsElapsed m) λ r g e.
      let now = e.wheel.current in
      Returns-bind
        (tick-IsAdvance k g r.0 e.after e.wheel (Aged-HasCallback (e.aged _ now) (cb _ now))
          (omega (arith, Aged-length (e.aged _ now), fuel r.0.cur_slot now)))
        λ r' g' t. returns (further m r r' g g' e t)
