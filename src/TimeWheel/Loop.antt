-- ===== src/TimeWheel/Loop.antt =====
-- The loop of `tick` behind a node that stays, and from the head of the slot on.
use high_performance_linux_s.Base.{
  ℕ, zero, suc, ◌<◌, ◌≡◌, refl, ◌∙◌, ◌≢◌, true, false, some, none, List, [], ◌∷◌, arith, ltb, ◌==◌,
  ap, length, All, Bool-cases, inl, inr, ne→==, ==_self, or_false_left, or_false_right, lt→ltb,
}
use high_performance_linux_s.Nodes.{Fired, Ptr, null, node, Store, write}
use high_performance_linux_s.Nodes.Returns.{Returns, returns, Returns-mono, Returns-bind}
use high_performance_linux_s.Nodes.Links.{
  has, first, Links, SameOutside, Links-write, load-ok, set_body-ok, free-ok, clear_prev_lem,
  write_self, write_other, freed-cons,
}
use high_performance_linux_s.TimeWheel.{
  TwTimer, TwCells, TimeWheel, slot_count, put, slot, set_slot, run_callback, tick_loop,
}
use high_performance_linux_s.TimeWheel.Sweep.{
  lower, kept, expired, calls, HasCallback, kept_nil, expired_nil, calls_nil, kept_turns,
  kept_fires, expired_turns, expired_fires, calls_cons, has-kept, bypass_lem,
}

-- What the loop does to `xs` behind the node `q`.
record Inner (h : Store TwTimer) (pv q : Ptr) (u : TwTimer) (xs : TwCells) (w : TimeWheel)
    (log : List Fired) (r : TimeWheel × List Fired) (g : Store TwTimer) : Type 0 where
  links : Links g pv ((q, u) ∷ kept xs) null
  wheel : r.0 ≡ w
  log_is : r.1 ≡ calls (expired xs) log
  freed : (a : Ptr) → has a (expired xs) ≡ true → g a ≡ none
  same : SameOutside ((q, u) ∷ xs) h g

inner_lem :
    (k : ℕ) (h : Store TwTimer) (pv q : Ptr) (u : TwTimer) (xs : TwCells) (w : TimeWheel)
    (log : List Fired)
    → w.cur_slot < slot_count
    → has (w.slots w.cur_slot) xs ≡ false
    → Links h pv ((q, u) ∷ xs) null
    → All HasCallback xs
    → length xs < k
    → Returns (Inner h pv q u xs w log) (tick_loop k (first xs null) w log h)
unfolding tick_loop slot run_callback
inner_lem zero h pv q u xs w log lt out ls cb fuel = absurd (omega arith)
inner_lem (suc k) h pv q u [] w log lt out ls cb fuel = returns (record {
  links = rw kept_nil ls;
  wheel = refl;
  log_is = rw (expired_nil, calls_nil log);
  freed = λ a i. cc (rw expired_nil at i);
  same = λ a o. refl;
})
inner_lem (suc k) h pv q u ((p, v) ∷ xs) w log lt out ls cb fuel =
    let (hq, qne, qout, (hp, pne, pout, rest)) = ls in
    elim (Bool-cases (ltb 0 v.rotation)) [
      | inl t ↦
          let h₁ = write h p (some (node (lower v) q (first xs null))) in
          rw (ne→== p null pne, load-ok h p _ pne hp)
            (rw (t, set_body-ok h p _ pne hp (lower v))
              (rw (load-ok h₁ p (node (lower v) q (first xs null)) pne (write_self h p _)) (
                Returns-mono
                  (inner_lem k h₁ q p (lower v) xs w log lt (or_false_right _ _ out)
                    (write_self h p _, pne, pout, Links-write h p xs null p _ pout rest) cb.1
                    (omega arith))
                  λ r g s. record {
                    links = rw (kept_turns p v xs t) (
                      s.same q qout ∙ write_other h p _ q (or_false_left _ _ qout) ∙ hq,
                      qne,
                      ground (arith, has-kept q xs),
                      s.links,
                    );
                    wheel = s.wheel;
                    log_is = rw (expired_turns p v xs t) s.log_is;
                    freed = rw (expired_turns p v xs t) s.freed;
                    same = λ a o.
                        s.same a (or_false_right _ _ o)
                        ∙ write_other h p _ a (or_false_left _ _ (or_false_right _ _ o));
                  })))
      | inr t ↦
          let log' = record { callee = v.cb_func; argument = v.user_data } ∷ log in
          let not_head : (p == w.slots w.cur_slot) ≡ false = ground arith in
          rw (ne→== p null pne, load-ok h p _ pne hp)
            (rw (t, ne→== v.cb_func 0 cb.0)
              (rw (lt→ltb _ _ lt) (
                rw not_head (
                  Returns-bind (bypass_lem h pv q u p v xs ls) λ _ g b.
                    let g₁ = write g p none in
                    rw (load-ok g p _ pne b.node_is) (
                      rw (free-ok g p _ pne b.node_is) (
                        Returns-mono
                          (inner_lem k g₁ pv q u xs w log' lt (or_false_right _ _ out)
                            (Links-write g pv ((q, u) ∷ xs) null p none (ground arith) b.links) cb.1
                            (omega arith))
                          λ r g' s. record {
                            links = rw (kept_fires p v xs t) s.links;
                            wheel = s.wheel;
                            log_is =
                                rw (expired_fires p v xs t, calls_cons p v (expired xs) log)
                                  s.log_is;
                            freed = rw (expired_fires p v xs t) (
                                freed-cons g' p v (expired xs)
                                  (s.same p (ground arith) ∙ write_self g p none) s.freed);
                            same = λ a o.
                                s.same a (ground arith)
                                ∙ write_other g p none a (ground arith)
                                ∙ b.same a (ground arith);
                          }))))))
    ]

-- What the loop does to the list of the current slot.
pub record Turned (h : Store TwTimer) (xs : TwCells) (w : TimeWheel) (log : List Fired)
    (r : TimeWheel × List Fired) (g : Store TwTimer) : Type 0 where
  pub links : Links g null (kept xs) null
  pub head : r.0.slots w.cur_slot ≡ first (kept xs) null
  pub others : (i : ℕ) → i ≢ w.cur_slot → r.0.slots i ≡ w.slots i
  pub cur_slot_is : r.0.cur_slot ≡ w.cur_slot
  pub log_is : r.1 ≡ calls (expired xs) log
  pub freed : (a : Ptr) → has a (expired xs) ≡ true → g a ≡ none
  pub same : SameOutside xs h g

pub tick_loop_lem :
    (k : ℕ) (h : Store TwTimer) (xs : TwCells) (w : TimeWheel) (log : List Fired)
    → w.cur_slot < slot_count
    → w.slots w.cur_slot ≡ first xs null
    → Links h null xs null
    → All HasCallback xs
    → length xs < k
    → Returns (Turned h xs w log) (tick_loop k (first xs null) w log h)
unfolding tick_loop slot run_callback put
tick_loop_lem zero h xs w log lt hd ls cb fuel = absurd (omega arith)
tick_loop_lem (suc k) h [] w log lt hd ls cb fuel = returns (record {
  links = rw kept_nil tt;
  head = rw kept_nil hd;
  others = λ i ne. refl;
  cur_slot_is = refl;
  log_is = rw (expired_nil, calls_nil log);
  freed = λ a i. cc (rw expired_nil at i);
  same = λ a o. refl;
})
tick_loop_lem (suc k) h ((p, v) ∷ xs) w log lt hd ls cb fuel =
    let (hp, pne, pout, rest) = ls in
    elim (Bool-cases (ltb 0 v.rotation)) [
      | inl t ↦
          let h₁ = write h p (some (node (lower v) null (first xs null))) in
          let out : has (w.slots w.cur_slot) xs ≡ false = rw hd pout in
          rw (ne→== p null pne, load-ok h p _ pne hp)
            (rw (t, set_body-ok h p _ pne hp (lower v))
              (rw (load-ok h₁ p (node (lower v) null (first xs null)) pne (write_self h p _)) (
                Returns-mono
                  (inner_lem k h₁ null p (lower v) xs w log lt out
                    (write_self h p _, pne, pout, Links-write h p xs null p _ pout rest) cb.1
                    (omega arith))
                  λ r g s. record {
                    links = rw (kept_turns p v xs t) s.links;
                    head =
                        rw (kept_turns p v xs t)
                          (ap (λ (x : TimeWheel). x.slots w.cur_slot) s.wheel ∙ hd);
                    others = λ i ne. ap (λ (x : TimeWheel). x.slots i) s.wheel;
                    cur_slot_is = ap (λ (x : TimeWheel). x.cur_slot) s.wheel;
                    log_is = rw (expired_turns p v xs t) s.log_is;
                    freed = rw (expired_turns p v xs t) s.freed;
                    same = λ a o. s.same a o ∙ write_other h p _ a (or_false_left _ _ o);
                  })))
      | inr t ↦
          let log' = record { callee = v.cb_func; argument = v.user_data } ∷ log in
          let w' = set_slot w.cur_slot (first xs null) w in
          let h₁ = write h p none in
          rw (ne→== p null pne, load-ok h p _ pne hp)
            (rw (t, ne→== v.cb_func 0 cb.0)
              (rw (lt→ltb _ _ lt) (
                rw (hd, ==_self p)
                  (rw (load-ok h p _ pne hp) (
                    rw (free-ok h p _ pne hp) (
                      Returns-bind
                        (clear_prev_lem h₁ p xs (Links-write h p xs null p none pout rest))
                        λ _ g c.
                          Returns-mono
                            (tick_loop_lem k g xs w' log' lt (ground arith) c.0 cb.1 (omega arith))
                            λ r g' s. record {
                              links = rw (kept_fires p v xs t) s.links;
                              head = rw (kept_fires p v xs t) s.head;
                              others = λ i ne. s.others i ne ∙ ground arith;
                              cur_slot_is = s.cur_slot_is;
                              log_is =
                                  rw (expired_fires p v xs t, calls_cons p v (expired xs) log)
                                    s.log_is;
                              freed = rw (expired_fires p v xs t) (
                                  freed-cons g' p v (expired xs)
                                    (s.same p pout ∙ c.1 p pout ∙ write_self h p none) s.freed);
                              same = λ a o.
                                  s.same a (or_false_right _ _ o)
                                  ∙ c.1 a (or_false_right _ _ o)
                                  ∙ write_other h p none a (or_false_left _ _ o);
                            }))))))
    ]
