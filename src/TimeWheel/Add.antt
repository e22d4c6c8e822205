-- ===== src/TimeWheel/Add.antt =====
-- The constructor and `add_timer`.
use high_performance_linux_s.Base.{
  ℕ, ◌+◌, ◌%◌, ◌/◌, ◌<◌, ◌≡◌, refl, ◌∙◌, sym, ◌≢◌, true, false, some, none, [], ◌∷◌, arith, ◌==◌,
  ap, if◌then◌else◌, ℤ, pos, negsuc, ne→==, lt→ltb, or_false_left, or_false_right,
}
use high_performance_linux_s.Nodes.{Ptr, null, node, Store, write}
use high_performance_linux_s.Nodes.Returns.{Returns, returns, Returns-mono}
use high_performance_linux_s.Nodes.Links.{
  has, first, Links, SameOutside, set_next-ok, set_prev-ok, Links-write,
}
use high_performance_linux_s.TimeWheel.{
  TwTimer, TwCells, TimeWheel, slot_count, slot, put, set_slot, ticks_of, time_wheel, push_front,
  add_timer, IsWheel,
}
use high_performance_linux_s.TimeWheel.Slots.{replace, live, IsWheel-replace}
use high_performance_linux_s.TimeWheel.Agenda.{due_in}

pub time_wheel-IsWheel : (h : Store TwTimer) → IsWheel h time_wheel (λ _. [])
time_wheel-IsWheel h = record {
  current = omega arith;
  links = λ i b. tt;
  heads = λ i b. refl;
  apart = λ i j b c ne a e. refl;
  placed = λ i b. tt;
}

-- What `add_timer` should do with a timeout: nothing if it is negative.
pub record IsScheduled (h : Store TwTimer) (t : Ptr) (timeout : ℕ) (w : TimeWheel) (f : ℕ → TwCells)
    (r : Ptr × TimeWheel) (g : Store TwTimer) : Type 0 where
  pub body : TwTimer
  pub at : ℕ
  pub at_bound : at < slot_count
  pub pointer : r.0 ≡ t
  pub wheel : IsWheel g r.1 (replace at ((t, body) ∷ f at) f)
  pub current_is : r.1.cur_slot ≡ w.cur_slot
  pub due : due_in w.cur_slot body ≡ (if timeout == 0 then 1 else timeout)
  pub no_callback : body.cb_func ≡ 0
  pub same : SameOutside ((t, body) ∷ f at) h g

abbrev pub IsAdded :
    Store TwTimer → Ptr → ℤ → TimeWheel → (ℕ → TwCells) → Ptr × TimeWheel → Store TwTimer → Type 0
IsAdded h t (pos timeout) w f r g = IsScheduled h t timeout w f r g
IsAdded h t (negsuc n) w f r g = (r ≡ (null, w)) × (g ≡ h)

-- The list of a slot with a new node in front.
pub record Pushed (h : Store TwTimer) (t : Ptr) (tv : TwTimer) (xs : TwCells) (g : Store TwTimer)
    : Type 0 where
  pub links : Links g null ((t, tv) ∷ xs) null
  pub same : SameOutside ((t, tv) ∷ xs) h g

module _ (h : Store TwTimer) (t : Ptr) (tv : TwTimer) (ts : ℕ) (w : TimeWheel) (tne : t ≢ null)
    (bound : ts < slot_count) where
  push_front_lem :
      (xs : TwCells)
      → w.slots ts ≡ first xs null
      → has t xs ≡ false
      → Links h null xs null
      → Returns
          (λ r g. (r ≡ (t, set_slot ts t w)) × Pushed h t tv xs g)
          (push_front t ts w (write h t (some (node tv null null))))
  unfolding push_front slot write
  push_front_lem [] hd out ls =
      rw (lt→ltb _ _ bound, hd)
        (returns
          (refl, record { links = (ground arith, tne, refl, tt); same = λ a o. ground arith }))
  push_front_lem ((p, v) ∷ xs) hd out ls =
      let (hp, pne, pout, rest) = ls in
      let h₁ = write h t (some (node tv null null)) in
      let h₂ = write h₁ t (some (node tv null p)) in
      let spared : (t == p) ≡ false = or_false_left _ _ out in
      rw (lt→ltb _ _ bound, hd, ne→== p null pne)
        (rw (set_next-ok h₁ t (node tv null null) tne (ground arith) p) (
          rw (set_prev-ok h₂ p (node v null (first xs null)) pne (ground arith) t) (
            returns (
              refl,
              record {
                links = (
                  ground arith,
                  tne,
                  out,
                  (
                    ground arith,
                    pne,
                    pout,
                    Links-write h₂ p xs null p _ pout (
                        Links-write h₁ p xs null t _ (or_false_right _ _ out)
                          (Links-write h p xs null t _ (or_false_right _ _ out) rest)),
                  ),
                );
                same = λ a o. ground arith;
              },
            ))))

due_in-scheduled :
    (cur ticks : ℕ) (v : TwTimer)
    → cur < slot_count
    → v.rotation ≡ ticks / slot_count
    → v.time_slot ≡ (cur + ticks % slot_count) % slot_count
    → due_in cur v ≡ ticks
unfolding due_in
due_in-scheduled cur ticks v lt r s = omega arith

ticks_of-timeout : (timeout : ℕ) → ticks_of timeout ≡ (if timeout == 0 then 1 else timeout)
unfolding ticks_of
ticks_of-timeout timeout = ground arith

-- `add_timer` on a valid wheel returns, for every timeout. With a negative one it returns null and
-- changes nothing. Otherwise it returns the new node, which has no callback yet, and the wheel is
-- valid and holds the new timer besides the old ones; the new timer has as many ticks to wait as the
-- timeout says, but at least one. No node outside the timer's slot is written. The address that
-- `new` returns is not null and was not in use.
pub add_timer-IsAdded :
    (h : Store TwTimer) (t : Ptr) (timeout : ℤ) (w : TimeWheel) (f : ℕ → TwCells)
    → IsWheel h w f
    → t ≢ null
    → h t ≡ none
    → Returns (IsAdded h t timeout w f) (add_timer t timeout w h)
unfolding add_timer put
add_timer-IsAdded h t (negsuc n) w f is tne free = returns (refl, refl)
add_timer-IsAdded h t (pos timeout) w f is tne free =
    let ticks = ticks_of timeout in
    let ts = (w.cur_slot + ticks % slot_count) % slot_count in
    let body : TwTimer = record {
      rotation = ticks / slot_count;
      time_slot = ts;
      cb_func = 0;
      user_data = 0;
    } in
    let bound : ts < slot_count = omega arith in
    let out = λ (j : ℕ) (b : j < slot_count). live h null (f j) t (is.links j b) free in
    Returns-mono
      (push_front_lem h t body ts w tne bound (f ts) (is.heads ts bound) (out ts bound)
        (is.links ts bound))
      λ r g p.
        let apart : (j : ℕ)
            → j < slot_count
            → j ≢ ts
            → (a : Ptr) → has a (f j) ≡ true
            → has a ((t, body) ∷ f ts) ≡ false =
          λ j b ne a i.
            let clear = is.apart j ts b bound ne a i in
            let fresh = out j b in
            let other : (a == t) ≡ false =
              ne→== a t λ e. absurd (cc (sym i ∙ ap (λ (x : Ptr). has x (f j)) e ∙ fresh)) in
            rw other clear in
        record {
          body = body;
          at = ts;
          at_bound = bound;
          pointer = ap (λ (x : Ptr × TimeWheel). x.0) p.0;
          wheel =
              IsWheel-replace h g w r.1 f ts ((t, body) ∷ f ts) is bound
                (rw (ap (λ (x : Ptr × TimeWheel). x.1) p.0) is.current) p.1.links
                (rw (ap (λ (x : Ptr × TimeWheel). x.1) p.0) (ground arith))
                (λ j ne. rw (ap (λ (x : Ptr × TimeWheel). x.1) p.0) (ground arith)) apart
                (λ j b ne a i. p.1.same a (apart j b ne a i)) (refl, is.placed ts bound);
          current_is = ap (λ (x : Ptr × TimeWheel). x.1.cur_slot) p.0;
          due =
              due_in-scheduled w.cur_slot ticks body is.current refl refl
              ∙ ticks_of-timeout timeout;
          no_callback = refl;
          same = p.1.same;
        }
