-- ===== src/SortTimerList/Sweep.antt =====
-- The loop of `tick`: what it frees, and which callbacks run.
use high_performance_linux_s.Base.{
  ℕ, zero, suc, ◌<◌, ◌≡◌, refl, ◌∙◌, sym, ◌≢◌, true, false, none, List, [], ◌∷◌, arith, ltb,
  if◌then◌else◌, length, All, Bool-cases, inl, inr, ne→==, or_false_left, or_false_right,
  append-ne-nil,
}
use high_performance_linux_s.Nodes.{Fired, Ptr, null, node, Store, write}
use high_performance_linux_s.Nodes.Returns.{Returns, returns, Returns-mono, Returns-bind}
use high_performance_linux_s.Nodes.Links.{
  has, first, last, Links, SameOutside, Links-write, load-ok, free-ok, clear_prev_lem, write_self,
  write_other, freed-cons,
}
use high_performance_linux_s.SortTimerList.{
  UtilTimer, TimerCells, TimerList, tick_loop, tick, call, IsList, ends, at_head,
}

-- The timers in front of the first one that expires after `cur`, and the rest.
unfoldable pub due : ℕ → TimerCells → TimerCells
due cur [] = []
due cur ((p, v) ∷ xs) = if ltb cur v.expire then [] else (p, v) ∷ due cur xs

unfoldable pub later : ℕ → TimerCells → TimerCells
later cur [] = []
later cur ((p, v) ∷ xs) = if ltb cur v.expire then (p, v) ∷ xs else later cur xs

-- The callbacks of `xs`, the last first, in front of `log`.
unfoldable pub fired : TimerCells → List Fired → List Fired
fired [] log = log
fired ((p, v) ∷ xs) log = fired xs (record { callee = v.cb_func; argument = v.user_data } ∷ log)

abbrev pub HasCallback : Ptr × UtilTimer → Type 0
HasCallback (p, v) = v.cb_func ≢ 0

-- After the sweep: the list holds the later timers, the due ones are freed, and their callbacks ran
-- in the order of the list, each once.
pub record Swept (h : Store UtilTimer) (cur : ℕ) (xs : TimerCells) (log : List Fired) (tl : Ptr)
    (r : TimerList × List Fired) (g : Store UtilTimer) : Type 0 where
  pub links : Links g null (later cur xs) null
  pub head : r.0.head ≡ first (later cur xs) null
  pub tail : r.0.tail ≡ tl
  pub log_is : r.1 ≡ fired (due cur xs) log
  pub freed : (a : Ptr) → has a (due cur xs) ≡ true → g a ≡ none
  pub same : (a : Ptr) → has a xs ≡ false → g a ≡ h a

pub due_nil : (cur : ℕ) → due cur [] ≡ []
unfolding due
due_nil cur = refl

pub later_nil : (cur : ℕ) → later cur [] ≡ []
unfolding later
later_nil cur = refl

module _ (cur : ℕ) (p : Ptr) (v : UtilTimer) (xs : TimerCells) where
  pub due-due : ltb cur v.expire ≡ false → due cur ((p, v) ∷ xs) ≡ (p, v) ∷ due cur xs
  unfolding due
  due-due ge = rw ge

  pub later_due : ltb cur v.expire ≡ false → later cur ((p, v) ∷ xs) ≡ later cur xs
  unfolding later
  later_due ge = rw ge

  pub due_later : ltb cur v.expire ≡ true → due cur ((p, v) ∷ xs) ≡ []
  unfolding due
  due_later lt = rw lt

  pub later-later : ltb cur v.expire ≡ true → later cur ((p, v) ∷ xs) ≡ (p, v) ∷ xs
  unfolding later
  later-later lt = rw lt

tick_loop_lem :
    (k cur : ℕ) (h : Store UtilTimer) (xs : TimerCells) (tl : Ptr) (log : List Fired)
    → Links h null xs null
    → All HasCallback xs
    → length xs < k
    → Returns
        (Swept h cur xs log tl)
        (tick_loop k cur (first xs null) (ends (first xs null) tl) log h)
unfolding tick_loop fired call
tick_loop_lem zero cur h xs tl log ls cb fuel = absurd (omega arith)
tick_loop_lem (suc k) cur h [] tl log ls cb fuel = returns (record {
  links = rw (later_nil cur) tt;
  head = rw (later_nil cur);
  tail = refl;
  log_is = rw (due_nil cur);
  freed = λ a i. cc (rw (due_nil cur) at i);
  same = λ a o. refl;
})
tick_loop_lem (suc k) cur h ((p, v) ∷ xs) tl log ls cb fuel = elim (Bool-cases (ltb cur v.expire)) [
  | inl lt ↦
      rw (ne→== p null ls.1, load-ok h p _ ls.1 ls.0)
        (rw lt (
          returns (record {
            links = rw (later-later cur p v xs lt) ls;
            head = rw (later-later cur p v xs lt);
            tail = refl;
            log_is = rw (due_later cur p v xs lt);
            freed = λ a i. cc (rw (due_later cur p v xs lt) at i);
            same = λ a o. refl;
          })))
  | inr ge ↦
      rw (ne→== p null ls.1, load-ok h p _ ls.1 ls.0)
        (rw (ge, ne→== v.cb_func 0 cb.0)
          (rw (load-ok h p _ ls.1 ls.0) (
            Returns-bind (clear_prev_lem h p xs ls.3) λ _ g r.
              rw (free-ok g p (node v null (first xs null)) ls.1 (r.1 p ls.2 ∙ ls.0)) (
                Returns-mono
                  (tick_loop_lem k cur (write g p none) xs tl _
                    (Links-write g null xs null p none ls.2 r.0) cb.1 (omega arith))
                  λ r' g' s. record {
                    links = rw (later_due cur p v xs ge) s.links;
                    head = rw (later_due cur p v xs ge) s.head;
                    tail = s.tail;
                    log_is = rw (due-due cur p v xs ge) s.log_is;
                    freed = rw (due-due cur p v xs ge) (
                        freed-cons g' p v (due cur xs) (s.same p ls.2 ∙ write_self g p none)
                          s.freed);
                    same = λ a o.
                        s.same a (or_false_right _ _ o)
                        ∙ write_other g p none a (or_false_left _ _ o)
                        ∙ r.1 a (or_false_right _ _ o);
                  }))))
]

last-later :
    (cur : ℕ) (q r : Ptr) (xs : TimerCells) → later cur xs ≢ [] → last q (later cur xs) ≡ last r xs
unfolding later
last-later cur q r [] ne = absurd (ne refl)
last-later cur q r ((p, v) ∷ xs) ne = elim (Bool-cases (ltb cur v.expire)) [
  | inl lt ↦ rw lt
  | inr ge ↦ rw ge (last-later cur q p xs (rw ge at ne))
]

-- After `tick`: the list stands for the later timers.
pub record Ticked (h : Store UtilTimer) (cur : ℕ) (xs : TimerCells) (r : TimerList × List Fired)
    (g : Store UtilTimer) : Type 0 where
  pub list : IsList g r.0 (later cur xs)
  pub log_is : r.1 ≡ fired (due cur xs) []
  pub freed : (a : Ptr) → has a (due cur xs) ≡ true → g a ≡ none
  pub same : SameOutside xs h g

pub tick_lem :
    (k cur : ℕ) (h : Store UtilTimer) (l : TimerList) (xs : TimerCells)
    → IsList h l xs
    → All HasCallback xs
    → length xs < k
    → Returns (Ticked h cur xs) (tick k cur l h)
unfolding tick fired
tick_lem k cur h l [] is cb fuel = rw is.head (
    returns (record {
      list = rw (later_nil cur) (record { links = tt; head = refl; tail = λ ne. absurd (ne refl) });
      log_is = rw (due_nil cur);
      freed = λ a i. cc (rw (due_nil cur) at i);
      same = λ a o. refl;
    }))
tick_lem k cur h l ((p, v) ∷ xs) is cb fuel =
    at_head (λ l'. Returns (Ticked h cur ((p, v) ∷ xs)) (tick k cur l' h)) l p is.head
      (rw (ne→== p null is.links.1) (
        Returns-mono (tick_loop_lem k cur h ((p, v) ∷ xs) l.tail [] is.links cb fuel) λ r g s.
          record {
            list = record {
              links = s.links;
              head = s.head;
              tail = λ ne.
                  s.tail
                  ∙ is.tail (append-ne-nil [] _ _)
                  ∙ sym (last-later cur null null ((p, v) ∷ xs) ne);
            };
            log_is = s.log_is;
            freed = s.freed;
            same = s.same;
          }))
