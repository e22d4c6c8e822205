-- ===== src/ThreadPool/Stop.antt =====
-- What follows once the destructor has set `m_stop`.
use high_performance_linux_s.Base.{
  ℕ, ◌≡◌, refl, Bool, true, false, ◌==◌, Bool-cases, inl, inr, sym, ◌∙◌,
}
use high_performance_linux_s.ThreadPool.{
  ThreadPool, Phase, Phases, outside, checking, refusing, pushed, posting, waiting, woken, locked,
  found_empty, taken, handling, testing, finished, move, Step, append_lock, append_refuse,
  append_false, append_push, append_unlock, append_post, destroy_handles, destroy_stop,
  destroy_members, deleted, stopped, destroyed, run_leave, run_enter, run_wait, run_interrupted,
  run_lock, run_empty, run_again, run_take, run_unlock, run_null, run_process, Steps, stay, go,
}

-- `m_stop` is never cleared again.
Step-stop :
    (t : ℕ) (s s' : ThreadPool) (ps ps' : Phases)
    → Step t s ps s' ps'
    → s'.stop ≡ false
    → s.stop ≡ false
Step-stop t s _ ps _ (destroy_stop at) off = cc
Step-stop t s _ ps _ _ off = off

pub Steps-stop :
    (s s' : ThreadPool) (ps ps' : Phases) → Steps s ps s' ps' → s'.stop ≡ false → s.stop ≡ false
Steps-stop s _ ps _ stay off = off
Steps-stop s s' ps ps' (go {s' = m} {ps' = pm} t live step rest) off =
    Step-stop t s m ps pm step (Steps-stop m s' pm ps' rest off)

unfoldable pub ended : Phase → Bool
ended finished = true
ended _ = false

Step-stays :
    (t : ℕ) (s s' : ThreadPool) (ps ps' : Phases)
    → Step t s ps s' ps'
    → s.stop ≡ true
    → s'.stop ≡ true
Step-stays t s _ ps _ (destroy_stop at) on = refl
Step-stays t s _ ps _ _ on = on

module _ (u t : ℕ) (ps : Phases) (going : ended (ps u) ≡ false) where
  goes_on : (p : Phase) → ended p ≡ false → ended (move t p ps u) ≡ false
  unfolding move
  goes_on p out = elim (Bool-cases (u == t)) [ inl e ↦ rw e out | inr ne ↦ rw ne going ]

  Step-running :
      (s s' : ThreadPool) (ps' : Phases)
      → Step t s ps s' ps'
      → s.stop ≡ true
      → ended (ps' u) ≡ false
  unfolding ended
  Step-running s _ _ (append_lock r at free) on = goes_on (checking r) refl
  Step-running s _ _ (append_refuse at full) on = goes_on refusing refl
  Step-running s _ _ (append_false at) on = goes_on outside refl
  Step-running s _ _ (append_push at room) on = goes_on pushed refl
  Step-running s _ _ (append_unlock at) on = goes_on posting refl
  Step-running s _ _ (append_post at) on = goes_on outside refl
  Step-running s _ _ (destroy_handles at whole) on = goes_on deleted refl
  Step-running s _ _ (destroy_stop at) on = goes_on stopped refl
  Step-running s _ _ (destroy_members at) on = goes_on destroyed refl
  Step-running s _ _ (run_leave at clear) on = absurd (cc (sym on ∙ clear))
  Step-running s _ _ (run_enter at set) on = goes_on waiting refl
  Step-running s _ _ (run_wait n at some_left) on = goes_on woken refl
  Step-running s _ _ (run_interrupted at) on = goes_on woken refl
  Step-running s _ _ (run_lock at free) on = goes_on locked refl
  Step-running s _ _ (run_empty at no_request) on = goes_on found_empty refl
  Step-running s _ _ (run_again at) on = goes_on testing refl
  Step-running s _ _ (run_take r rest at queue) on = goes_on (taken r) refl
  Step-running s _ _ (run_unlock {request = r} at) on = goes_on (handling r) refl
  Step-running s _ _ (run_null at) on = goes_on testing refl
  Step-running s _ _ (run_process at live) on = goes_on testing refl

-- Once `m_stop` is set, a thread that has not left `run` never leaves it, in any interleaving; it still uses the
-- pool when the members are destroyed.
pub running-never_ends :
    (u : ℕ) (s s' : ThreadPool) (ps ps' : Phases)
    → Steps s ps s' ps'
    → s.stop ≡ true
    → ended (ps u) ≡ false
    → ended (ps' u) ≡ false
running-never_ends u s _ ps _ stay on going = going
running-never_ends u s s' ps ps' (go {s' = m} {ps' = pm} t live step rest) on going =
    running-never_ends u m s' pm ps' rest (Step-stays t s m ps pm step on)
      (Step-running u t ps going s m pm step on)
