-- ===== src/ThreadPool/Idle.antt =====
-- What the workers do while `m_stop` is false.
use high_performance_linux_s.Base.{
  ℕ, ◌≡◌, refl, Bool, true, false, [], ◌==◌, Bool-cases, inl, inr, ap, sym, ◌∙◌,
}
use high_performance_linux_s.ThreadPool.{
  ThreadPool, Phase, Phases, outside, checking, refusing, pushed, posting, waiting, woken, locked,
  found_empty, taken, handling, finished, move, Step, append_lock, append_refuse, append_false,
  append_push, append_unlock, append_post, destroy_handles, destroy_stop, destroy_members, deleted,
  destroyed, run_leave, run_enter, run_wait, run_interrupted, run_lock, run_empty, run_again,
  run_take, run_unlock, run_null, run_process, Steps, stay, go, initial, starting,
}
use high_performance_linux_s.ThreadPool.Stop.{Steps-stop}

-- The phases inside the loop of `run`.
unfoldable pub works : Phase → Bool
works waiting = true
works woken = true
works locked = true
works found_empty = true
works (taken _) = true
works (handling _) = true
works _ = false

record IsIdle (s : ThreadPool) (ps : Phases) : Type 0 where
  nothing : s.processed ≡ []
  nobody : (t : ℕ) → works (ps t) ≡ false

module _ (ps : Phases) (all : (u : ℕ) → works (ps u) ≡ false) (t : ℕ) (p : Phase) where
  stays : works p ≡ false → (u : ℕ) → works (move t p ps u) ≡ false
  unfolding move
  stays out u = elim (Bool-cases (u == t)) [ inl e ↦ rw e out | inr ne ↦ rw ne (all u) ]

  never {ℓ} : {A : Type ℓ} → ps t ≡ p → works p ≡ true → A
  never at in_loop = absurd (cc (sym (all t) ∙ ap works at ∙ in_loop))

Step-IsIdle :
    (t : ℕ) (s s' : ThreadPool) (ps ps' : Phases)
    → Step t s ps s' ps'
    → s'.stop ≡ false
    → IsIdle s ps
    → IsIdle s' ps'
unfolding works
Step-IsIdle t s _ ps _ (append_lock r at free) off is = record {
  nothing = is.nothing;
  nobody = stays ps is.nobody t (checking r) refl;
}
Step-IsIdle t s _ ps _ (append_refuse at full) off is = record {
  nothing = is.nothing;
  nobody = stays ps is.nobody t refusing refl;
}
Step-IsIdle t s _ ps _ (append_false at) off is = record {
  nothing = is.nothing;
  nobody = stays ps is.nobody t outside refl;
}
Step-IsIdle t s _ ps _ (append_push at room) off is = record {
  nothing = is.nothing;
  nobody = stays ps is.nobody t pushed refl;
}
Step-IsIdle t s _ ps _ (append_unlock at) off is = record {
  nothing = is.nothing;
  nobody = stays ps is.nobody t posting refl;
}
Step-IsIdle t s _ ps _ (append_post at) off is = record {
  nothing = is.nothing;
  nobody = stays ps is.nobody t outside refl;
}
Step-IsIdle t s _ ps _ (destroy_handles at whole) off is = record {
  nothing = is.nothing;
  nobody = stays ps is.nobody t deleted refl;
}
Step-IsIdle t s _ ps _ (destroy_stop at) off is = cc
Step-IsIdle t s _ ps _ (destroy_members at) off is = record {
  nothing = is.nothing;
  nobody = stays ps is.nobody t destroyed refl;
}
Step-IsIdle t s _ ps _ (run_leave at clear) off is = record {
  nothing = is.nothing;
  nobody = stays ps is.nobody t finished refl;
}
Step-IsIdle t s _ ps _ (run_enter at on) off is = absurd (cc (sym off ∙ on))
Step-IsIdle t s _ ps _ (run_wait n at some_left) off is = never ps is.nobody t waiting at refl
Step-IsIdle t s _ ps _ (run_interrupted at) off is = never ps is.nobody t waiting at refl
Step-IsIdle t s _ ps _ (run_lock at free) off is = never ps is.nobody t woken at refl
Step-IsIdle t s _ ps _ (run_empty at no_request) off is = never ps is.nobody t locked at refl
Step-IsIdle t s _ ps _ (run_again at) off is = never ps is.nobody t found_empty at refl
Step-IsIdle t s _ ps _ (run_take r rest at queue) off is = never ps is.nobody t locked at refl
Step-IsIdle t s _ ps _ (run_unlock {request = r} at) off is = never ps is.nobody t (taken r) at refl
Step-IsIdle t s _ ps _ (run_null at) off is = never ps is.nobody t (handling 0) at refl
Step-IsIdle t s _ ps _ (run_process {request = r} at live) off is =
    never ps is.nobody t (handling r) at refl

steps-IsIdle :
    (s s' : ThreadPool) (ps ps' : Phases)
    → Steps s ps s' ps'
    → s'.stop ≡ false
    → IsIdle s ps
    → IsIdle s' ps'
steps-IsIdle s _ ps _ stay off is = is
steps-IsIdle s s' ps ps' (go {s' = m} {ps' = pm} t live step rest) off is =
    steps-IsIdle m s' pm ps' rest off
      (Step-IsIdle t s m ps pm step (Steps-stop m s' pm ps' rest off) is)

-- Until the destructor sets `m_stop`, no request is processed, whatever is appended and in whatever
-- order the threads go.
pub reachable-idle :
    (max : ℕ) (worker : ℕ → Bool) (s : ThreadPool) (ps : Phases)
    → Steps (initial max) (starting worker) s ps
    → s.stop ≡ false
    → s.processed ≡ []
unfolding works
reachable-idle max worker s ps steps off =
    let start : IsIdle (initial max) (starting worker) = record {
      nothing = refl;
      nobody = λ t. elim (Bool-cases (worker t)) [ inl e ↦ rw e refl | inr e ↦ rw e refl ];
    } in
    let is = steps-IsIdle _ s _ ps steps off start in is.nothing
