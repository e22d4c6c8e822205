-- ===== src/ThreadPool/Safety.antt =====
-- What holds in every interleaving of the threads.
use mathlib.Core.Option.{some-injective}
use high_performance_linux_s.Base.{
  ℕ, ◌+◌, ◌≡◌, refl, sym, ◌∙◌, ap, ◌≤◌, Bool, true, false, none, some, List, [], ◌∷◌, arith, ◌==◌,
  length, length-append, Bool-cases, inl, inr, ==→eq, ==→ne,
}
use high_performance_linux_s.ThreadPool.{
  ThreadPool, Phase, Phases, outside, checking, refusing, pushed, posting, testing, waiting, woken,
  locked, found_empty, taken, handling, finished, move, Step, append_lock, append_refuse,
  append_false, append_push, append_unlock, append_post, destroy_handles, destroy_stop,
  destroy_members, deleted, stopped, destroyed, run_leave, run_enter, run_wait, run_interrupted,
  run_lock, run_empty, run_again, run_take, run_unlock, run_null, run_process, Steps, stay, go,
  initial, starting,
}

-- The phases between `lock` and `unlock`.
unfoldable pub holds : Phase → Bool
holds (checking _) = true
holds refusing = true
holds pushed = true
holds locked = true
holds found_empty = true
holds (taken _) = true
holds _ = false

-- Only the thread that holds the lock is between `lock` and `unlock`, and the queue is bounded.
pub record IsSafe (s : ThreadPool) (ps : Phases) : Type 0 where
  pub owner : (t : ℕ) → holds (ps t) ≡ true → s.holder ≡ some t
  pub bound : length s.work_queue ≤ s.max_request + 1

module _ (s : ThreadPool) (ps : Phases) (is : IsSafe s ps) (t : ℕ) (p : Phase) where
  -- After a move of `t` that takes the lock, keeps it, gives it back or is outside it.
  acquire : s.holder ≡ none → (u : ℕ) → holds (move t p ps u) ≡ true → some t ≡ some u
  unfolding move
  acquire free u h = elim (Bool-cases (u == t)) [
    | inl e ↦ ap some (sym (==→eq u t e))
    | inr ne ↦ let mine = is.owner u (rw ne at h) in cc (sym free ∙ mine)
  ]

  keep : holds (ps t) ≡ true → (u : ℕ) → holds (move t p ps u) ≡ true → s.holder ≡ some u
  unfolding move
  keep held u h = elim (Bool-cases (u == t)) [
    | inl e ↦ is.owner t held ∙ ap some (sym (==→eq u t e))
    | inr ne ↦ is.owner u (rw ne at h)
  ]

  release :
      holds (ps t) ≡ true → holds p ≡ false → (u : ℕ) → holds (move t p ps u) ≡ true → none ≡ some u
  unfolding move
  release held out u h = elim (Bool-cases (u == t)) [
    | inl e ↦ let here = rw e at h in cc (sym out ∙ here)
    | inr ne ↦
        let same = some-injective u t (sym (is.owner u (rw ne at h)) ∙ is.owner t held) in
        absurd (==→ne u t ne same)
  ]

  apart : holds p ≡ false → (u : ℕ) → holds (move t p ps u) ≡ true → s.holder ≡ some u
  unfolding move
  apart out u h = elim (Bool-cases (u == t)) [
    | inl e ↦ let here = rw e at h in cc (sym out ∙ here)
    | inr ne ↦ is.owner u (rw ne at h)
  ]

held : (p q : Phase) → p ≡ q → holds q ≡ true → holds p ≡ true
held p q e h = ap holds e ∙ h

Step-IsSafe :
    (t : ℕ) (s s' : ThreadPool) (ps ps' : Phases) → Step t s ps s' ps' → IsSafe s ps → IsSafe s' ps'
unfolding holds
Step-IsSafe t s _ ps _ (append_lock r at free) is = record {
  owner = acquire s ps is t (checking r) free;
  bound = is.bound;
}
Step-IsSafe t s _ ps _ (append_refuse at full) is = record {
  owner = keep s ps is t refusing (held _ _ at refl);
  bound = is.bound;
}
Step-IsSafe t s _ ps _ (append_false at) is = record {
  owner = release s ps is t outside (held _ _ at refl) refl;
  bound = is.bound;
}
Step-IsSafe t s _ ps _ (append_push {request = r} at room) is = record {
  owner = keep s ps is t pushed (held _ _ at refl);
  bound = omega (arith, length-append s.work_queue (r ∷ []));
}
Step-IsSafe t s _ ps _ (append_unlock at) is = record {
  owner = release s ps is t posting (held _ _ at refl) refl;
  bound = is.bound;
}
Step-IsSafe t s _ ps _ (append_post at) is = record {
  owner = apart s ps is t outside refl;
  bound = is.bound;
}
Step-IsSafe t s _ ps _ (destroy_handles at whole) is = record {
  owner = apart s ps is t deleted refl;
  bound = is.bound;
}
Step-IsSafe t s _ ps _ (destroy_stop at) is = record {
  owner = apart s ps is t stopped refl;
  bound = is.bound;
}
Step-IsSafe t s _ ps _ (destroy_members at) is = record {
  owner = apart s ps is t destroyed refl;
  bound = is.bound;
}
Step-IsSafe t s _ ps _ (run_leave at off) is = record {
  owner = apart s ps is t finished refl;
  bound = is.bound;
}
Step-IsSafe t s _ ps _ (run_enter at on) is = record {
  owner = apart s ps is t waiting refl;
  bound = is.bound;
}
Step-IsSafe t s _ ps _ (run_wait n at some_left) is = record {
  owner = apart s ps is t woken refl;
  bound = is.bound;
}
Step-IsSafe t s _ ps _ (run_interrupted at) is = record {
  owner = apart s ps is t woken refl;
  bound = is.bound;
}
Step-IsSafe t s _ ps _ (run_lock at free) is = record {
  owner = acquire s ps is t locked free;
  bound = is.bound;
}
Step-IsSafe t s _ ps _ (run_empty at no_request) is = record {
  owner = keep s ps is t found_empty (held _ _ at refl);
  bound = is.bound;
}
Step-IsSafe t s _ ps _ (run_again at) is = record {
  owner = release s ps is t testing (held _ _ at refl) refl;
  bound = is.bound;
}
Step-IsSafe t s _ ps _ (run_take r rest at queue) is = record {
  owner = keep s ps is t (taken r) (held _ _ at refl);
  bound = let before = is.bound in let len = ap (λ (q : List ℕ). length q) queue in omega arith;
}
Step-IsSafe t s _ ps _ (run_unlock {request = r} at) is = record {
  owner = release s ps is t (handling r) (held _ _ at refl) refl;
  bound = is.bound;
}
Step-IsSafe t s _ ps _ (run_null at) is = record {
  owner = apart s ps is t testing refl;
  bound = is.bound;
}
Step-IsSafe t s _ ps _ (run_process at live) is = record {
  owner = apart s ps is t testing refl;
  bound = is.bound;
}

initial-IsSafe : (max : ℕ) (worker : ℕ → Bool) → IsSafe (initial max) (starting worker)
unfolding holds
initial-IsSafe max worker = record {
  owner = λ t h. elim (Bool-cases (worker t)) [
    | inl e ↦ let out = rw e at h in cc out
    | inr e ↦ let out = rw e at h in cc out
  ];
  bound = omega arith;
}

steps-IsSafe :
    (s s' : ThreadPool) (ps ps' : Phases) → Steps s ps s' ps' → IsSafe s ps → IsSafe s' ps'
steps-IsSafe s _ ps _ stay is = is
steps-IsSafe s s' ps ps' (go {s' = m} {ps' = pm} t live step rest) is =
    steps-IsSafe m s' pm ps' rest (Step-IsSafe t s m ps pm step is)

-- In every state that the threads reach from a new pool, by any interleaving of `append`, `run` and the destructor, at
-- most one thread is between `lock` and `unlock`, and the queue holds at most one request more than
-- the maximum.
pub reachable-exclusive :
    (max : ℕ) (worker : ℕ → Bool) (s : ThreadPool) (ps : Phases)
    → Steps (initial max) (starting worker) s ps
    → ((t u : ℕ) → holds (ps t) ≡ true → holds (ps u) ≡ true → t ≡ u)
      × (length s.work_queue ≤ s.max_request + 1)
reachable-exclusive max worker s ps steps =
    let is = steps-IsSafe _ s _ ps steps (initial-IsSafe max worker) in
    ((λ t u h k. some-injective t u (sym (is.owner t h) ∙ is.owner u k)), is.bound)
