-- ===== src/ThreadPool/Requests.antt =====
-- What becomes of the requests.
use mathlib.Core.List.{append-nil, append_assoc}
use high_performance_linux_s.Base.{
  ℕ, ◌+◌, ◌≡◌, ◌≢◌, refl, sym, ◌∙◌, ap, ◌≤◌, ◌<◌, Bool, false, List, [], ◌∷◌, ◌++◌, arith, ◌==◌,
  if◌then◌else◌,
}
use high_performance_linux_s.ThreadPool.{
  ThreadPool, Phase, Phases, outside, checking, refusing, pushed, posting, deleted, stopped,
  destroyed, testing, waiting, woken, locked, found_empty, taken, handling, finished, Step,
  append_lock, append_refuse, append_false, append_push, append_unlock, append_post,
  destroy_handles, destroy_stop, destroy_members, run_leave, run_enter, run_wait, run_interrupted,
  run_lock, run_empty, run_again, run_take, run_unlock, run_null, run_process, Steps, stay, go,
  highest, initial, starting,
}
use high_performance_linux_s.ThreadPool.Totals.{total, total-move, total-starting}

-- The requests that a step appends and takes.
unfoldable pub appended_by :
    {t : ℕ} {s s' : ThreadPool} {ps ps' : Phases} → Step t s ps s' ps' → List ℕ
appended_by (append_push {request = r} at room) = r ∷ []
appended_by _ = []

unfoldable pub taken_by :
    {t : ℕ} {s s' : ThreadPool} {ps ps' : Phases} → Step t s ps s' ps' → List ℕ
taken_by (run_take r rest at queue) = r ∷ []
taken_by _ = []

unfoldable pub appended : {s s' : ThreadPool} {ps ps' : Phases} → Steps s ps s' ps' → List ℕ
unfolding appended_by
appended stay = []
appended (go t live step rest) = appended_by step ++ appended rest

unfoldable pub removed : {s s' : ThreadPool} {ps ps' : Phases} → Steps s ps s' ps' → List ℕ
unfolding taken_by
removed stay = []
removed (go t live step rest) = taken_by step ++ removed rest

step-in_order :
    (t : ℕ) (s s' : ThreadPool) (ps ps' : Phases) (step : Step t s ps s' ps')
    → s.work_queue ++ appended_by step ≡ taken_by step ++ s'.work_queue
unfolding appended_by taken_by
step-in_order t s _ ps _ (append_push at room) = refl
step-in_order t s _ ps _ (run_take r rest at queue) = append-nil s.work_queue ∙ queue
step-in_order t s _ ps _ _ = append-nil s.work_queue

steps-in_order :
    (s s' : ThreadPool) (ps ps' : Phases) (steps : Steps s ps s' ps')
    → s.work_queue ++ appended steps ≡ removed steps ++ s'.work_queue
unfolding appended removed
steps-in_order s _ ps _ stay = append-nil s.work_queue
steps-in_order s s' ps ps' (go {s' = m} {ps' = pm} t live step rest) =
    let new = appended_by step in
    let old = taken_by step in
    sym (append_assoc s.work_queue new (appended rest))
    ∙ ap (λ (xs : List ℕ). xs ++ appended rest) (step-in_order t s m ps pm step)
    ∙ append_assoc old m.work_queue (appended rest)
    ∙ ap (λ (xs : List ℕ). old ++ xs) (steps-in_order m s' pm ps' rest)
    ∙ sym (append_assoc old (removed rest) s'.work_queue)

-- How often a request stands in a list, and in a worker's hands.
unfoldable pub once : (r q : ℕ) → ℕ
once r q = if q == r then 1 else 0

unfoldable pub occurrences : ℕ → List ℕ → ℕ
unfolding once
occurrences r [] = 0
occurrences r (q ∷ qs) = once r q + occurrences r qs

unfoldable pub in_hand : ℕ → Phase → ℕ
unfolding once
in_hand r (taken q) = once r q
in_hand r (handling q) = once r q
in_hand r _ = 0

occurrences-append :
    (r : ℕ) (xs ys : List ℕ) → occurrences r (xs ++ ys) ≡ occurrences r xs + occurrences r ys
unfolding occurrences
occurrences-append r [] ys = omega arith
occurrences-append r (x ∷ xs) ys = let rest = occurrences-append r xs ys in omega arith

module _ (r n : ℕ) (given : r ≢ 0) where
  null-in_hand : in_hand r (handling 0) ≡ 0
  unfolding in_hand once
  null-in_hand = let other : (0 == r) ≡ false = ground arith in rw other refl

  -- A step leaves the requests where they are, or moves one on.
  step-once :
      (t : ℕ) (s s' : ThreadPool) (ps ps' : Phases) (step : Step t s ps s' ps')
      → t < n
      → occurrences r (taken_by step) + occurrences r s.processed + total (in_hand r) ps n
        ≡ occurrences r s'.processed + total (in_hand r) ps' n
  unfolding taken_by occurrences in_hand once
  step-once t s _ ps _ (append_lock q at free) b =
      let sum = total-move (in_hand r) ps t (checking q) outside n at b in omega arith
  step-once t s _ ps _ (append_refuse {request = q} at full) b =
      let sum = total-move (in_hand r) ps t refusing (checking q) n at b in omega arith
  step-once t s _ ps _ (append_false at) b =
      let sum = total-move (in_hand r) ps t outside refusing n at b in omega arith
  step-once t s _ ps _ (append_push {request = q} at room) b =
      let sum = total-move (in_hand r) ps t pushed (checking q) n at b in omega arith
  step-once t s _ ps _ (append_unlock at) b =
      let sum = total-move (in_hand r) ps t posting pushed n at b in omega arith
  step-once t s _ ps _ (append_post at) b =
      let sum = total-move (in_hand r) ps t outside posting n at b in omega arith
  step-once t s _ ps _ (destroy_handles at whole) b =
      let sum = total-move (in_hand r) ps t deleted outside n at b in omega arith
  step-once t s _ ps _ (destroy_stop at) b =
      let sum = total-move (in_hand r) ps t stopped deleted n at b in omega arith
  step-once t s _ ps _ (destroy_members at) b =
      let sum = total-move (in_hand r) ps t destroyed stopped n at b in omega arith
  step-once t s _ ps _ (run_leave at off) b =
      let sum = total-move (in_hand r) ps t finished testing n at b in omega arith
  step-once t s _ ps _ (run_enter at set) b =
      let sum = total-move (in_hand r) ps t waiting testing n at b in omega arith
  step-once t s _ ps _ (run_wait m at some_left) b =
      let sum = total-move (in_hand r) ps t woken waiting n at b in omega arith
  step-once t s _ ps _ (run_interrupted at) b =
      let sum = total-move (in_hand r) ps t woken waiting n at b in omega arith
  step-once t s _ ps _ (run_lock at free) b =
      let sum = total-move (in_hand r) ps t locked woken n at b in omega arith
  step-once t s _ ps _ (run_empty at no_request) b =
      let sum = total-move (in_hand r) ps t found_empty locked n at b in omega arith
  step-once t s _ ps _ (run_again at) b =
      let sum = total-move (in_hand r) ps t testing found_empty n at b in omega arith
  step-once t s _ ps _ (run_take q rest at queue) b =
      let sum = total-move (in_hand r) ps t (taken q) locked n at b in omega arith
  step-once t s _ ps _ (run_unlock {request = q} at) b =
      let sum = total-move (in_hand r) ps t (handling q) (taken q) n at b in omega arith
  step-once t s _ ps _ (run_null at) b =
      let null_request = null-in_hand in
      let sum = total-move (in_hand r) ps t testing (handling 0) n at b in omega arith
  step-once t s _ ps _ (run_process {request = q} at live) b =
      let sum = total-move (in_hand r) ps t testing (handling q) n at b in omega arith

  steps-once :
      (s s' : ThreadPool) (ps ps' : Phases) (steps : Steps s ps s' ps')
      → highest steps ≤ n
      → occurrences r (removed steps) + occurrences r s.processed + total (in_hand r) ps n
        ≡ occurrences r s'.processed + total (in_hand r) ps' n
  unfolding removed highest occurrences
  steps-once s _ ps _ stay b = omega arith
  steps-once s s' ps ps' (go {s' = m} {ps' = pm} t live step rest) b =
      let here = step-once t s m ps pm step (omega arith) in
      let later = steps-once m s' pm ps' rest (omega arith) in
      let split = occurrences-append r (taken_by step) (removed rest) in omega arith

-- From a new pool on, in every interleaving: the requests are taken out of the queue in the order in
-- which they were appended, and those that were not are still in it; and each request that was taken, but for the null
-- pointer, is processed exactly as often as it was taken, up to those that a worker has in its hands.
pub reachable-accounted :
    (max : ℕ) (worker : ℕ → Bool) (s : ThreadPool) (ps : Phases)
    (steps : Steps (initial max) (starting worker) s ps)
    → (appended steps ≡ removed steps ++ s.work_queue)
      × ((r : ℕ)
          → r ≢ 0
          → occurrences r (removed steps)
            ≡ occurrences r s.processed + total (in_hand r) ps (highest steps))
unfolding occurrences in_hand
reachable-accounted max worker s ps steps = (
  steps-in_order (initial max) s _ ps steps,
  λ r given.
      let n = highest steps in
      let nothing = total-starting (in_hand r) worker n refl refl in
      let all = steps-once r n given _ s _ ps steps (omega arith) in omega arith,
)
