-- ===== src/EpollOneShot/Worker.antt =====
-- How a worker of epoll_one_shot.cc ends.
use high_performance_linux_s.Base.{
  ℕ, zero, suc, ◌+◌, ◌<◌, ◌≡◌, refl, inl, inr, false, List, [], ◌∷◌, ℤ, ◌==◌, length, arith,
  Bool-cases,
}
use high_performance_linux_s.SystemCalls.{
  Call, epoll_mod, sleep, Reply, World, is_negative, is_positive,
}
use high_performance_linux_s.SystemCalls.Descriptors.{
  Holds, Ends, ends_done, Ends-bind, call-Ends, close-Ends, ===_self, missing, works_on, after,
  EndsOr, EndsOr-bind, or_fault,
}
use high_performance_linux_s.Servers.Rules.{receive_into-Ends}
use high_performance_linux_s.Epoll.{epoll_in, epoll_et, eagain}
use high_performance_linux_s.EpollOneShot.{epoll_one_shot, reset_one_shot, worker_loop, worker}

-- The worker has closed the descriptor, or it has kept it and asked for one more report.
pub data IsDone (epoll_fd fd : ℤ) (fds : List ℤ) (w : World) : Type 0 where
  closed : Holds (epoll_fd ∷ fds) w → IsDone epoll_fd fd fds w
  armed :
      Holds (fd ∷ epoll_fd ∷ fds) w
      → (r : Reply) (before : List (Call × Reply))
      → w.calls ≡ (epoll_mod epoll_fd fd (epoll_in + epoll_et + epoll_one_shot), r) ∷ before
      → IsDone epoll_fd fd fds w

both-held :
    (epoll_fd fd : ℤ) (fds : List ℤ) → missing (epoll_fd ∷ fd ∷ []) (fd ∷ epoll_fd ∷ fds) ≡ 0
both-held epoll_fd fd fds = rw (===_self fd, ===_self epoll_fd) (ground arith)

worker_loop-Ends :
    (k : ℕ) (epoll_fd fd : ℤ) (fds : List ℤ) (w : World)
    → Holds (fd ∷ epoll_fd ∷ fds) w
    → length w.replies < k
    → Ends (λ _ w'. IsDone epoll_fd fd fds w') (worker_loop k epoll_fd fd w)
unfolding worker_loop reset_one_shot works_on after
worker_loop-Ends zero epoll_fd fd fds w h fuel = absurd (omega arith)
worker_loop-Ends (suc k) epoll_fd fd fds w h fuel =
    let xs = epoll_fd ∷ fds in
    Ends-bind (receive_into-Ends 1024 fd 1023 false xs w (omega arith) h) λ r w₁ s.
      let less = s.fewer in
      elim (Bool-cases (is_negative r.ret)) [
        | inl a ↦ elim (Bool-cases (r.errno == eagain)) [
          | inl b ↦
              let mask : ℕ = epoll_in + epoll_et + epoll_one_shot in
              rw (a, b)
                (Ends-bind
                  (call-Ends (epoll_mod epoll_fd fd mask) (fd ∷ xs) w₁ s.holds
                    (both-held epoll_fd fd fds))
                  λ r' w₂ t. ends_done (armed t.holds r' w₁.calls t.made))
          | inr b ↦ rw (a, b) (worker_loop-Ends k epoll_fd fd fds w₁ s.holds (omega arith))
        ]
        | inr a ↦ elim (Bool-cases (is_positive r.ret)) [
          | inl b ↦
              rw (a, b)
                (Ends-bind (call-Ends (sleep 5) (fd ∷ xs) w₁ s.holds refl) λ r' w₂ t.
                  let less' = t.fewer in
                  worker_loop-Ends k epoll_fd fd fds w₂ t.holds (omega arith))
          | inr b ↦
              rw (a, b) (Ends-bind (close-Ends fd xs w₁ s.holds) λ r' w₂ h₂. ends_done (closed h₂))
        ]
      ]

-- A worker that holds its descriptor and the epoll descriptor, whatever the system replies: it calls
-- on open descriptors only and never returns. It waits in a call, or it comes to its end, which is
-- undefined behaviour for want of a `return`, and then it has either closed its descriptor or kept it open
-- and, as its last call, armed it for one more report.
pub worker-IsDone :
    (epoll_fd fd : ℤ) (fds : List ℤ) (w : World)
    → Holds (fd ∷ epoll_fd ∷ fds) w
    → EndsOr (IsDone epoll_fd fd fds) (λ _ _. ⊥) (worker epoll_fd fd w)
unfolding worker
worker-IsDone epoll_fd fd fds w h =
    EndsOr-bind (worker_loop-Ends (suc (length w.replies)) epoll_fd fd fds w h (omega arith))
      λ u w' d. or_fault d
