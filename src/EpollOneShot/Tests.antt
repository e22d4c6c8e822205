-- ===== src/EpollOneShot/Tests.antt =====
-- A worker whose descriptor has no more data.
use high_performance_linux_s.Base.{ℕ, false, List, [], ◌∷◌, ℤ, pos, negsuc}
use high_performance_linux_s.SystemCalls.{Reply}
use high_performance_linux_s.SystemCalls.Descriptors.{EndsOr, start, start-Holds}
use high_performance_linux_s.EpollOneShot.{worker}
use high_performance_linux_s.EpollOneShot.Worker.{IsDone, worker-IsDone}

abbrev reply : ℤ → ℕ → Reply
reply n errno = record {
  ret = n;
  errno = errno;
  bytes = [];
  value = 0;
  flag = false;
  urgent = false;
  directory = false;
  readable = false;
  ends = (pos 8, pos 9);
  events = [];
}

abbrev replies : List Reply
replies = reply (pos 7) 0 ∷ reply (pos 0) 0 ∷ reply (negsuc 0) 11 ∷ reply (pos 0) 0 ∷ []

worker-IsDone_example :
    EndsOr (IsDone (pos 1) (pos 0) (pos 2 ∷ [])) (λ _ _. ⊥) (worker (pos 1) (pos 0) (start replies))
worker-IsDone_example =
    worker-IsDone (pos 1) (pos 0) (pos 2 ∷ []) (start replies) (start-Holds replies)
