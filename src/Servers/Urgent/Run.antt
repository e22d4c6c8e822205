-- ===== src/Servers/Urgent/Run.antt =====
-- The runs of src/sigurg.cc.
use high_performance_linux_s.Base.{ℕ, ◌≤◌, List, ◌∷◌, ℤ, pos, length}
use high_performance_linux_s.SystemCalls.{World}
use high_performance_linux_s.SystemCalls.Descriptors.{Holds, standard}

-- What is left behind `accept`.
data IsBack (sock : ℤ) (w : World) : Type 0 where
  only : Holds (sock ∷ standard) w → IsBack sock w
  zeroth : Holds (pos 0 ∷ sock ∷ standard) w → IsBack sock w

-- The handler's calls take replies, and leave the descriptors as they are.
Goes : (fds : List ℤ) → (size : ℕ) → World → Type 0
Goes fds size w = Holds fds w × (length w.replies ≤ size)
