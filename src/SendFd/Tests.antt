-- ===== src/SendFd/Tests.antt =====
-- The parent of src/send_fd.cc, with sockets 3 and 4, in a layout of 64-bit Linux.
use high_performance_linux_s.Base.{refl, arith, List, [], ◌∷◌, pos}
use high_performance_linux_s.SystemCalls.{Reply}
use high_performance_linux_s.SystemCalls.Descriptors.{start, EndsOr}
use high_performance_linux_s.Servers.Sample.{returning}
use high_performance_linux_s.SendFd.{Layout, send_fd_main}
use high_performance_linux_s.SendFd.Stops.{HasStopped, send_fd_main-HasStopped}

abbrev linux : Layout
linux = record { size = 16; data_at = 16 }

abbrev pair : Reply
pair = record (returning (pos 0)) { ends = (pos 3, pos 4) }

-- The child is process 100.
abbrev later_replies : List Reply
later_replies = returning (pos 100) ∷ returning (pos 0) ∷ returning (pos 1) ∷ []

send_fd_main-HasStopped_example :
    EndsOr
      (HasStopped (pos 3, pos 4))
      (λ _ _. ⊥)
      (send_fd_main linux (start (pair ∷ later_replies)))
send_fd_main-HasStopped_example =
    send_fd_main-HasStopped linux pair later_replies (omega arith) refl
