-- ===== src/Processes.antt =====
-- src/guid.cc and src/sigmask.cc.
mod Tests
use high_performance_linux_s.Base.{
  ℕ, zero, suc, ◌+◌, ◌-◌, ◌<◌, ◌≤◌, ◌≡◌, refl, ◌∙◌, sym, ap, ◌≢◌, ◌⊎◌, inl, inr, Bool, true, false,
  ◌||◌, ◌&&◌, List, [], ◌∷◌, ◌++◌, ℤ, pos, negsuc, ◌==◌, leb, ltb, if◌then◌else◌, length, replicate,
  take, All, arith, Bool-cases, Option, none, some, ==→eq, ==_self, or_false_left, or_false_right,
}
use high_performance_linux_s.SystemCalls.{
  Address, Libc, Event, Call, socket, bind, listen, accept, connect, recv, send, read, close,
  get_flags, set_flags, set_owner, setsockopt, getsockopt, select, epoll_create, epoll_add,
  epoll_mod, epoll_wait, dup, pipe, splice, sendfile, open_file, stat, fstat, writev, sigaction,
  sleep, pthread_create, gethostbyname, getservbyname, getuid, getegid, pthread_sigmask, sigwait,
  pause, thread_create, Reply, World, Out, done, aborted, waiting, fault, out_of_fuel, Prog, pure,
  and_then, ◌>>=◌, ◌>>◌, call, undefined, check, is_negative, is_nonnegative, is_positive,
  is_not_error, ◌===◌, argument, is_nonpositive, to_nat, set_non_blocking,
}
use high_performance_linux_s.SystemCalls.Descriptors.{
  Holds, Ends, ends_done, ends_waiting, Ends-bind, Ends-mono, Called, call-Ends, use-Ends,
  close-Ends, check-Ends, argument-Ends, ===_self, is_held, remove, missing, works_on, after,
  opened, replay, Table, opened_nonnegative, opened_negative, nonnegative, standard, start,
  start-Holds, EndsOr, or_done, or_fault, or_aborted, or_waiting, EndsOr-bind, Ends-EndsOr,
}
use high_performance_linux_s.Servers.Rules.{
  address_of-Ends, new_socket-Ends, front-Ends, bind_listen-Ends, listener-Ends, serve_one-Ends,
  receive_all-Ends,
}

-- `main` of src/guid.cc: the two numbers that it prints.
unfoldable pub guid : Prog (ℕ × ℕ)
guid = do uid ← call getuid; euid ← call getegid; pure (uid.value, euid.value)

-- `EXIT_FAILURE`
abbrev pub exit_failure : ℕ
exit_failure = 1

-- `sig_thread`, with `k` rounds at most; its value is the one that the whole process exits with.
unfoldable pub sig_thread : ℕ → Prog ℕ
sig_thread zero w = out_of_fuel
sig_thread (suc k) w =
    (do s ← call sigwait; if s.ret === pos 0 then sig_thread k else pure exit_failure) w

-- `main` of src/sigmask.cc; it returns 0 behind `pause`.
unfoldable pub sigmask_main : Prog ℕ
sigmask_main = do
  s ← call pthread_sigmask
  if s.ret === pos 0
      then (do
        s' ← call thread_create
        if s'.ret === pos 0 then (do call pause; pure 0) else pure exit_failure)
      else pure exit_failure
