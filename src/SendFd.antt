-- ===== src/SendFd.antt =====
-- src/send_fd.cc: a descriptor is passed from a child to its parent.
-- The layout of a control message is a parameter. An access behind the object that holds the message
-- is undefined behaviour. The byte that goes with it is left out.
pub mod Stops
mod Tests
use high_performance_linux_s.Base.{
  ℕ, zero, suc, ◌+◌, ◌-◌, ◌<◌, ◌≤◌, ◌≡◌, refl, ◌∙◌, sym, ap, ◌≢◌, ◌⊎◌, inl, inr, Bool, true, false,
  ◌||◌, ◌&&◌, List, [], ◌∷◌, ◌++◌, ℤ, pos, negsuc, ◌==◌, leb, ltb, if◌then◌else◌, length, replicate,
  take, All, arith, Bool-cases, Option, none, some, ==→eq, ==_self, or_false_left, or_false_right,
}
use high_performance_linux_s.SystemCalls.{
  Address, Libc, Event, Call, socket, bind, listen, accept, connect, recv, send, read, close,
  get_flags, set_flags, set_owner, setsockopt, getsockopt, select, epoll_create, epoll_add,
  epoll_mod, epoll_wait, dup, pipe, splice, sendfile, open_file, stat, fstat, writev, sigaction,
  sleep, pthread_create, gethostbyname, getservbyname, getuid, getegid, pthread_sigmask, sigwait,
  pause, thread_create, socketpair, fork, sendmsg, recvmsg, Reply, World, Out, done, aborted,
  waiting, fault, out_of_fuel, Prog, pure, and_then, ◌>>=◌, ◌>>◌, call, undefined, check,
  is_negative, is_nonnegative, is_positive, is_not_error, ◌===◌, argument, is_nonpositive, to_nat,
  set_non_blocking,
}
use high_performance_linux_s.SystemCalls.Descriptors.{
  Holds, Ends, ends_done, ends_waiting, Ends-bind, Ends-mono, Called, call-Ends, use-Ends,
  close-Ends, check-Ends, argument-Ends, ===_self, is_held, remove, missing, works_on, after,
  opened, replay, Table, opened_nonnegative, opened_negative, nonnegative, standard, start,
  start-Holds, EndsOr, or_done, or_fault, or_aborted, or_waiting, EndsOr-bind, Ends-EndsOr,
}
use high_performance_linux_s.Servers.Rules.{
  address_of-Ends, new_socket-Ends, front-Ends, bind_listen-Ends, listener-Ends, serve_one-Ends,
  receive_all-Ends,
}

-- `sizeof(cmsghdr)`, and how far from its start `CMSG_DATA` is.
pub record Layout : Type 0 where
  pub size : ℕ
  pub data_at : ℕ

abbrev pub size_of_int : ℕ
size_of_int = 4

-- `*(int*)CMSG_DATA(&cm)`, where `cm` is a `cmsghdr`.
unfoldable pub access_data : Layout → Prog (Unit {0})
access_data layout = if leb (layout.data_at + size_of_int) layout.size then pure tt else undefined

unfoldable pub send_fd : Layout → (fd fd_to_send : ℤ) → Prog (Unit {0})
unfolding access_data
send_fd layout fd fd_to_send = do access_data layout; call (sendmsg fd fd_to_send); pure tt

-- The descriptor that is received is the first of the reply.
unfoldable pub recv_fd : Layout → (fd : ℤ) → Prog ℤ
unfolding access_data
recv_fd layout fd = do r ← call (recvmsg fd); access_data layout; pure r.ends.0

-- "data/ftp_server_data/fuck.txt"
abbrev pub file_name : List ℕ
file_name =
    b'd' ∷ b'a' ∷ b't' ∷ b'a' ∷ b'/' ∷ b'f' ∷ b't' ∷ b'p' ∷ b'_' ∷ b's' ∷ b'e' ∷ b'r' ∷ b'v' ∷ b'e'
    ∷ b'r' ∷ b'_' ∷ b'd' ∷ b'a' ∷ b't' ∷ b'a' ∷ b'/' ∷ b'f' ∷ b'u' ∷ b'c' ∷ b'k' ∷ b'.' ∷ b't'
    ∷ b'x' ∷ b't' ∷ []

-- The child's branch, up to its `exit(0)`.
unfoldable pub child : Layout → ℤ × ℤ → Prog ℕ
unfolding send_fd
child layout pipe_fd = do
  call (close pipe_fd.0)
  file ← call (open_file file_name)
  send_fd layout pipe_fd.1 (if is_positive file.ret then file.ret else pos 0)
  call (close file.ret)
  pure 0

unfoldable pub parent : Layout → ℤ × ℤ → Prog ℕ
unfolding recv_fd
parent layout pipe_fd = do
  call (close pipe_fd.0)
  fd_to_pass ← recv_fd layout pipe_fd.0
  call (read fd_to_pass 1024)
  call (close fd_to_pass)
  pure 0

unfoldable pub send_fd_main : Layout → Prog ℕ
unfolding child parent
send_fd_main layout = do
  pair ← call socketpair
  check (is_not_error pair.ret)
  pid ← call fork
  check (is_nonnegative pid.ret)
  if is_positive pid.ret then parent layout pair.ends else child layout pair.ends
