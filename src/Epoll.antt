-- ===== src/Epoll.antt =====
-- src/epoll.cc: the two ways to handle the events that `epoll_wait` reports.
pub mod Drain
pub mod Clients
mod Tests
use high_performance_linux_s.Base.{
  ℕ, zero, suc, ◌+◌, ◌-◌, ◌^◌, Bool, true, false, ◌&&◌, ◌||◌, List, [], ◌∷◌, ◌++◌, ℤ, pos, negsuc,
  ◌==◌, leb, ltb, if◌then◌else◌, length, take,
}
use high_performance_linux_s.SystemCalls.{
  Address, Libc, Event, Call, socket, bind, listen, accept, connect, recv, send, read, close,
  get_flags, set_flags, set_owner, setsockopt, getsockopt, select, epoll_create, epoll_add,
  epoll_mod, epoll_wait, dup, pipe, splice, sendfile, open_file, stat, fstat, writev, sigaction,
  sleep, pthread_create, Reply, World, Out, done, aborted, waiting, fault, out_of_fuel, Prog, pure,
  and_then, ◌>>=◌, ◌>>◌, call, undefined, check, is_negative, is_nonnegative, is_positive,
  is_not_error, ◌===◌, argument, is_nonpositive, to_nat, set_non_blocking,
}
use high_performance_linux_s.Servers.{listener}

-- The event masks, and the values of `errno` that mean "no data now" (one number on Linux).
abbrev pub epoll_in : ℕ
epoll_in = 1

abbrev pub epoll_et : ℕ
epoll_et = 2 ^ 31

abbrev pub eagain : ℕ
eagain = 11

unfoldable pub add_fd : Libc → (epoll_fd fd : ℤ) → (enable_et : Bool) → Prog (Unit {0})
add_fd libc epoll_fd fd enable_et = do
  call (epoll_add epoll_fd fd (if enable_et then epoll_in + epoll_et else epoll_in))
  set_non_blocking libc fd
  pure tt

-- A new connection: it is registered whether or not `accept` has succeeded.
unfoldable pub add_connection : Libc → (epoll_fd listen_fd : ℤ) → Prog (Unit {0})
unfolding add_fd
add_connection libc epoll_fd listen_fd = do
  r ← call (accept listen_fd)
  add_fd libc epoll_fd r.ret false

-- One event in `lt`.
unfoldable pub lt_event : Libc → (epoll_fd listen_fd : ℤ) → Event → Prog (Unit {0})
unfolding add_connection
lt_event libc epoll_fd listen_fd event =
    if event.fd === listen_fd
    then add_connection libc epoll_fd listen_fd
    else if event.epollin
    then (do
      r ← call (recv event.fd 9 false)
      if is_nonpositive r.ret then (do call (close event.fd); pure tt) else pure tt)
    else pure tt

unfoldable pub lt : Libc → (epoll_fd listen_fd : ℤ) → List Event → Prog (Unit {0})
unfolding lt_event
lt libc epoll_fd listen_fd [] = pure tt
lt libc epoll_fd listen_fd (event ∷ events) = do
  lt_event libc epoll_fd listen_fd event
  lt libc epoll_fd listen_fd events

-- The inner loop of `et`, with `k` rounds at most. It goes on when the peer has closed.
unfoldable pub et_loop : ℕ → (sock_fd : ℤ) → Prog (Unit {0})
et_loop zero sock_fd w = out_of_fuel
et_loop (suc k) sock_fd w =
    (do
      r ← call (recv sock_fd 9 false)
      if is_negative r.ret
          then (if r.errno == eagain then pure tt else (do call (close sock_fd); pure tt))
          else if is_positive r.ret
          then et_loop k sock_fd
          else (do call (close sock_fd); et_loop k sock_fd))
      w

unfoldable pub et_event : Libc → (epoll_fd listen_fd : ℤ) → Event → Prog (Unit {0})
unfolding add_connection et_loop
et_event libc epoll_fd listen_fd event =
    if event.fd === listen_fd
    then add_connection libc epoll_fd listen_fd
    else if event.epollin
    then (λ w. et_loop (suc (length w.replies)) event.fd w)
    else pure tt

unfoldable pub et : Libc → (epoll_fd listen_fd : ℤ) → List Event → Prog (Unit {0})
unfolding et_event
et libc epoll_fd listen_fd [] = pure tt
et libc epoll_fd listen_fd (event ∷ events) = do
  et_event libc epoll_fd listen_fd event
  et libc epoll_fd listen_fd events

-- The loop of `main`, with `k` rounds at most.
unfoldable pub epoll_loop : ℕ → Libc → (epoll_fd listen_fd : ℤ) → Prog (Unit {0})
unfolding et
epoll_loop zero libc epoll_fd listen_fd w = out_of_fuel
epoll_loop (suc k) libc epoll_fd listen_fd w =
    (do
      r ← call (epoll_wait epoll_fd)
      if is_negative r.ret then pure tt else (do
        et libc epoll_fd listen_fd (take (to_nat r.ret) r.events)
        epoll_loop k libc epoll_fd listen_fd))
      w

unfoldable pub epoll_main : Libc → List (List ℕ) → Prog ℕ
unfolding epoll_loop add_fd
epoll_main libc argv = if leb (length argv) 2 then pure 1 else (do
  listen_fd ← listener libc argv (pos 5)
  r ← call (epoll_create 5)
  check (is_not_error r.ret)
  add_fd libc r.ret listen_fd true
  (λ w. epoll_loop (suc (length w.replies)) libc r.ret listen_fd w)
  call (close listen_fd)
  pure 0)
