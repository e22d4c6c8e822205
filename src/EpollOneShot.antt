-- ===== src/EpollOneShot.antt =====
-- src/epoll_one_shot.cc: a thread per event, and descriptors that report once until they are reset.
pub mod Worker
pub mod Threads
mod Tests
use high_performance_linux_s.Base.{
  ℕ, zero, suc, ◌+◌, ◌-◌, ◌^◌, Bool, true, false, ◌&&◌, ◌||◌, List, [], ◌∷◌, ◌++◌, ℤ, pos, negsuc,
  ◌==◌, leb, ltb, if◌then◌else◌, length, take,
}
use high_performance_linux_s.SystemCalls.{
  Address, Libc, Event, Call, socket, bind, listen, accept, connect, recv, send, read, close,
  get_flags, set_flags, set_owner, setsockopt, getsockopt, select, epoll_create, epoll_add,
  epoll_mod, epoll_wait, dup, pipe, splice, sendfile, open_file, stat, fstat, writev, sigaction,
  sleep, pthread_create, Reply, World, Out, done, aborted, waiting, fault, out_of_fuel, Prog, pure,
  and_then, ◌>>=◌, ◌>>◌, call, undefined, check, is_negative, is_nonnegative, is_positive,
  is_not_error, ◌===◌, argument, is_nonpositive, to_nat, set_non_blocking,
}
use high_performance_linux_s.Servers.{listener, receive_into}
use high_performance_linux_s.Epoll.{epoll_in, epoll_et, eagain}

abbrev pub epoll_one_shot : ℕ
epoll_one_shot = 2 ^ 30

unfoldable pub add_fd : Libc → (epoll_fd fd : ℤ) → (one_shot : Bool) → Prog (Unit {0})
add_fd libc epoll_fd fd one_shot = do
  call (
      epoll_add epoll_fd fd
        (if one_shot then epoll_in + epoll_et + epoll_one_shot else epoll_in + epoll_et))
  set_non_blocking libc fd
  pure tt

unfoldable pub reset_one_shot : (epoll_fd fd : ℤ) → Prog (Unit {0})
reset_one_shot epoll_fd fd = do
  call (epoll_mod epoll_fd fd (epoll_in + epoll_et + epoll_one_shot))
  pure tt

-- The loop of `worker`, with `k` rounds at most. An error other than EAGAIN goes round.
unfoldable pub worker_loop : ℕ → (epoll_fd sock_fd : ℤ) → Prog (Unit {0})
unfolding reset_one_shot
worker_loop zero epoll_fd sock_fd w = out_of_fuel
worker_loop (suc k) epoll_fd sock_fd w =
    (do
      r ← receive_into 1024 sock_fd 1023 false
      if is_negative r.ret
          then (if r.errno == eagain
              then reset_one_shot epoll_fd sock_fd
              else worker_loop k epoll_fd sock_fd)
          else if is_positive r.ret
          then (do call (sleep 5); worker_loop k epoll_fd sock_fd)
          else (do call (close sock_fd); pure tt))
      w

-- `worker` is to return a pointer and has no `return`: behind its loop it is undefined behaviour.
unfoldable pub worker : (epoll_fd sock_fd : ℤ) → Prog (Unit {0})
unfolding worker_loop
worker epoll_fd sock_fd = do
  (λ w. worker_loop (suc (length w.replies)) epoll_fd sock_fd w)
  undefined

-- One event in `main`: a worker is started for a client.
unfoldable pub dispatch : Libc → (epoll_fd listen_fd : ℤ) → Event → Prog (Unit {0})
unfolding add_fd
dispatch libc epoll_fd listen_fd event =
    if event.fd === listen_fd
    then (do r ← call (accept listen_fd); add_fd libc epoll_fd r.ret true)
    else if event.epollin
    then (do call (pthread_create epoll_fd event.fd); pure tt)
    else pure tt

unfoldable pub dispatch_all : Libc → (epoll_fd listen_fd : ℤ) → List Event → Prog (Unit {0})
unfolding dispatch
dispatch_all libc epoll_fd listen_fd [] = pure tt
dispatch_all libc epoll_fd listen_fd (event ∷ events) = do
  dispatch libc epoll_fd listen_fd event
  dispatch_all libc epoll_fd listen_fd events

-- The loop of `main`, with `k` rounds at most.
unfoldable pub one_shot_loop : ℕ → Libc → (epoll_fd listen_fd : ℤ) → Prog (Unit {0})
unfolding dispatch_all
one_shot_loop zero libc epoll_fd listen_fd w = out_of_fuel
one_shot_loop (suc k) libc epoll_fd listen_fd w =
    (do
      r ← call (epoll_wait epoll_fd)
      if is_negative r.ret then pure tt else (do
        dispatch_all libc epoll_fd listen_fd (take (to_nat r.ret) r.events)
        one_shot_loop k libc epoll_fd listen_fd))
      w

-- `assert(epoll_fd)` fails for 0 only.
unfoldable pub one_shot_main : Libc → List (List ℕ) → Prog ℕ
unfolding one_shot_loop add_fd
one_shot_main libc argv = if leb (length argv) 2 then pure 1 else (do
  listen_fd ← listener libc argv (pos 5)
  r ← call (epoll_create 5)
  check (is_negative r.ret || is_positive r.ret)
  add_fd libc r.ret listen_fd false
  (λ w. one_shot_loop (suc (length w.replies)) libc r.ret listen_fd w)
  call (close listen_fd)
  pure 0)
