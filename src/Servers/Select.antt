-- ===== src/Servers/Select.antt =====
-- src/select.cc.
pub mod Run
use high_performance_linux_s.Base.{
  ℕ, zero, suc, ◌+◌, ◌-◌, ◌^◌, Bool, true, false, ◌&&◌, ◌||◌, List, [], ◌∷◌, ◌++◌, ℤ, pos, negsuc,
  ◌==◌, leb, ltb, if◌then◌else◌, length, take,
}
use high_performance_linux_s.SystemCalls.{
  Address, Libc, Event, Call, socket, bind, listen, accept, connect, recv, send, read, close,
  get_flags, set_flags, set_owner, setsockopt, getsockopt, select, epoll_create, epoll_add,
  epoll_mod, epoll_wait, dup, pipe, splice, sendfile, open_file, stat, fstat, writev, sigaction,
  sleep, pthread_create, Reply, World, Out, done, aborted, waiting, fault, out_of_fuel, Prog, pure,
  and_then, ◌>>=◌, ◌>>◌, call, undefined, check, is_negative, is_nonnegative, is_positive,
  is_not_error, ◌===◌, argument, is_nonpositive, to_nat, set_non_blocking,
}
use high_performance_linux_s.Servers.{listener, receive_into}

-- The loop, with `k` rounds at most: normal and urgent data, until an error or the end.
unfoldable pub select_loop : ℕ → (connection_fd : ℤ) → Prog (Unit {0})
select_loop zero connection_fd w = out_of_fuel
select_loop (suc k) connection_fd w =
    (do
      ready ← call (select connection_fd)
      if is_negative ready.ret
          then pure tt
          else if ready.flag
          then (do
            r ← receive_into 1024 connection_fd 1023 false
            if is_nonpositive r.ret then pure tt else select_loop k connection_fd)
          else if ready.urgent
          then (do
            r ← receive_into 1024 connection_fd 1023 true
            if is_nonpositive r.ret then pure tt else select_loop k connection_fd)
          else select_loop k connection_fd)
      w

abbrev pub fd_setsize : ℕ
fd_setsize = 1024

-- The descriptors that an `fd_set` has a place for.
unfoldable pub fits_set : ℤ → Bool
fits_set (pos n) = ltb n fd_setsize
fits_set (negsuc n) = false

-- From the loop to the end. FD_SET of another descriptor is undefined behaviour.
unfoldable pub watch : (listen_fd connection_fd : ℤ) → Prog ℕ
unfolding select_loop fits_set
watch listen_fd connection_fd =
    if fits_set connection_fd
    then (do
      (λ w. select_loop (suc (length w.replies)) connection_fd w)
      call (close connection_fd)
      call (close listen_fd)
      pure 0)
    else undefined

-- A failed `accept` closes the listening socket, and goes on.
unfoldable pub select_main : Libc → List (List ℕ) → Prog ℕ
select_main libc argv = if leb (length argv) 2 then pure 1 else (do
  listen_fd ← listener libc argv (pos 5)
  r ← call (accept listen_fd)
  if is_negative r.ret then (do call (close listen_fd); pure tt) else pure tt
  watch listen_fd r.ret)
