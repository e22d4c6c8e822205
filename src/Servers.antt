-- ===== src/Servers.antt =====
-- What the `main`s of src/*.cc share: the address from the arguments, the socket that listens, and
-- the one connection that most of them accept. Output to the terminal is left out.
pub mod Tcp
pub mod Files
pub mod Rules
pub mod Clean
pub mod Timeout
pub mod Select
mod Tests
pub mod Sample
pub mod Writev
pub mod Header
pub mod Urgent
pub mod Daytime
use high_performance_linux_s.Base.{
  ℕ, zero, suc, ◌+◌, Bool, true, false, List, [], ◌∷◌, ◌++◌, ℤ, pos, negsuc, ◌==◌, leb, ltb,
  if◌then◌else◌, length, take,
}
use high_performance_linux_s.SystemCalls.{
  Address, Libc, Event, Call, socket, bind, listen, accept, connect, recv, send, read, close,
  get_flags, set_flags, set_owner, setsockopt, getsockopt, select, epoll_create, epoll_add,
  epoll_mod, epoll_wait, dup, pipe, splice, sendfile, open_file, stat, fstat, writev, sigaction,
  sleep, Reply, World, Out, done, aborted, waiting, fault, out_of_fuel, Prog, pure, and_then, ◌>>=◌,
  ◌>>◌, call, undefined, check, is_negative, is_nonnegative, is_positive, is_not_error, ◌===◌,
  argument,
}

-- `address` from `argv[1]` and `argv[2]`.
unfoldable pub address_of : Libc → List (List ℕ) → Prog Address
address_of libc argv = do
  ip ← argument argv 1
  port ← argument argv 2
  pure (record { ip = libc.inet_pton ip; port = libc.htons (libc.atoi port) })

-- `socket(...)` and `assert(sock >= 0)`
unfoldable pub new_socket : Prog ℤ
new_socket = do r ← call socket; check (is_nonnegative r.ret); pure r.ret

-- `bind(...)`, `listen(...)` and their asserts.
unfoldable pub bind_listen : ℤ → Address → (backlog : ℤ) → Prog (Unit {0})
bind_listen sock address backlog = do
  r ← call (bind sock address)
  check (is_not_error r.ret)
  r' ← call (listen sock backlog)
  check (is_not_error r'.ret)

-- From the arguments to the socket that listens.
unfoldable pub listener : Libc → List (List ℕ) → (backlog : ℤ) → Prog ℤ
listener libc argv backlog = do
  address ← address_of libc argv
  sock ← new_socket
  bind_listen sock address backlog
  pure sock

-- `accept`, the branch for a connection, and `close(sock); return 0;`. A failed `accept` is reported.
unfoldable pub serve_one : ℤ → (ℤ → Prog (Unit {0})) → Prog ℕ
serve_one sock branch = do
  conn ← call (accept sock)
  if is_negative conn.ret then pure tt else branch conn.ret
  call (close sock)
  pure 0

-- `recv(fd, buffer, size, flags)` into a buffer of `room` bytes that was cleared before and is printed
-- behind it, as a string: the bytes stored, at most `size` of the reply's, leave room for the NUL at its
-- end, or the run is undefined behaviour.
unfoldable pub receive_into : (room : ℕ) → (fd : ℤ) → (size : ℕ) → (oob : Bool) → Prog Reply
receive_into room fd size oob = do
  r ← call (recv fd size oob)
  if ltb (length (take size r.bytes)) room then pure r else undefined

-- `while(recv(fd, buffer, size, 0) > 0) {}`, with `k` rounds at most.
unfoldable pub receive_loop : ℕ → (fd : ℤ) → (size : ℕ) → Prog (Unit {0})
receive_loop zero fd size w = out_of_fuel
receive_loop (suc k) fd size w =
    (do
      r ← call (recv fd size false)
      if is_positive r.ret then receive_loop k fd size else pure tt)
      w

-- A round takes a reply, so this is enough fuel.
unfoldable pub receive_all : (fd : ℤ) → (size : ℕ) → Prog (Unit {0})
receive_all fd size w = receive_loop (suc (length w.replies)) fd size w
