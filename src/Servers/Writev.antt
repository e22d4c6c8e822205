-- ===== src/Servers/Writev.antt =====
-- `main` of src/writev.cc.
pub mod Answer
use mathlib.Core.Path.{subst}
use high_performance_linux_s.Base.{
  ℕ, zero, suc, ◌+◌, ◌-◌, ◌<◌, ◌≤◌, ◌≡◌, refl, ◌∙◌, sym, ap, ◌≢◌, ◌⊎◌, inl, inr, Bool, true, false,
  ◌||◌, ◌&&◌, List, [], ◌∷◌, ◌++◌, ℤ, pos, negsuc, ◌==◌, leb, ltb, if◌then◌else◌, length, replicate,
  take, All, arith, Bool-cases, Option, none, some, ==→eq, ==_self, or_false_left, or_false_right,
}
use high_performance_linux_s.SystemCalls.{
  Address, Libc, Event, Call, socket, bind, listen, accept, connect, recv, send, read, close,
  get_flags, set_flags, set_owner, setsockopt, getsockopt, select, epoll_create, epoll_add,
  epoll_mod, epoll_wait, dup, pipe, splice, sendfile, open_file, stat, fstat, writev, sigaction,
  sleep, pthread_create, gethostbyname, getservbyname, Reply, World, Out, done, aborted, waiting,
  fault, out_of_fuel, Prog, pure, and_then, ◌>>=◌, ◌>>◌, call, undefined, check, is_negative,
  is_nonnegative, is_positive, is_not_error, ◌===◌, argument, is_nonpositive, to_nat,
  set_non_blocking,
}
use high_performance_linux_s.SystemCalls.Descriptors.{
  Holds, Ends, ends_done, ends_waiting, Ends-bind, Ends-mono, Called, call-Ends, use-Ends,
  close-Ends, check-Ends, argument-Ends, ===_self, is_held, remove, missing, works_on, after,
  opened, replay, Table, opened_nonnegative, opened_negative, nonnegative, standard, start,
  start-Holds, EndsOr, or_done, or_fault, or_aborted, or_waiting, EndsOr-bind, Ends-EndsOr,
}
use high_performance_linux_s.Servers.Rules.{
  address_of-Ends, new_socket-Ends, front-Ends, bind_listen-Ends, listener-Ends, serve_one-Ends,
  receive_all-Ends,
}
use high_performance_linux_s.Servers.{listener, serve_one}
use high_performance_linux_s.HttpParse.CString.{cstr}
use high_performance_linux_s.Servers.Header.{header, buf_size}
use high_performance_linux_s.Servers.Header.Text.{IsHeader, header_lem}

-- "data/http_server_data/"
abbrev pub folder : List ℕ
folder =
    b'd' ∷ b'a' ∷ b't' ∷ b'a' ∷ b'/' ∷ b'h' ∷ b't' ∷ b't' ∷ b'p' ∷ b'_' ∷ b's' ∷ b'e' ∷ b'r' ∷ b'v'
    ∷ b'e' ∷ b'r' ∷ b'_' ∷ b'd' ∷ b'a' ∷ b't' ∷ b'a' ∷ b'/' ∷ []

-- `file_buf`, of `size` bytes that are 0 where the read was shorter.
abbrev pub file_bytes : (size : ℕ) → List ℕ → List ℕ
file_bytes size bytes = take size (bytes ++ replicate size 0)

-- `file_buf` where `valid` holds, for a file that may be opened.
unfoldable pub open_and_read : List ℕ → Reply → Prog (Option (List ℕ))
open_and_read path file_stat = do
  fd ← call (open_file path)
  r ← call (read fd.ret file_stat.value)
  pure (if is_negative r.ret then none else some (file_bytes file_stat.value r.bytes))

-- `file_buf` where `valid` holds.
unfoldable pub read_file : List ℕ → Reply → Prog (Option (List ℕ))
unfolding open_and_read
read_file path file_stat =
    if is_negative file_stat.ret
    then pure none
    else if file_stat.directory
    then pure none
    else if file_stat.readable
    then open_and_read path file_stat
    else pure none

-- `writev` of the text in `header_buf` and of the file.
unfoldable pub write_answer : ℤ → Option (List ℕ) → List ℕ → Prog (Unit {0})
write_answer conn_fd none body = undefined
write_answer conn_fd (some header_buf) body = elim (cstr header_buf 0) [
  | none ↦ undefined
  | some text ↦ (do call (writev conn_fd (text ∷ body ∷ [])); pure tt)
]

-- Where `valid` does not hold, the first `snprintf` writes through `header_buf`, a null pointer.
unfoldable pub answer_with : ℤ → Reply → Option (List ℕ) → Prog (Unit {0})
unfolding write_answer
answer_with conn_fd file_stat none = undefined
answer_with conn_fd file_stat (some body) = write_answer conn_fd (header file_stat.value) body

-- The branch for a connection.
unfoldable pub send_file_to : List ℕ → ℤ → Prog (Unit {0})
unfolding read_file answer_with
send_file_to path conn_fd = do
  file_stat ← call (stat path)
  body ← read_file path file_stat
  answer_with conn_fd file_stat body
  call (close conn_fd)
  pure tt

unfoldable pub writev_main : Libc → List (List ℕ) → Prog ℕ
unfolding send_file_to
writev_main libc argv = if leb (length argv) 3 then pure 1 else (do
  file_name ← argument argv 3
  sock ← listener libc argv (pos 5)
  serve_one sock (send_file_to (folder ++ file_name)))
