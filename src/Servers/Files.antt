-- ===== src/Servers/Files.antt =====
-- src/accept_connection.cc, src/listen_backlog.cc, src/dup.cc, src/sendfile.cc, src/splice.cc and
-- src/timeout_connect.cc.
use high_performance_linux_s.Base.{
  ℕ, zero, suc, List, [], ◌∷◌, ◌++◌, ℤ, pos, negsuc, leb, if◌then◌else◌, length,
}
use high_performance_linux_s.SystemCalls.{
  Address, Libc, accept, connect, write, close, setsockopt, dup, pipe, splice, sendfile, open_file,
  fstat, sleep, out_of_fuel, Prog, pure, ◌>>=◌, ◌>>◌, call, check, is_negative, is_not_error,
  argument,
}
use high_performance_linux_s.Servers.{address_of, new_socket, bind_listen, listener, serve_one}

unfoldable pub accept_connection : Libc → List (List ℕ) → Prog ℕ
accept_connection libc argv = if leb (length argv) 2 then pure 1 else (do
  sock ← listener libc argv (pos 2)
  call (sleep 20)
  serve_one sock (λ conn. (do call (close conn); pure tt)))

-- `while(!stop_flag) sleep(1);`, with `k` rounds at most. The reply's `flag` says whether SIGTERM has
-- arrived, so that the handler has set `stop_flag`.
unfoldable pub sleep_loop : ℕ → Prog (Unit {0})
sleep_loop zero w = out_of_fuel
sleep_loop (suc k) w = (do r ← call (sleep 1); if r.flag then pure tt else sleep_loop k) w

-- The signal does not arrive before the loop.
unfoldable pub listen_backlog : Libc → List (List ℕ) → Prog ℕ
unfolding sleep_loop
listen_backlog libc argv = if leb (length argv) 3 then pure 1 else (do
  backlog ← argument argv 3
  sock ← new_socket
  address ← address_of libc argv
  bind_listen sock address (libc.atoi backlog)
  (λ w. sleep_loop (suc (length w.replies)) w)
  call (close sock)
  pure 0)

-- The branch of dup.cc: standard output becomes the connection. The result is the text that is printed
-- there; it is buffered, since a socket is no terminal.
unfoldable pub redirect : ℤ → Prog (List ℕ)
redirect conn = do
  call (close (pos 1))
  call (dup conn)
  call (close conn)
  pure (b'a' ∷ b'b' ∷ b'c' ∷ b'd' ∷ b'\n' ∷ [])

-- What the end of the program does to text that is still buffered for standard output.
unfoldable pub flush : List ℕ → Prog (Unit {0})
flush [] = pure tt
flush (b ∷ text) = do call (write (pos 1) (b ∷ text)); pure tt

unfoldable pub dup_main : Libc → List (List ℕ) → Prog ℕ
unfolding redirect flush
dup_main libc argv = if leb (length argv) 2 then pure 1 else (do
  sock ← listener libc argv (pos 5)
  conn ← call (accept sock)
  text ← if is_negative conn.ret then pure [] else redirect conn.ret
  call (close sock)
  flush text
  pure 0)

abbrev pub ftp_folder : List ℕ
ftp_folder =
    b'd' ∷ b'a' ∷ b't' ∷ b'a' ∷ b'/' ∷ b'f' ∷ b't' ∷ b'p' ∷ b'_' ∷ b's' ∷ b'e' ∷ b'r' ∷ b'v' ∷ b'e'
    ∷ b'r' ∷ b'_' ∷ b'd' ∷ b'a' ∷ b't' ∷ b'a' ∷ b'/' ∷ []

-- The branch of sendfile.cc for a connection.
unfoldable pub send_file : List ℕ → ℤ → Prog (Unit {0})
send_file path conn = do
  file ← call (open_file path)
  stat_buf ← call (fstat file.ret)
  call (sendfile file.ret conn stat_buf.value)
  call (close conn)
  pure tt

unfoldable pub sendfile_main : Libc → List (List ℕ) → Prog ℕ
unfolding send_file
sendfile_main libc argv = if leb (length argv) 3 then pure 1 else (do
  file_name ← argument argv 3
  sock ← listener libc argv (pos 5)
  serve_one sock (send_file (ftp_folder ++ file_name)))

-- The branch of splice.cc for a connection. The last assert assigns, so that it always holds.
unfoldable pub echo : ℤ → Prog (Unit {0})
echo conn = do
  p ← call pipe
  check (is_not_error p.ret)
  r ← call (splice conn p.ends.1 32768)
  check (is_not_error r.ret)
  call (splice p.ends.0 conn 32768)
  call (close conn)
  pure tt

unfoldable pub splice_main : Libc → List (List ℕ) → Prog ℕ
unfolding echo
splice_main libc argv =
    if leb (length argv) 2
    then pure 1
    else (do sock ← listener libc argv (pos 5); serve_one sock echo)

-- `timeout_connect`, whose two branches on `errno` return the same.
unfoldable pub timeout_connect : Address → (time : ℤ) → Prog ℤ
timeout_connect address time = do
  sock_fd ← new_socket
  r ← call (setsockopt sock_fd time)
  check (is_not_error r.ret)
  r' ← call (connect sock_fd address)
  if is_not_error r'.ret then pure sock_fd else pure (negsuc 0)

unfoldable pub timeout_connect_main : Libc → List (List ℕ) → Prog ℕ
unfolding timeout_connect
timeout_connect_main libc argv = if leb (length argv) 2 then pure 1 else (do
  address ← address_of libc argv
  socket_fd ← timeout_connect address (pos 10)
  if is_negative socket_fd then pure 1 else pure 0)
