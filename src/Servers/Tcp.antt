-- ===== src/Servers/Tcp.antt =====
-- src/tcp_recv.cc, src/tcp_send.cc, src/tcp_recv_buffer_size.cc and src/tcp_send_buffer_size.cc.
use high_performance_linux_s.Base.{
  ℕ, ◌-◌, true, false, List, [], ◌∷◌, ℤ, pos, leb, if◌then◌else◌, length, replicate,
}
use high_performance_linux_s.SystemCalls.{
  Libc, connect, send, close, setsockopt, getsockopt, Prog, pure, ◌>>=◌, ◌>>◌, call, is_negative,
  argument,
}
use high_performance_linux_s.Servers.{
  address_of, new_socket, bind_listen, listener, serve_one, receive_all, receive_into,
}

abbrev pub buf_size : ℕ
buf_size = 1024

-- The branch of tcp_recv.cc for a connection: normal data, urgent data, normal data.
unfoldable pub receive_three : ℤ → Prog (Unit {0})
receive_three conn = do
  receive_into buf_size conn (buf_size - 1) false
  receive_into buf_size conn (buf_size - 1) true
  receive_into buf_size conn (buf_size - 1) false
  call (close conn)
  pure tt

unfoldable pub tcp_recv : Libc → List (List ℕ) → Prog ℕ
unfolding receive_three
tcp_recv libc argv =
    if leb (length argv) 2
    then pure 1
    else (do sock ← listener libc argv (pos 5); serve_one sock receive_three)

abbrev pub oob_data : List ℕ
oob_data = b'a' ∷ b'b' ∷ b'c' ∷ []

abbrev pub normal_data : List ℕ
normal_data = b'1' ∷ b'2' ∷ b'3' ∷ []

unfoldable pub tcp_send : Libc → List (List ℕ) → Prog ℕ
tcp_send libc argv = if leb (length argv) 2 then pure 1 else (do
  server_address ← address_of libc argv
  sock_fd ← new_socket
  r ← call (connect sock_fd server_address)
  if is_negative r.ret then pure tt else (do
    call (send sock_fd normal_data false)
    call (send sock_fd oob_data true)
    call (send sock_fd normal_data false)
    pure tt)
  call (close sock_fd)
  pure 0)

-- The branch of tcp_recv_buffer_size.cc for a connection.
unfoldable pub drain : ℤ → Prog (Unit {0})
drain conn = do receive_all conn (buf_size - 1); call (close conn); pure tt

-- `argv[3]` is read although only two arguments are asked for.
unfoldable pub tcp_recv_buffer_size : Libc → List (List ℕ) → Prog ℕ
unfolding drain
tcp_recv_buffer_size libc argv = if leb (length argv) 2 then pure 1 else (do
  address ← address_of libc argv
  sock ← new_socket
  recv_buf ← argument argv 3
  call (setsockopt sock (libc.atoi recv_buf))
  call (getsockopt sock)
  bind_listen sock address (pos 5)
  serve_one sock drain)

abbrev pub buffer_size : ℕ
buffer_size = 512

unfoldable pub tcp_send_buffer_size : Libc → List (List ℕ) → Prog ℕ
tcp_send_buffer_size libc argv = if leb (length argv) 3 then pure 1 else (do
  server_address ← address_of libc argv
  sock_fd ← new_socket
  send_buf ← argument argv 3
  call (setsockopt sock_fd (libc.atoi send_buf))
  call (getsockopt sock_fd)
  r ← call (connect sock_fd server_address)
  if is_negative r.ret
      then pure tt
      else (do call (send sock_fd (replicate buffer_size b'a') false); pure tt)
  call (close sock_fd)
  pure 0)
