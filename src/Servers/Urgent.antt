-- ===== src/Servers/Urgent.antt =====
-- src/sigurg.cc. A signal is handled between two calls of `main`, or while one waits, which then goes
-- on (SA_RESTART); both are the handler's calls before that call. `arrivals` says how many signals
-- there are before each `recv` of `main` and, behind the last of them, before the connection is closed.
pub mod Run
use high_performance_linux_s.Base.{
  ℕ, zero, suc, ◌-◌, ◌+◌, ◌≤◌, ◌<◌, ◌≡◌, ◌⊎◌, true, false, List, [], ◌∷◌, ℤ, pos, if◌then◌else◌,
  length,
}
use high_performance_linux_s.SystemCalls.{
  Libc, accept, recv, close, set_owner, sigaction, World, Out, fault, Prog, pure, ◌>>=◌, ◌>>◌, call,
  out_of_fuel, check, is_positive, is_not_error, is_nonpositive,
}
use high_performance_linux_s.SystemCalls.Descriptors.{Ends, Holds, standard}
use high_performance_linux_s.Servers.{listener, receive_into}

abbrev pub buf_size : ℕ
buf_size = 1024

-- The handler of SIGURG, for the connection in the global variable.
unfoldable pub sig_urg : (connection_fd : ℤ) → Prog (Unit {0})
sig_urg connection_fd = do receive_into buf_size connection_fd (buf_size - 1) true; pure tt

unfoldable pub add_sig : Prog (Unit {0})
add_sig = do r ← call sigaction; check (is_not_error r.ret)

-- The handler, `n` times.
unfoldable pub signals : (n : ℕ) → (connection_fd : ℤ) → Prog (Unit {0})
signals zero connection_fd = pure tt
signals (suc n) connection_fd = do sig_urg connection_fd; signals n connection_fd

-- The loop of `main`, from its `i`th round on.
unfoldable pub normal_data_loop :
    (k i : ℕ) → (arrivals : ℕ → ℕ) → (connection_fd : ℤ) → Prog (Unit {0})
unfolding signals
normal_data_loop zero i arrivals connection_fd w = out_of_fuel
normal_data_loop (suc k) i arrivals connection_fd w =
    (do
      signals (arrivals i) connection_fd
      r ← receive_into buf_size connection_fd (buf_size - 1) false
      if is_positive r.ret
          then normal_data_loop k (i + 1) arrivals connection_fd
          else signals (arrivals (i + 1)) connection_fd)
      w

-- A round takes a reply, so this is enough fuel.
unfoldable pub receive_normal : (arrivals : ℕ → ℕ) → (connection_fd : ℤ) → Prog (Unit {0})
unfolding normal_data_loop
receive_normal arrivals connection_fd w =
    normal_data_loop (suc (length w.replies)) 0 arrivals connection_fd w

-- The branch for a connection.
unfoldable pub serve_connection : (arrivals : ℕ → ℕ) → (connection_fd : ℤ) → Prog (Unit {0})
unfolding add_sig receive_normal
serve_connection arrivals connection_fd = do
  add_sig
  call (set_owner connection_fd)
  receive_normal arrivals connection_fd
  call (close connection_fd)
  pure tt

-- `main`: for a short list of arguments it prints the usage and goes on.
unfoldable pub sigurg_main : Libc → (arrivals : ℕ → ℕ) → List (List ℕ) → Prog ℕ
unfolding serve_connection
sigurg_main libc arrivals argv = do
  sock ← listener libc argv (pos 5)
  conn ← call (accept sock)
  if is_nonpositive conn.ret then pure tt else serve_connection arrivals conn.ret
  call (close sock)
  pure 0

-- Its own descriptors are closed, but for a connection whose number is 0.
pub HasLeft : ℕ → World → Type 0
HasLeft code w = (code ≡ 0) × (Holds standard w ⊎ Holds (pos 0 ∷ standard) w)

-- A run from `w`, by the number of the arguments: 3 with the program's name.
pub data IsUsed (argv : List (List ℕ)) (w : World) : Out ℕ → Type 0 where
  too_few : length argv ≤ 2 → IsUsed argv w (fault w)
  enough : {m : Out ℕ} → 2 < length argv → Ends HasLeft m → IsUsed argv w m
