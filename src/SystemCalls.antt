-- ===== src/SystemCalls.antt =====
-- The system calls that the programs of src/ make, and how a program runs.
-- The operating system is a parameter: the list of the replies that it gives, in order. A call whose
-- reply is missing never returns. A program leaves the list of its calls behind, the latest first.
pub mod Descriptors
pub mod Leads
use high_performance_linux_s.Base.{
  ℕ, zero, suc, ◌+◌, Bool, true, false, ◌&&◌, Option, none, some, List, [], ◌∷◌, ◌++◌, ℤ, pos,
  negsuc, ◌==◌, if◌then◌else◌, length, get_elem?,
}

-- A `sockaddr_in` of the family AF_INET, the functions that fill it, and what `| O_NONBLOCK` makes of
-- a descriptor's flags.
pub record Address : Type 0 where
  pub ip : ℕ
  pub port : ℕ

pub record Libc : Type 0 where
  pub atoi : List ℕ → ℤ
  pub htons : ℤ → ℕ
  pub inet_pton : List ℕ → ℕ
  pub non_blocking : ℕ → ℕ

-- What `epoll_wait` reports of a descriptor, and whether EPOLLIN is among it.
pub record Event : Type 0 where
  pub fd : ℤ
  pub epollin : Bool

pub data Call : Type 0 where
  socket : Call
  bind : (fd : ℤ) → Address → Call
  listen : (fd : ℤ) → (backlog : ℤ) → Call
  accept : (fd : ℤ) → Call
  connect : (fd : ℤ) → Address → Call
  recv : (fd : ℤ) → (size : ℕ) → (oob : Bool) → Call
  send : (fd : ℤ) → List ℕ → (oob : Bool) → Call
  read : (fd : ℤ) → (size : ℕ) → Call
  write : (fd : ℤ) → List ℕ → Call
  close : (fd : ℤ) → Call
  get_flags : (fd : ℤ) → Call
  set_flags : (fd : ℤ) → (flags : ℕ) → Call
  set_owner : (fd : ℤ) → Call
  setsockopt : (fd : ℤ) → (value : ℤ) → Call
  getsockopt : (fd : ℤ) → Call
  select : (fd : ℤ) → Call
  epoll_create : (size : ℕ) → Call
  epoll_add : (epoll_fd fd : ℤ) → (events : ℕ) → Call
  epoll_mod : (epoll_fd fd : ℤ) → (events : ℕ) → Call
  epoll_wait : (epoll_fd : ℤ) → Call
  dup : (fd : ℤ) → Call
  pipe : Call
  splice : (fd_in fd_out : ℤ) → (size : ℕ) → Call
  sendfile : (out_fd in_fd : ℤ) → (size : ℕ) → Call
  open_file : List ℕ → Call
  stat : List ℕ → Call
  fstat : (fd : ℤ) → Call
  writev : (fd : ℤ) → List (List ℕ) → Call
  sigaction : Call
  sleep : (seconds : ℕ) → Call
  pthread_create : (epoll_fd fd : ℤ) → Call
  gethostbyname : List ℕ → Call
  getservbyname : Call
  getuid : Call
  getegid : Call
  pthread_sigmask : Call
  sigwait : Call
  pause : Call
  thread_create : Call
  socketpair : Call
  fork : Call
  sendmsg : (fd fd_to_send : ℤ) → Call
  recvmsg : (fd : ℤ) → Call

-- What a call returns: its value, `errno`, the bytes and the number that it stores; for `select`,
-- whether the descriptor is readable (`flag`) and whether urgent data are there; `flag` for a pointer
-- that is not null; for `stat`, whether
-- the file is a directory and whether all may read it; the two descriptors of a pipe or a pair of sockets, and the events
-- of `epoll_wait`.
pub record Reply : Type 0 where
  pub ret : ℤ
  pub errno : ℕ
  pub bytes : List ℕ
  pub value : ℕ
  pub flag : Bool
  pub urgent : Bool
  pub directory : Bool
  pub readable : Bool
  pub ends : ℤ × ℤ
  pub events : List Event

pub record World : Type 0 where
  pub replies : List Reply
  pub calls : List (Call × Reply)

-- A run ends with a value, in a failed `assert`, in a call that does not return, or in undefined
-- behaviour; or it is out of fuel.
pub data Out (A : Type 0) : Type 0 where
  done : A → World → Out A
  aborted : World → Out A
  waiting : World → Out A
  fault : World → Out A
  out_of_fuel : Out A

abbrev pub Prog : Type 0 → Type 0
Prog A = World → Out A

abbrev pub pure : {A : Type 0} → A → Prog A
pure a w = done a w

abbrev pub and_then : {A B : Type 0} → Out A → (A → Prog B) → Out B
and_then (done a w) k = k a w
and_then (aborted w) k = aborted w
and_then (waiting w) k = waiting w
and_then (fault w) k = fault w
and_then out_of_fuel k = out_of_fuel

infixl 5 ◌>>=◌ ◌>>◌
abbrev pub ◌>>=◌ : {A B : Type 0} → Prog A → (A → Prog B) → Prog B
◌>>=◌ m k w = and_then (m w) k

abbrev pub ◌>>◌ : {A B : Type 0} → Prog A → Prog B → Prog B
m >> k = m >>= λ _. k

abbrev answer : Call → List (Call × Reply) → List Reply → Out Reply
answer c calls [] = waiting (record { replies = []; calls = calls })
answer c calls (r ∷ rs) = done r (record { replies = rs; calls = (c, r) ∷ calls })

unfoldable pub call : Call → Prog Reply
call c w = answer c w.calls w.replies

abbrev pub undefined : {A : Type 0} → Prog A
undefined w = fault w

-- `assert(b)`
abbrev pub check : Bool → Prog (Unit {0})
check true w = done tt w
check false w = aborted w

abbrev pub is_negative : ℤ → Bool
is_negative (pos n) = false
is_negative (negsuc n) = true

abbrev pub is_nonnegative : ℤ → Bool
is_nonnegative (pos n) = true
is_nonnegative (negsuc n) = false

abbrev pub is_positive : ℤ → Bool
is_positive (pos zero) = false
is_positive (pos (suc n)) = true
is_positive (negsuc n) = false

-- `x != -1`
abbrev pub is_not_error : ℤ → Bool
is_not_error (negsuc zero) = false
is_not_error _ = true

infix 50 ◌===◌
abbrev pub ◌===◌ : ℤ → ℤ → Bool
pos m === pos n = m == n
negsuc m === negsuc n = m == n
_ === _ = false

-- `argv[i]`, read by a function that takes no null pointer.
unfoldable pub argument : List (List ℕ) → ℕ → Prog (List ℕ)
argument argv i w = elim (get_elem? argv i) [ none ↦ fault w | some a ↦ done a w ]

-- `ret <= 0`
abbrev pub is_nonpositive : ℤ → Bool
is_nonpositive (pos zero) = true
is_nonpositive (pos (suc n)) = false
is_nonpositive (negsuc n) = true

abbrev pub to_nat : ℤ → ℕ
to_nat (pos n) = n
to_nat (negsuc n) = 0

-- `fcntl(fd, F_GETFL)`, and `fcntl(fd, F_SETFL, old | O_NONBLOCK)`.
unfoldable pub set_non_blocking : Libc → ℤ → Prog ℤ
set_non_blocking libc fd = do
  old_option ← call (get_flags fd)
  call (set_flags fd (libc.non_blocking old_option.value))
  pure old_option.ret
