-- ===== src/UnblockConnect.antt =====
-- src/unblock_connect.cc: a connection attempt that waits for a limited time.
-- The results of the system calls are a parameter; the model follows the socket: whether it is open,
-- and its file status flags. The set that `select` gets is not cleared before: what it and FD_ISSET find
-- in it is such a result too. FD_SET of a descriptor that no set has a place for is undefined
-- behaviour, `none`.
pub mod Outcome
mod Tests
use high_performance_linux_s.Base.{
  ℕ, zero, suc, Bool, true, false, ℤ, pos, negsuc, ◌==◌, leb, ltb, Option, none, some,
  if◌then◌else◌,
}
use high_performance_linux_s.Base.Partial.{◌>>=◌}

-- What the calls return, in the order in which they stand in the source. `flags` are those of a new
-- socket; `got`, `changed` and `restored` are whether the three `fcntl` calls succeed; `non_blocking` is what
-- `| O_NONBLOCK` makes of a number; `in_progress` is the test of `errno` after `connect`.
pub record Results : Type 0 where
  pub sock_fd : ℤ
  pub flags : ℤ
  pub got : Bool
  pub non_blocking : ℤ → ℤ
  pub changed : Bool
  pub connect : ℤ
  pub in_progress : Bool
  pub select : ℤ
  pub writable : Bool
  pub getsockopt : ℤ
  pub error : ℤ
  pub restored : Bool

pub record Socket : Type 0 where
  pub is_open : Bool
  pub flags : ℤ

abbrev pub is_zero : ℤ → Bool
is_zero (pos n) = n == 0
is_zero (negsuc n) = false

abbrev pub is_negative : ℤ → Bool
is_negative (pos n) = false
is_negative (negsuc n) = true

-- `ret <= 0`
abbrev pub is_failed : ℤ → Bool
is_failed (pos n) = n == 0
is_failed (negsuc n) = true

abbrev pub failed : ℤ
failed = negsuc 0

abbrev pub close : Socket → Socket
close s = record s { is_open = false }

-- `socket`: no socket is open where it returns -1.
unfoldable pub made_socket : Results → Socket
made_socket r = record { is_open = if is_negative r.sock_fd then false else true; flags = r.flags }

-- `fcntl(fd, F_SETFL, flags)`, by whether it succeeds.
unfoldable pub with_flags : Bool → ℤ → Socket → Socket
with_flags done flags s = if done then record s { flags = flags } else s

-- What F_GETFL returned, and the socket with the new flags.
unfoldable pub set_non_blocking : Results → Socket → ℤ × Socket
unfolding with_flags
set_non_blocking r s =
    let old_option : ℤ = if r.got then s.flags else failed in
    (old_option, with_flags r.changed (r.non_blocking old_option) s)

-- The part behind `select`.
unfoldable pub check_error : Results → (fd_opt : ℤ) → Socket → ℤ × Socket
unfolding with_flags
check_error r fd_opt s =
    if is_negative r.getsockopt
    then (failed, close s)
    else if is_zero r.error
    then (r.sock_fd, with_flags r.restored fd_opt s)
    else (failed, close s)

-- The descriptors that an `fd_set` has a place for: below FD_SETSIZE.
unfoldable pub has_place : ℤ → Bool
has_place (pos n) = ltb n 1024
has_place (negsuc n) = false

-- The part behind `connect`.
unfoldable pub await : Results → (fd_opt : ℤ) → Socket → Option (ℤ × Socket)
unfolding check_error has_place
await r fd_opt s =
    if has_place r.sock_fd
    then (if is_failed r.select
        then some (failed, close s)
        else if r.writable
        then some (check_error r fd_opt s)
        else some (failed, close s))
    else none

unfoldable pub unblock_connect : Results → Option (ℤ × Socket)
unfolding made_socket set_non_blocking await with_flags
unblock_connect r =
    let (fd_opt, s) = set_non_blocking r (made_socket r) in
    if is_zero r.connect
    then some (r.sock_fd, with_flags r.restored fd_opt s)
    else if r.in_progress
    then await r fd_opt s
    else some (failed, s)

-- `main`, for the number of its arguments: the value that it returns, and the socket behind it where
-- there is one.
unfoldable pub unblock_connect_main : (argc : ℕ) → Results → Option (ℕ × Option Socket)
unfolding unblock_connect
unblock_connect_main argc r = if leb argc 2 then some (1, none) else (do
  (sock_fd, s) ← unblock_connect r
  if is_negative sock_fd then some (1, some s) else some (0, some (close s)))
