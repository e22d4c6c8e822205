-- ===== src/UnblockConnect/Outcome.antt =====
-- What becomes of the socket.
use high_performance_linux_s.Base.{
  ◌≡◌, Bool, true, false, ◌&&◌, ℤ, Option, none, some, if◌then◌else◌,
}
use high_performance_linux_s.UnblockConnect.{
  Results, Socket, is_zero, is_negative, is_failed, failed, made_socket, set_non_blocking,
  has_place,
}

not : Bool → Bool
not true = false
not false = true

-- How an attempt ends.
pub data Ending : Type 0 where
  connected : Ending
  closed : Ending
  left_open : Ending
  undefined : Ending

-- The connection stands at once, or when `select` returned in time without a pending error; what has no
-- place in a set does not get that far.
unfoldable pub ending : Results → Ending
unfolding not
ending r =
    if is_zero r.connect
    then connected
    else if not r.in_progress
    then left_open
    else if not (has_place r.sock_fd)
    then undefined
    else if not (is_failed r.select)
        && (r.writable && (not (is_negative r.getsockopt) && is_zero r.error))
    then connected
    else closed

-- The flags behind the three calls of `fcntl`; where all of them succeed, they are the old ones.
unfoldable pub flags_left : Results → ℤ
flags_left r =
    let old : ℤ = if r.got then r.flags else failed in
    if r.restored then old else if r.changed then r.non_blocking old else r.flags

-- On success the socket is returned, with those flags, open if `socket` opened one. On failure it is
-- closed, or left as `socket` left it.
abbrev pub IsOutcome : Results → Ending → Option (ℤ × Socket) → Type 0
IsOutcome r connected out =
    out ≡ some (r.sock_fd, record { is_open = (made_socket r).is_open; flags = flags_left r })
IsOutcome r closed out = (s : Socket) × (out ≡ some (failed, s)) × (s.is_open ≡ false)
IsOutcome r left_open out =
    (s : Socket) × (out ≡ some (failed, s)) × (s.is_open ≡ (made_socket r).is_open)
IsOutcome r undefined out = out ≡ none

module _ (r : Results) where
  -- The socket that `connect` gets.
  abbrev tried : Socket
  tried = (set_non_blocking r (made_socket r)).1
