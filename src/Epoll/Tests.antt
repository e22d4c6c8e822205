-- ===== src/Epoll/Tests.antt =====
-- `lt` and `et` on concrete events and replies.
use high_performance_linux_s.Base.{
  ℕ, ◌+◌, ◌≡◌, refl, true, false, List, [], ◌∷◌, ℤ, pos, negsuc, length, arith,
}
use high_performance_linux_s.SystemCalls.{Libc, Reply, World, Event, done}
use high_performance_linux_s.SystemCalls.Descriptors.{Ends, Holds, standard, start, start-Holds}
use high_performance_linux_s.Epoll.{lt, et_loop}
use high_performance_linux_s.Epoll.Drain.{et_loop-drains}
use high_performance_linux_s.Epoll.Clients.{KeepsOthers, lt-KeepsOthers}

abbrev libc : Libc
libc = record {
  atoi = λ s. pos (length s);
  htons = λ n. 80;
  inet_pton = λ s. length s;
  non_blocking = λ f. f + 2048;
}

abbrev reply : ℤ → ℕ → Reply
reply n errno = record {
  ret = n;
  errno = errno;
  bytes = [];
  value = 0;
  flag = false;
  urgent = false;
  directory = false;
  readable = false;
  ends = (pos 8, pos 9);
  events = [];
}

abbrev drained : List Reply
drained = reply (pos 9) 0 ∷ reply (pos 4) 0 ∷ reply (negsuc 0) 11 ∷ []

et_loop-drains_example :
    (w : World) × (et_loop 3 (pos 0) (start drained) ≡ done tt w)
    × Holds standard w
    × (w.replies ≡ [])
et_loop-drains_example =
    et_loop-drains 3 (pos 0) (pos 1 ∷ pos 2 ∷ []) (start drained)
      (reply (pos 9) 0 ∷ reply (pos 4) 0 ∷ []) (reply (negsuc 0) 11) [] (start-Holds drained) refl
      (refl, (refl, tt)) refl refl (omega arith)

-- The peer has closed; the next `recv` fails with EBADF.
abbrev hung_up : List Reply
hung_up = reply (pos 0) 0 ∷ reply (pos 0) 0 ∷ reply (negsuc 0) 9 ∷ reply (negsuc 0) 9 ∷ []

abbrev events : List Event
events = record { fd = pos 0; epollin = true } ∷ record { fd = pos 2; epollin = true } ∷ []

lt-KeepsOthers_example :
    Ends (λ _ w. KeepsOthers standard events w) (lt libc (pos 5) (pos 6) events (start hung_up))
lt-KeepsOthers_example =
    lt-KeepsOthers libc (pos 5) (pos 6) events standard (start hung_up)
      (refl, refl, (refl, tt), (refl, refl, tt, tt)) (start-Holds hung_up)
