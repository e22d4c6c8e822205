-- ===== src/Epoll/Drain.antt =====
-- The inner loop of `et` in epoll.cc.
use high_performance_linux_s.Base.{
  ℕ, zero, suc, ◌+◌, ◌<◌, ◌≡◌, refl, ap, true, false, List, [], ◌∷◌, ◌++◌, ℤ, pos, negsuc, ◌==◌,
  length, All, arith,
}
use high_performance_linux_s.SystemCalls.{
  Call, recv, close, Reply, World, done, call, is_negative, is_positive,
}
use high_performance_linux_s.SystemCalls.Descriptors.{
  Holds, ===_self, is_held, missing, works_on, after, replay,
}
use high_performance_linux_s.Epoll.{eagain, et_loop}

-- Replies of `recv` that deliver data.
abbrev pub IsData : Reply → Type 0
IsData r = is_positive r.ret ≡ true

positive : (x : ℤ) → is_positive x ≡ true → is_negative x ≡ false
positive (pos n) e = refl
positive (negsuc n) e = cc

-- A call whose reply is at hand.
answered :
    (c : Call) (fds : List ℤ) (w : World) (r : Reply) (rs : List Reply)
    → Holds fds w
    → missing (works_on c) fds ≡ 0
    → w.replies ≡ r ∷ rs
    → (w' : World) × (call c w ≡ done r w') × Holds (after c r fds) w' × (w'.replies ≡ rs)
unfolding call replay
answered c fds w r rs h m e = (
  record { replies = rs; calls = (c, r) ∷ w.calls },
  rw e refl,
  record { held = ap (after c r) h.held; fine = rw h.held (rw m (omega (arith, h.fine))) },
  refl,
)

-- The loop reads every piece of data, up to the reply that says that there are no more, and leaves
-- the descriptor open. It needs a round more than there are pieces.
pub et_loop-drains :
    (k : ℕ) (fd : ℤ) (fds : List ℤ) (w : World) (pieces : List Reply) (last : Reply)
    (rest : List Reply)
    → Holds (fd ∷ fds) w
    → w.replies ≡ pieces ++ last ∷ rest
    → All IsData pieces
    → is_negative last.ret ≡ true
    → last.errno ≡ eagain
    → length pieces < k
    → (w' : World) × (et_loop k fd w ≡ done tt w') × Holds (fd ∷ fds) w' × (w'.replies ≡ rest)
unfolding et_loop works_on after
et_loop-drains zero fd fds w pieces last rest h parts full neg no_data fuel = absurd (omega arith)
et_loop-drains (suc k) fd fds w [] last rest h parts full neg no_data fuel =
    let (w₁, run, s, left) =
      answered (recv fd 9 false) (fd ∷ fds) w last rest h (rw (===_self fd) refl) parts in
    let none_left : (last.errno == eagain) ≡ true = rw no_data refl in
    (w₁, rw run (rw (neg, none_left) refl), s, left)
et_loop-drains (suc k) fd fds w (r ∷ pieces) last rest h parts full neg no_data fuel =
    let (w₁, run, s, left) =
      answered (recv fd 9 false) (fd ∷ fds) w r (pieces ++ last ∷ rest) h (rw (===_self fd) refl)
        parts in
    let (w₂, run₂, s₂, left₂) =
      et_loop-drains k fd fds w₁ pieces last rest s left full.1 neg no_data (omega arith) in
    (w₂, rw run (rw (positive r.ret full.0, full.0) run₂), s₂, left₂)

-- When the peer has closed the connection, the loop closes the descriptor and goes on with it: where
-- the next `recv` then fails, it has called on a closed descriptor twice, the second time to close it
-- again. (This needs two rounds.)
pub et_loop-closes_twice :
    (k : ℕ) (fd : ℤ) (fds : List ℤ) (w : World) (end closed failed again : Reply)
    (rest : List Reply)
    → Holds (fd ∷ fds) w
    → is_held fd fds ≡ false
    → w.replies ≡ end ∷ closed ∷ failed ∷ again ∷ rest
    → end.ret ≡ pos 0
    → is_negative failed.ret ≡ true
    → (failed.errno == eagain) ≡ false
    → (w' : World) × (et_loop (k + 2) fd w ≡ done tt w') × ((replay w'.calls).bad ≡ 2)
unfolding et_loop works_on after call replay
et_loop-closes_twice k fd fds w end closed failed again rest h out e zero_read neg errno =
    let calls : List (Call × Reply) =
      (close fd, again)
      ∷ (recv fd 9 false, failed)
      ∷ (close fd, closed)
      ∷ (recv fd 9 false, end)
      ∷ w.calls in
    let more : k + 2 ≡ suc (suc k) = omega arith in
    (
      record { replies = rest; calls = calls },
      rw (more, e) (rw zero_read (rw (neg, errno) refl)),
      rw h.held (rw (===_self fd) (rw out (omega (arith, h.fine)))),
    )
