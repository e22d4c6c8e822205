-- ===== src/Epoll/Clients.antt =====
-- `lt` of epoll.cc on the events of clients.
use high_performance_linux_s.Base.{
  ◌≡◌, refl, ◌∙◌, sym, ap, ◌⊎◌, inl, inr, true, false, List, [], ◌∷◌, ℤ, pos, negsuc, All,
  Bool-cases, ==→eq,
}
use high_performance_linux_s.SystemCalls.{Libc, Event, recv, close, World, ◌===◌, is_nonpositive}
use high_performance_linux_s.SystemCalls.Descriptors.{
  Holds, Ends, ends_done, Ends-bind, Ends-mono, call-Ends, is_held, remove, works_on, after,
}
use high_performance_linux_s.Epoll.{lt_event, lt}

===→eq : (x y : ℤ) → (x === y) ≡ true → x ≡ y
===→eq (pos m) (pos n) e = ap pos (==→eq m n e)
===→eq (negsuc m) (negsuc n) e = ap negsuc (==→eq m n e)
===→eq (pos m) (negsuc n) e = cc
===→eq (negsuc m) (pos n) e = cc

-- Closing one descriptor leaves the others.
is_held-remove :
    (x y : ℤ) (fds : List ℤ) → (x === y) ≡ false → is_held x (remove y fds) ≡ is_held x fds
is_held-remove x y [] ne = refl
is_held-remove x y (z ∷ zs) ne = elim (Bool-cases (y === z)) [
  | inl e ↦
      let same : y ≡ z = ===→eq y z e in
      let far : (x === z) ≡ false = sym (ap (λ (u : ℤ). x === u) same) ∙ ne in rw (e, far) refl
  | inr n ↦ rw (n, is_held-remove x y zs ne) refl
]

-- Reported descriptors that are open, each reported once, and none of them listening.
abbrev pub AreClients : (listen_fd : ℤ) → List ℤ → List Event → Type 0
AreClients listen_fd fds [] = Unit
AreClients listen_fd fds (event ∷ events) =
    ((event.fd === listen_fd) ≡ false)
    × (is_held event.fd fds ≡ true)
    × All (λ other. (other.fd === event.fd) ≡ false) events
    × AreClients listen_fd fds events

AreClients-remove :
    (listen_fd fd : ℤ) (fds : List ℤ) (events : List Event)
    → All (λ other. (other.fd === fd) ≡ false) events
    → AreClients listen_fd fds events
    → AreClients listen_fd (remove fd fds) events
AreClients-remove listen_fd fd fds [] far clients = tt
AreClients-remove listen_fd fd fds (event ∷ events) far clients = (
  clients.0,
  is_held-remove event.fd fd fds far.0 ∙ clients.1,
  clients.2,
  AreClients-remove listen_fd fd fds events far.1 clients.3,
)

-- Every descriptor that no event reports is as open as before.
pub record KeepsOthers (fds : List ℤ) (events : List Event) (w : World) : Type 0 where
  pub left : List ℤ
  pub holds : Holds left w
  pub others :
      (x : ℤ) → All (λ event. (x === event.fd) ≡ false) events → is_held x left ≡ is_held x fds

-- After one event: the descriptor is closed or nothing has changed.
lt_event-Ends :
    (libc : Libc) (epoll_fd listen_fd : ℤ) (event : Event) (fds : List ℤ) (w : World)
    → (event.fd === listen_fd) ≡ false
    → is_held event.fd fds ≡ true
    → Holds fds w
    → Ends
        (λ _ w'. Holds fds w' ⊎ Holds (remove event.fd fds) w')
        (lt_event libc epoll_fd listen_fd event w)
unfolding lt_event works_on after
lt_event-Ends libc epoll_fd listen_fd event fds w client held h = elim (Bool-cases event.epollin) [
  | inr a ↦ rw (client, a) (ends_done (inl h))
  | inl a ↦
      rw (client, a)
        (Ends-bind (call-Ends (recv event.fd 9 false) fds w h (rw held refl)) λ r w₁ s.
          elim (Bool-cases (is_nonpositive r.ret)) [
            | inr b ↦ rw b (ends_done (inl s.holds))
            | inl b ↦ rw b (
                Ends-bind (call-Ends (close event.fd) fds w₁ s.holds (rw held refl))
                  λ r' w₂ t. ends_done (inr t.holds))
          ])
]

-- `lt` on events of clients only, each with an open descriptor that is reported once, whatever the
-- system replies: it calls on open descriptors only, never on one that it has closed, and where it
-- ends, every descriptor that was not reported is open if and only if it was.
pub lt-KeepsOthers :
    (libc : Libc) (epoll_fd listen_fd : ℤ) (events : List Event) (fds : List ℤ) (w : World)
    → AreClients listen_fd fds events
    → Holds fds w
    → Ends (λ _ w'. KeepsOthers fds events w') (lt libc epoll_fd listen_fd events w)
unfolding lt
lt-KeepsOthers libc epoll_fd listen_fd [] fds w clients h =
    ends_done (record { left = fds; holds = h; others = λ x far. refl })
lt-KeepsOthers libc epoll_fd listen_fd (event ∷ events) fds w clients h =
    let (not_listening, held, once, others) = clients in
    Ends-bind (lt_event-Ends libc epoll_fd listen_fd event fds w not_listening held h) λ u w₁ s.
      elim s [
        | inl same ↦
            Ends-mono (lt-KeepsOthers libc epoll_fd listen_fd events fds w₁ others same) λ u' w₂ k.
              record { left = k.left; holds = k.holds; others = λ x far. k.others x far.1 }
        | inr gone ↦
            Ends-mono
              (lt-KeepsOthers libc epoll_fd listen_fd events (remove event.fd fds) w₁
                (AreClients-remove listen_fd event.fd fds events once others) gone)
              λ u' w₂ k. record {
                left = k.left;
                holds = k.holds;
                others = λ x far. k.others x far.1 ∙ is_held-remove x event.fd fds far.0;
              }
      ]
