-- ===== src/Servers/Clean.antt =====
-- Programs that keep to their descriptors and close them.
use high_performance_linux_s.Base.{
  ℕ, zero, suc, ◌-◌, ◌<◌, ◌≤◌, ◌≡◌, refl, ◌≢◌, Bool, true, false, List, [], ◌∷◌, ℤ, pos, ◌==◌, leb,
  if◌then◌else◌, length, replicate, arith, Bool-cases, inl, inr, get_elem?, none, ==→eq,
}
use high_performance_linux_s.SystemCalls.{
  Address, Libc, connect, recv, send, close, setsockopt, getsockopt, sleep, Reply, World, Out,
  fault, Prog, pure, ◌>>=◌, ◌>>◌, call, is_negative, argument,
}
use high_performance_linux_s.SystemCalls.Descriptors.{
  Holds, Ends, ends_done, Ends-bind, Ends-mono, call-Ends, use-Ends, close-Ends, argument-Ends,
  works_on, after, standard, start, start-Holds, EndsOr, or_fault, EndsOr-bind, Ends-EndsOr,
}
use high_performance_linux_s.Servers.Rules.{
  address_of-Ends, new_socket-Ends, front-Ends, bind_listen-Ends, listener-Ends, serve_one-Ends,
  receive_all-Ends, receive_into-Ends,
}
use high_performance_linux_s.Servers.Tcp.{
  buf_size, buffer_size, receive_three, tcp_recv, tcp_send, oob_data, normal_data, drain,
  tcp_recv_buffer_size, tcp_send_buffer_size,
}
use high_performance_linux_s.Servers.Files.{accept_connection, sleep_loop, listen_backlog}

-- A run that ends by itself has closed every descriptor that it opened.
abbrev pub EndsClean : Out ℕ → Type 0
EndsClean = Ends (λ _ w. Holds standard w)

-- A program that answers a short list of arguments with 1 does nothing else then.
pub usage :
    (n : ℕ) (argv : List (List ℕ)) (w : World) (rest : Prog ℕ)
    → Holds standard w
    → (n < length argv → EndsClean (rest w))
    → EndsClean ((if leb (length argv) n then pure 1 else rest) w)
usage n argv w rest h more = elim (Bool-cases (leb (length argv) n)) [
  | inl e ↦ rw e (ends_done h)
  | inr e ↦ rw e (more (ground arith))
]

-- A call on the descriptor in front that sends, receives or sets an option.
module _ (fd : ℤ) (fds : List ℤ) (w : World) (h : Holds (fd ∷ fds) w) where
  recv-Ends : (n : ℕ) (oob : Bool) → Ends (λ _ w'. Holds (fd ∷ fds) w') (call (recv fd n oob) w)
  unfolding works_on after
  recv-Ends n oob = front-Ends (recv fd n oob) fd fds w refl (λ r. refl) h

  send-Ends :
      (xs : List ℕ) (oob : Bool) → Ends (λ _ w'. Holds (fd ∷ fds) w') (call (send fd xs oob) w)
  unfolding works_on after
  send-Ends xs oob = front-Ends (send fd xs oob) fd fds w refl (λ r. refl) h

  connect-Ends : (a : Address) → Ends (λ _ w'. Holds (fd ∷ fds) w') (call (connect fd a) w)
  unfolding works_on after
  connect-Ends a = front-Ends (connect fd a) fd fds w refl (λ r. refl) h

  setsockopt-Ends : (n : ℤ) → Ends (λ _ w'. Holds (fd ∷ fds) w') (call (setsockopt fd n) w)
  unfolding works_on after
  setsockopt-Ends n = front-Ends (setsockopt fd n) fd fds w refl (λ r. refl) h

  getsockopt-Ends : Ends (λ _ w'. Holds (fd ∷ fds) w') (call (getsockopt fd) w)
  unfolding works_on after
  getsockopt-Ends = front-Ends (getsockopt fd) fd fds w refl (λ r. refl) h

receive_three-Ends :
    (fds : List ℤ) (conn : ℤ) (w : World)
    → Holds (conn ∷ fds) w
    → Ends (λ _ w'. Holds fds w') (receive_three conn w)
unfolding receive_three after
receive_three-Ends fds conn w h =
    let received = λ (oob : Bool) (w' : World) (h' : Holds (conn ∷ fds) w').
      receive_into-Ends buf_size conn (buf_size - 1) oob fds w' (omega arith) h' in
    Ends-bind (received false w h) λ r w₁ s₁. Ends-bind (received true w₁ s₁.holds) λ r w₂ s₂.
      Ends-bind (received false w₂ s₂.holds)
        λ r w₃ s₃. Ends-bind (close-Ends conn fds w₃ s₃.holds) λ r w₄ h₄. ends_done h₄

drain-Ends :
    (fds : List ℤ) (conn : ℤ) (w : World)
    → Holds (conn ∷ fds) w
    → Ends (λ _ w'. Holds fds w') (drain conn w)
unfolding drain
drain-Ends fds conn w h =
    Ends-bind (receive_all-Ends conn (buf_size - 1) fds w h)
      λ u w₁ h₁. Ends-bind (close-Ends conn fds w₁ h₁) λ r w₂ h₂. ends_done h₂

-- From a socket with a client's branch, on success and on failure of `connect`, to the end.
client-Ends :
    (sock : ℤ) (address : Address) (branch : Prog (Unit {0})) (fds : List ℤ) (w : World)
    → Holds (sock ∷ fds) w
    → ((w : World) → Holds (sock ∷ fds) w → Ends (λ _ w'. Holds (sock ∷ fds) w') (branch w))
    → Ends
        (λ _ w'. Holds fds w')
        ((do
          r ← call (connect sock address)
          if is_negative r.ret then pure tt else branch
          call (close sock)
          pure {A = ℕ} 0)
          w)
client-Ends sock address branch fds w h served =
    Ends-bind (connect-Ends sock fds w h address) λ r w₁ h₁.
      Ends-bind {P = λ _ w'. Holds (sock ∷ fds) w'}
        {m = (if is_negative r.ret then pure tt else branch) w₁}
        (elim (Bool-cases (is_negative r.ret)) [
          | inl e ↦ rw e (ends_done h₁)
          | inr e ↦ rw e (served w₁ h₁)
        ])
        λ u w₂ h₂. Ends-bind (close-Ends sock fds w₂ h₂) λ r w₃ h₃. ends_done h₃

-- Rounds that sleep, until the signal has arrived.
sleep_loop-Ends :
    (k : ℕ) (fds : List ℤ) (w : World)
    → Holds fds w
    → length w.replies < k
    → Ends (λ _ w'. Holds fds w') (sleep_loop k w)
unfolding sleep_loop works_on after
sleep_loop-Ends zero fds w h fuel = absurd (omega arith)
sleep_loop-Ends (suc k) fds w h fuel = Ends-bind (call-Ends (sleep 1) fds w h refl) λ r w₁ s.
    elim (Bool-cases r.flag) [
      | inl e ↦ rw e (ends_done s.holds)
      | inr e ↦ let less = s.fewer in rw e (sleep_loop-Ends k fds w₁ s.holds (omega arith))
    ]

module _ (libc : Libc) (argv : List (List ℕ)) (w : World) (h : Holds standard w) where
  tcp_recv-clean : EndsClean (tcp_recv libc argv w)
  unfolding tcp_recv
  tcp_recv-clean = usage 2 argv w _ h λ b.
      Ends-bind (listener-Ends libc argv (pos 5) w b h) λ sock w₁ h₁.
        Ends-mono
          (serve_one-Ends sock receive_three standard w₁ h₁ (receive_three-Ends (sock ∷ standard)))
          λ code w₂ s. s.1

  tcp_send-clean : EndsClean (tcp_send libc argv w)
  unfolding tcp_send
  tcp_send-clean = usage 2 argv w _ h λ b. Ends-bind (address_of-Ends libc argv w b) λ address w₁ e.
      Ends-bind (new_socket-Ends standard w₁ (rw e h)) λ sock w₂ h₂.
        client-Ends sock address _ standard w₂ h₂ λ w₃ h₃.
          Ends-bind (send-Ends sock standard w₃ h₃ normal_data false) λ r w₄ h₄.
            Ends-bind (send-Ends sock standard w₄ h₄ oob_data true) λ r w₅ h₅.
              Ends-bind (send-Ends sock standard w₅ h₅ normal_data false) λ r w₆ h₆. ends_done h₆

  tcp_send_buffer_size-clean : EndsClean (tcp_send_buffer_size libc argv w)
  unfolding tcp_send_buffer_size
  tcp_send_buffer_size-clean = usage 3 argv w _ h λ b.
      Ends-bind (address_of-Ends libc argv w (omega arith)) λ address w₁ e.
        Ends-bind (new_socket-Ends standard w₁ (rw e h)) λ sock w₂ h₂.
          Ends-bind (argument-Ends argv 3 w₂ b) λ size w₃ e₃.
            Ends-bind (setsockopt-Ends sock standard w₃ (rw e₃ h₂) (libc.atoi size)) λ r w₄ h₄.
              Ends-bind (getsockopt-Ends sock standard w₄ h₄) λ r w₅ h₅.
                client-Ends sock address _ standard w₅ h₅ λ w₆ h₆.
                  Ends-bind (send-Ends sock standard w₆ h₆ (replicate buffer_size b'a') false)
                    λ r w₇ h₇. ends_done h₇

  tcp_recv_buffer_size-clean : length argv ≢ 3 → EndsClean (tcp_recv_buffer_size libc argv w)
  unfolding tcp_recv_buffer_size
  tcp_recv_buffer_size-clean ne = usage 2 argv w _ h λ b.
      Ends-bind (address_of-Ends libc argv w b) λ address w₁ e.
        Ends-bind (new_socket-Ends standard w₁ (rw e h)) λ sock w₂ h₂.
          Ends-bind (argument-Ends argv 3 w₂ (omega arith)) λ size w₃ e₃.
            Ends-bind (setsockopt-Ends sock standard w₃ (rw e₃ h₂) (libc.atoi size)) λ r w₄ h₄.
              Ends-bind (getsockopt-Ends sock standard w₄ h₄) λ r w₅ h₅.
                Ends-bind (bind_listen-Ends sock address (pos 5) standard w₅ h₅) λ u w₆ h₆.
                  Ends-mono
                    (serve_one-Ends sock drain standard w₆ h₆ (drain-Ends (sock ∷ standard)))
                    λ code w₇ s. s.1

  accept_connection-clean : EndsClean (accept_connection libc argv w)
  unfolding accept_connection works_on after
  accept_connection-clean = usage 2 argv w _ h λ b.
      Ends-bind (listener-Ends libc argv (pos 2) w b h) λ sock w₁ h₁.
        Ends-bind (use-Ends (sleep 20) (sock ∷ standard) w₁ h₁ refl (λ r. refl)) λ r w₂ h₂.
          Ends-mono
            (serve_one-Ends sock _ standard w₂ h₂ λ conn w₃ h₃.
              Ends-bind (close-Ends conn (sock ∷ standard) w₃ h₃) λ r w₄ h₄. ends_done h₄)
            λ code w₃ s. s.1

  listen_backlog-clean : EndsClean (listen_backlog libc argv w)
  unfolding listen_backlog
  listen_backlog-clean = usage 3 argv w _ h λ b.
      Ends-bind (argument-Ends argv 3 w b) λ backlog w₁ e₁.
        Ends-bind (new_socket-Ends standard w₁ (rw e₁ h)) λ sock w₂ h₂.
          Ends-bind (address_of-Ends libc argv w₂ (omega arith)) λ address w₃ e₃.
            Ends-bind (bind_listen-Ends sock address (libc.atoi backlog) standard w₃ (rw e₃ h₂))
              λ u w₄ h₄.
                Ends-bind
                  (sleep_loop-Ends (suc (length w₄.replies)) (sock ∷ standard) w₄ h₄ (omega arith))
                  λ u w₅ h₅. Ends-bind (close-Ends sock standard w₅ h₅) λ r w₆ h₆. ends_done h₆

-- `tcp_recv`, `tcp_send`, `tcp_send_buffer_size`, `accept_connection` and `listen_backlog`, with any
-- arguments and whatever the system replies: the program ends by itself, in a failed assert or in a
-- call that does not return; it never reads a missing argument and never calls on a descriptor that
-- is not open, and when it ends by itself it has closed every descriptor that it opened.
pub servers-clean :
    (libc : Libc) (argv : List (List ℕ)) (replies : List Reply)
    → let w = start replies in
      EndsClean (tcp_recv libc argv w)
      × EndsClean (tcp_send libc argv w)
      × EndsClean (tcp_send_buffer_size libc argv w)
      × EndsClean (accept_connection libc argv w)
      × EndsClean (listen_backlog libc argv w)
servers-clean libc argv replies =
    let w = start replies in
    let h = start-Holds replies in
    (
      tcp_recv-clean libc argv w h,
      tcp_send-clean libc argv w h,
      tcp_send_buffer_size-clean libc argv w h,
      accept_connection-clean libc argv w h,
      listen_backlog-clean libc argv w h,
    )

past_end : (argv : List (List ℕ)) (i : ℕ) → length argv ≤ i → get_elem? argv i ≡ none
past_end [] i e = refl
past_end (a ∷ argv) zero e = absurd (omega arith)
past_end (a ∷ argv) (suc i) e = past_end argv i (omega arith)

pub argument-fault :
    (argv : List (List ℕ)) (i : ℕ) (w : World) → length argv ≤ i → argument argv i w ≡ fault w
unfolding argument
argument-fault argv i w e = rw (argument, past_end argv i e) refl

-- `tcp_recv_buffer_size`, whatever the arguments and the system's replies, ends by itself, in a failed
-- assert or in a call that does not return; it calls on open descriptors only, and when it ends by
-- itself it has closed every descriptor that it opened. Or it is undefined behaviour; then it was
-- called with exactly the two arguments that its usage asks for.
pub tcp_recv_buffer_size-EndsOr :
    (libc : Libc) (argv : List (List ℕ)) (replies : List Reply)
    → EndsOr
        (λ w. length argv ≡ 3)
        (λ _ w. Holds standard w)
        (tcp_recv_buffer_size libc argv (start replies))
unfolding tcp_recv_buffer_size
tcp_recv_buffer_size-EndsOr libc argv replies = elim (Bool-cases (length argv == 3)) [
  | inr ne ↦
      Ends-EndsOr
        (tcp_recv_buffer_size-clean libc argv (start replies) (start-Holds replies) (ground arith))
  | inl e ↦
      let three = ==→eq (length argv) 3 e in
      let enough : leb (length argv) 2 ≡ false = ground arith in
      rw enough (
        EndsOr-bind (address_of-Ends libc argv (start replies) (omega arith)) λ address w₁ e₁.
          EndsOr-bind (new_socket-Ends standard w₁ (rw e₁ (start-Holds replies)))
            λ sock w₂ h₂. rw (argument-fault argv 3 w₂ (omega arith)) (or_fault three))
]
