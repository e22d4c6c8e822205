-- ===== src/Servers/Rules.antt =====
-- The shared parts of the programs keep to the descriptors that they hold.
use mathlib.Core.Path.{subst}
use high_performance_linux_s.Base.{
  ℕ, zero, suc, ◌<◌, ◌≡◌, refl, ◌∙◌, false, List, [], ◌∷◌, ℤ, length, arith, Bool-cases, inl, inr,
  Bool, true, ltb, take, length-take, lt→ltb,
}
use high_performance_linux_s.SystemCalls.{
  Address, Libc, Call, socket, bind, listen, accept, recv, Reply, World, Prog, call, is_negative,
  is_nonnegative, is_positive, is_not_error,
}
use high_performance_linux_s.SystemCalls.Descriptors.{
  Holds, Ends, ends_done, Ends-bind, Ends-mono, Called, call-Ends, use-Ends, close-Ends, check-Ends,
  argument-Ends, ===_self, works_on, after, opened_nonnegative, opened_negative, nonnegative,
  standard,
}
use high_performance_linux_s.Servers.{
  receive_into, address_of, new_socket, bind_listen, listener, serve_one, receive_loop, receive_all,
}

pub address_of-Ends :
    (libc : Libc) (argv : List (List ℕ)) (w : World)
    → 2 < length argv
    → Ends (λ _ w'. w' ≡ w) (address_of libc argv w)
unfolding address_of
address_of-Ends libc argv w b =
    Ends-bind (argument-Ends argv 1 w (omega arith))
      λ ip w₁ e. Ends-bind (argument-Ends argv 2 w₁ b) λ port w₂ e'. ends_done (e' ∙ e)

pub new_socket-Ends :
    (fds : List ℤ) (w : World) → Holds fds w → Ends (λ s w'. Holds (s ∷ fds) w') (new_socket w)
unfolding new_socket works_on after
new_socket-Ends fds w h = Ends-bind (call-Ends socket fds w h refl) λ r w₁ s.
    Ends-bind (check-Ends (is_nonnegative r.ret) _ w₁ s.holds) λ u w₂ (e, t). ends_done (
      rw e (
        subst (λ (xs : List ℤ). Holds xs w₁) (opened_nonnegative r.ret fds (nonnegative r.ret t))
          s.holds))

-- A call on the descriptor in front.
pub front-Ends :
    (c : Call) (fd : ℤ) (fds : List ℤ) (w : World)
    → works_on c ≡ fd ∷ []
    → ((r : Reply) → after c r (fd ∷ fds) ≡ fd ∷ fds)
    → Holds (fd ∷ fds) w
    → Ends (λ r w'. Holds (fd ∷ fds) w') (call c w)
front-Ends c fd fds w e same h = use-Ends c (fd ∷ fds) w h (rw e (rw (===_self fd) refl)) same

pub receive_into-Ends :
    (room : ℕ) (fd : ℤ) (size : ℕ) (oob : Bool) (fds : List ℤ) (w : World)
    → size < room
    → Holds (fd ∷ fds) w
    → Ends (Called (recv fd size oob) (fd ∷ fds) w) (receive_into room fd size oob w)
unfolding receive_into works_on
receive_into-Ends room fd size oob fds w lt h =
    Ends-bind (call-Ends (recv fd size oob) (fd ∷ fds) w h (rw (===_self fd) refl)) λ r w₁ s.
      let stored = length-take size r.bytes in
      let fits : ltb (length (take size r.bytes)) room ≡ true = lt→ltb _ _ (ground arith) in
      rw fits (ends_done s)

pub bind_listen-Ends :
    (sock : ℤ) (address : Address) (backlog : ℤ) (fds : List ℤ) (w : World)
    → Holds (sock ∷ fds) w
    → Ends (λ _ w'. Holds (sock ∷ fds) w') (bind_listen sock address backlog w)
unfolding bind_listen works_on after
bind_listen-Ends sock address backlog fds w h =
    Ends-bind (front-Ends (bind sock address) sock fds w refl (λ r. refl) h) λ r w₁ h₁.
      Ends-bind (check-Ends (is_not_error r.ret) _ w₁ h₁) λ u w₂ (e, _).
        Ends-bind (front-Ends (listen sock backlog) sock fds w₂ refl (λ r. refl) (rw e h₁))
          λ r' w₃ h₃. Ends-mono (check-Ends (is_not_error r'.ret) _ w₃ h₃) λ u' w₄ (e', _). rw e' h₃

pub listener-Ends :
    (libc : Libc) (argv : List (List ℕ)) (backlog : ℤ) (w : World)
    → 2 < length argv
    → Holds standard w
    → Ends (λ s w'. Holds (s ∷ standard) w') (listener libc argv backlog w)
unfolding listener
listener-Ends libc argv backlog w b h = Ends-bind (address_of-Ends libc argv w b) λ address w₁ e.
    Ends-bind (new_socket-Ends standard w₁ (rw e h)) λ sock w₂ h₂.
      Ends-bind (bind_listen-Ends sock address backlog standard w₂ h₂) λ u w₃ h₃. ends_done h₃

-- A branch that closes the connection leaves the program without a descriptor of its own.
pub serve_one-Ends :
    (sock : ℤ) (branch : ℤ → Prog (Unit {0})) (fds : List ℤ) (w : World)
    → Holds (sock ∷ fds) w
    → ((conn : ℤ) (w : World)
        → Holds (conn ∷ sock ∷ fds) w
        → Ends (λ _ w'. Holds (sock ∷ fds) w') (branch conn w))
    → Ends (λ code w'. (code ≡ 0) × Holds fds w') (serve_one sock branch w)
unfolding serve_one works_on after
serve_one-Ends sock branch fds w h served =
    Ends-bind (call-Ends (accept sock) (sock ∷ fds) w h (rw (===_self sock) refl)) λ conn w₁ s.
      Ends-bind {P = λ _ w'. Holds (sock ∷ fds) w'}
        (elim (Bool-cases (is_negative conn.ret)) [
          | inl e ↦ rw e (
              ends_done
                (subst (λ (xs : List ℤ). Holds xs w₁) (opened_negative conn.ret _ e) s.holds))
          | inr e ↦ rw e (
              served conn.ret w₁
                (subst (λ (xs : List ℤ). Holds xs w₁) (opened_nonnegative conn.ret _ e) s.holds))
        ])
        λ u w₂ h₂. Ends-bind (close-Ends sock fds w₂ h₂) λ r w₃ h₃. ends_done (refl, h₃)

receive_loop-Ends :
    (k : ℕ) (fd : ℤ) (size : ℕ) (fds : List ℤ) (w : World)
    → Holds (fd ∷ fds) w
    → length w.replies < k
    → Ends (λ _ w'. Holds (fd ∷ fds) w') (receive_loop k fd size w)
unfolding receive_loop works_on after
receive_loop-Ends zero fd size fds w h fuel = absurd (omega arith)
receive_loop-Ends (suc k) fd size fds w h fuel =
    Ends-bind (call-Ends (recv fd size false) (fd ∷ fds) w h (rw (===_self fd) refl)) λ r w₁ s.
      elim (Bool-cases (is_positive r.ret)) [
        | inl e ↦
            let less = s.fewer in rw e (receive_loop-Ends k fd size fds w₁ s.holds (omega arith))
        | inr e ↦ rw e (ends_done s.holds)
      ]

pub receive_all-Ends :
    (fd : ℤ) (size : ℕ) (fds : List ℤ) (w : World)
    → Holds (fd ∷ fds) w
    → Ends (λ _ w'. Holds (fd ∷ fds) w') (receive_all fd size w)
unfolding receive_all
receive_all-Ends fd size fds w h = receive_loop-Ends _ fd size fds w h (omega arith)
