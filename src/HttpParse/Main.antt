-- ===== src/HttpParse/Main.antt =====
-- `main` of src/http_parse.cc as a program over the system's replies.
use high_performance_linux_s.Base.{
  ℕ, zero, suc, ◌-◌, ◌<◌, refl, inl, inr, false, List, ◌∷◌, ℤ, pos, leb, if◌then◌else◌, length,
  take, arith, Bool-cases, Option, none, some,
}
use high_performance_linux_s.SystemCalls.{
  Libc, recv, send, close, Reply, World, out_of_fuel, Prog, pure, ◌>>=◌, ◌>>◌, call, undefined,
  is_not_error,
}
use high_performance_linux_s.SystemCalls.Descriptors.{
  Holds, Ends, ends_done, Ends-bind, Ends-mono, call-Ends, close-Ends, ===_self, works_on, after,
  standard, start, start-Holds,
}
use high_performance_linux_s.Base.Partial.{Defined, defined}
use high_performance_linux_s.Servers.{listener, serve_one}
use high_performance_linux_s.Servers.Clean.{EndsClean, usage}
use high_performance_linux_s.Base.{length-take}
use high_performance_linux_s.Servers.Rules.{front-Ends, listener-Ends, serve_one-Ends}
use high_performance_linux_s.HttpParse.{Conn, buffer_size}
use high_performance_linux_s.HttpParse.Server.{
  receive, IsReady, receive-IsReady, accepted_conn-IsReady, accepted_conn,
}

-- After `parse_content`: another round, or the answer.
respond :
    (Conn → Prog (Unit {0})) → (client_fd : ℤ) → Option (Conn × Option (List ℕ)) → Prog (Unit {0})
respond again client_fd none = undefined
respond again client_fd (some (c, none)) = again c
respond again client_fd (some (c, some text)) = do call (send client_fd text false); pure tt

-- The loop, with `k` rounds at most. A reply of `recv` is -1, or stands for its bytes: the first ones,
-- as many as were asked for, are stored, and their number is what `recv` returns.
unfoldable pub http_loop : ℕ → (client_fd : ℤ) → Conn → Prog (Unit {0})
unfolding respond
http_loop zero client_fd c w = out_of_fuel
http_loop (suc k) client_fd c w =
    (do
      let size : ℕ = buffer_size - c.read_index
      r ← call (recv client_fd size false)
      if is_not_error r.ret
          then respond (http_loop k client_fd) client_fd (receive c (take size r.bytes))
          else pure tt)
      w

-- The branch for a connection.
unfoldable pub http_client : (client_fd : ℤ) → Prog (Unit {0})
http_client client_fd = do
  (λ w. http_loop (suc (length w.replies)) client_fd accepted_conn w)
  call (close client_fd)
  pure tt

-- `main`
unfoldable pub http_main : Libc → List (List ℕ) → Prog ℕ
http_main libc argv =
    if leb (length argv) 2
    then pure 1
    else (do listen_fd ← listener libc argv (pos 5); serve_one listen_fd http_client)

module _ (fd : ℤ) (fds : List ℤ) where
  respond-Ends :
      (again : Conn → Prog (Unit {0})) {m : Option (Conn × Option (List ℕ))} (w : World)
      → Holds (fd ∷ fds) w
      → Defined (λ r. IsReady r.0) m
      → ((c : Conn) → IsReady c → Ends (λ _ w'. Holds (fd ∷ fds) w') (again c w))
      → Ends (λ _ w'. Holds (fd ∷ fds) w') (respond again fd m w)
  unfolding respond works_on after
  respond-Ends again w h (defined {a = (c, none)} i) next = next c i
  respond-Ends again w h (defined {a = (c, some text)} i) next =
      Ends-bind (front-Ends (send fd text false) fd fds w refl (λ r. refl) h)
        λ r w₁ h₁. ends_done h₁

  http_loop-Ends :
      (k : ℕ) (c : Conn) (w : World)
      → IsReady c
      → Holds (fd ∷ fds) w
      → length w.replies < k
      → Ends (λ _ w'. Holds (fd ∷ fds) w') (http_loop k fd c w)
  unfolding http_loop works_on after
  http_loop-Ends zero c w i h fuel = absurd (omega arith)
  http_loop-Ends (suc k) c w i h fuel =
      Ends-bind
        (call-Ends (recv fd (buffer_size - c.read_index) false) (fd ∷ fds) w h
          (rw (===_self fd) refl))
        λ r w₁ s. elim (Bool-cases (is_not_error r.ret)) [
          | inl e ↦
              let short = length-take (buffer_size - c.read_index) r.bytes in
              let fewer = s.fewer in
              let read = i.read in
              rw e (
                respond-Ends (http_loop k fd) w₁ s.holds (receive-IsReady c _ i (omega arith))
                  λ c' i'. http_loop-Ends k c' w₁ i' s.holds (omega arith))
          | inr e ↦ rw e (ends_done s.holds)
        ]

http_client-Ends :
    (conn fd : ℤ) (w : World)
    → Holds (conn ∷ fd ∷ standard) w
    → Ends (λ _ w'. Holds (fd ∷ standard) w') (http_client conn w)
unfolding http_client
http_client-Ends conn fd w h =
    Ends-bind
      (http_loop-Ends conn (fd ∷ standard) _ accepted_conn w accepted_conn-IsReady h (omega arith))
      λ u w₁ h₁. Ends-bind (close-Ends conn (fd ∷ standard) w₁ h₁) λ r w₂ h₂. ends_done h₂

-- For every argument list and all replies of the system, `main` is never undefined behaviour, and
-- every round of its loop asks for a reply: it ends with all descriptors closed that it opened, in a
-- failed `assert`, or in a call that does not return; and it calls on open descriptors only.
pub http_main-EndsClean :
    (libc : Libc) (argv : List (List ℕ)) (replies : List Reply)
    → EndsClean (http_main libc argv (start replies))
unfolding http_main
http_main-EndsClean libc argv replies =
    let h = start-Holds replies in
    usage 2 argv (start replies) _ h λ more.
      Ends-bind (listener-Ends libc argv (pos 5) (start replies) more h) λ sock w₁ h₁.
        Ends-mono
          (serve_one-Ends sock http_client standard w₁ h₁
            λ conn w₂ h₂. http_client-Ends conn sock w₂ h₂)
          λ code w₂ (e, h₂). h₂
