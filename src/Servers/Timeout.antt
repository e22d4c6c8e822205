-- ===== src/Servers/Timeout.antt =====
-- `timeout_connect` and its socket.
use high_performance_linux_s.Base.{◌≡◌, refl, ◌⊎◌, inl, inr, List, ◌∷◌, ℤ, negsuc, Bool-cases}
use high_performance_linux_s.SystemCalls.{Address, connect, setsockopt, Reply, is_not_error}
use high_performance_linux_s.SystemCalls.Descriptors.{
  Holds, Ends, ends_done, Ends-bind, check-Ends, works_on, after, standard, start, start-Holds,
}
use high_performance_linux_s.Servers.Rules.{new_socket-Ends, front-Ends}
use high_performance_linux_s.Servers.Files.{timeout_connect}

-- `timeout_connect` ends, calling on its own socket only, and leaves that socket open whether it
-- returns it or returns -1.
pub timeout_connect-leaks :
    (address : Address) (time : ℤ) (replies : List Reply)
    → Ends
        (λ s w. (sock : ℤ) × Holds (sock ∷ standard) w × ((s ≡ sock) ⊎ (s ≡ negsuc 0)))
        (timeout_connect address time (start replies))
unfolding timeout_connect works_on after
timeout_connect-leaks address time replies =
    Ends-bind (new_socket-Ends standard (start replies) (start-Holds replies)) λ sock w₁ h₁.
      Ends-bind (front-Ends (setsockopt sock time) sock standard w₁ refl (λ r. refl) h₁) λ r w₂ h₂.
        Ends-bind (check-Ends (is_not_error r.ret) _ w₂ h₂) λ u w₃ (e₃, _).
          Ends-bind (front-Ends (connect sock address) sock standard w₃ refl (λ r. refl) (rw e₃ h₂))
            λ r' w₄ h₄. elim (Bool-cases (is_not_error r'.ret)) [
              | inl e ↦ rw e (ends_done (sock, h₄, inl refl))
              | inr e ↦ rw e (ends_done (sock, h₄, inr refl))
            ]
