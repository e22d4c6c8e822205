-- ===== src/Servers/Select/Run.antt =====
-- How a run of select.cc ends.
use mathlib.Core.Path.{subst}
use high_performance_linux_s.Base.{
  ℕ, zero, suc, ◌<◌, ◌≤◌, ◌≡◌, refl, ◌∙◌, ap, inl, inr, Bool, true, false, List, [], ◌∷◌, ℤ, pos,
  negsuc, leb, ltb, ltb→lt, Option, none, some, if◌then◌else◌, length, arith, Bool-cases,
}
use high_performance_linux_s.SystemCalls.{
  Libc, Call, accept, close, select, Reply, World, pure, ◌>>=◌, call, is_negative, is_nonpositive,
}
use high_performance_linux_s.SystemCalls.Descriptors.{
  Holds, Ends, ends_done, Ends-bind, Ends-mono, call-Ends, ===_self, remove, works_on, after,
  opened_nonnegative, opened_negative, standard, start, start-Holds, EndsOr, or_done, or_fault,
  EndsOr-bind, Ends-EndsOr,
}
use high_performance_linux_s.Servers.Rules.{listener-Ends, receive_into-Ends}
use high_performance_linux_s.Servers.{receive_into}
use high_performance_linux_s.Servers.Select.{fd_setsize, fits_set, select_loop, watch, select_main}

-- What the latest `accept` returned.
unfoldable pub accept_reply : List (Call × Reply) → Option ℤ
accept_reply [] = none
accept_reply ((accept _, r) ∷ calls) = some r.ret
accept_reply (_ ∷ calls) = accept_reply calls

-- The descriptors that are held, and the result of `accept`.
Stays : (fds : List ℤ) → (a : ℤ) → World → Type 0
Stays fds a w = Holds fds w × (accept_reply w.calls ≡ some a)

closing :
    (fd a : ℤ) (fds : List ℤ) (w : World)
    → Stays (fd ∷ fds) a w
    → Ends (λ r w'. Stays fds a w') (call (close fd) w)
unfolding Stays accept_reply works_on after
closing fd a fds w (h, e) =
    Ends-mono (call-Ends (close fd) (fd ∷ fds) w h (rw (===_self fd) refl)) λ r w' s.
      let left : remove fd (fd ∷ fds) ≡ fds = rw (===_self fd) refl in
      (subst (λ (xs : List ℤ). Holds xs w') left s.holds, ap accept_reply s.made ∙ e)

select_loop-Ends :
    (k : ℕ) (fd a : ℤ) (fds : List ℤ) (w : World)
    → Stays (fd ∷ fds) a w
    → length w.replies < k
    → Ends (λ _ w'. Stays (fd ∷ fds) a w') (select_loop k fd w)
unfolding select_loop Stays accept_reply works_on after
select_loop-Ends zero fd a fds w h fuel = absurd (omega arith)
select_loop-Ends (suc k) fd a fds w (h, at) fuel =
    let receive : (oob : Bool) (w₁ : World)
        → Stays (fd ∷ fds) a w₁
        → length w₁.replies < k
        → Ends (λ _ w'. Stays (fd ∷ fds) a w')
            ((do
              r ← receive_into 1024 fd 1023 oob
              if is_nonpositive r.ret then pure tt else select_loop k fd)
              w₁) =
      λ oob w₁ (h₁, at₁) fuel₁.
        Ends-bind (receive_into-Ends 1024 fd 1023 oob fds w₁ (omega arith) h₁) λ r w₂ s.
          let at₂ : accept_reply w₂.calls ≡ some a = ap accept_reply s.made ∙ at₁ in
          elim (Bool-cases (is_nonpositive r.ret)) [
            | inl e ↦ rw e (ends_done (s.holds, at₂))
            | inr e ↦
                let less = s.fewer in
                rw e (select_loop-Ends k fd a fds w₂ (s.holds, at₂) (omega arith))
          ] in
    Ends-bind (call-Ends (select fd) (fd ∷ fds) w h (rw (===_self fd) refl)) λ ready w₁ s.
      let less = s.fewer in
      let at₁ : accept_reply w₁.calls ≡ some a = ap accept_reply s.made ∙ at in
      let stays : Stays (fd ∷ fds) a w₁ = (s.holds, at₁) in
      elim (Bool-cases (is_negative ready.ret)) [
        | inl a ↦ rw a (ends_done stays)
        | inr a ↦ elim (Bool-cases ready.flag) [
          | inl b ↦ rw (a, b) (receive false w₁ stays (omega arith))
          | inr b ↦ elim (Bool-cases ready.urgent) [
            | inl c ↦ rw (a, b, c) (receive true w₁ stays (omega arith))
            | inr c ↦ rw (a, b, c) (select_loop-Ends k fd _ fds w₁ stays (omega arith))
          ]
        ]
      ]

-- Where the run is undefined behaviour: behind a failed `accept` and the `close` of the listening
-- socket, with nothing of its own open; or behind an `accept` of a descriptor that no `fd_set` holds.
pub data HasGivenUp (w : World) : Type 0 where
  failed : (n : ℕ) → accept_reply w.calls ≡ some (negsuc n) → Holds standard w → HasGivenUp w
  too_large :
      (n : ℕ) (listen_fd : ℤ)
      → accept_reply w.calls ≡ some (pos n)
      → fd_setsize ≤ n
      → Holds (pos n ∷ listen_fd ∷ standard) w
      → HasGivenUp w

-- How a run ends by itself: for want of arguments, before any call, or behind the connection that was
-- accepted, whose descriptor an `fd_set` holds.
pub data HasServed (argv : List (List ℕ)) (w : World) : Type 0 where
  usage : length argv ≤ 2 → w.calls ≡ [] → HasServed argv w
  served :
      (n : ℕ)
      → 2 < length argv
      → accept_reply w.calls ≡ some (pos n)
      → n < fd_setsize
      → Holds standard w
      → HasServed argv w

watch-EndsOr :
    (argv : List (List ℕ)) (listen_fd fd : ℤ) (w : World)
    → 2 < length argv
    → is_negative fd ≡ false
    → Stays (fd ∷ listen_fd ∷ standard) fd w
    → EndsOr HasGivenUp (λ _ w'. HasServed argv w') (watch listen_fd fd w)
unfolding watch Stays fits_set
watch-EndsOr argv listen_fd (negsuc n) w more e stays = cc
watch-EndsOr argv listen_fd (pos n) w more e stays = elim (Bool-cases (ltb n fd_setsize)) [
  | inl lt ↦ rw lt (
      Ends-EndsOr (
        Ends-bind
          (select_loop-Ends (suc (length w.replies)) (pos n) (pos n) (listen_fd ∷ standard) w stays
            (omega arith))
          λ u w₁ h₁. Ends-bind (closing (pos n) (pos n) (listen_fd ∷ standard) w₁ h₁) λ r w₂ h₂.
            Ends-bind (closing listen_fd (pos n) standard w₂ h₂)
              λ r w₃ (h₃, at). ends_done (served n more at (ltb→lt _ _ lt) h₃)))
  | inr ge ↦ rw ge (or_fault (too_large n listen_fd stays.1 (ground arith) stays.0))
]

give_up-EndsOr :
    (argv : List (List ℕ)) (listen_fd fd : ℤ) (w : World)
    → is_negative fd ≡ true
    → Stays standard fd w
    → EndsOr HasGivenUp (λ _ w'. HasServed argv w') (watch listen_fd fd w)
unfolding watch Stays fits_set
give_up-EndsOr argv listen_fd (pos n) w e stays = cc
give_up-EndsOr argv listen_fd (negsuc n) w e stays = or_fault (failed n stays.1 stays.0)

-- `select_main`, with any arguments and whatever the system replies, ends by itself, in a failed
-- assert or in a call that does not return; it calls on open descriptors only. It ends by itself where
-- the arguments are too few, or it has served a connection, with a number below FD_SETSIZE, and closed its
-- descriptors. It is undefined behaviour only behind an `accept` that failed, when it has closed the
-- listening socket, or whose descriptor is not below FD_SETSIZE.
pub select_main-EndsOr :
    (libc : Libc) (argv : List (List ℕ)) (replies : List Reply)
    → EndsOr HasGivenUp (λ _ w. HasServed argv w) (select_main libc argv (start replies))
unfolding select_main Stays accept_reply works_on after
select_main-EndsOr libc argv replies = elim (Bool-cases (leb (length argv) 2)) [
  | inl e ↦ rw e (or_done (usage (ground arith) refl))
  | inr e ↦ rw e (
      EndsOr-bind
        (listener-Ends libc argv (pos 5) (start replies) (ground arith) (start-Holds replies))
        λ sock w₁ h₁.
          EndsOr-bind (call-Ends (accept sock) (sock ∷ standard) w₁ h₁ (rw (===_self sock) refl))
            λ r w₂ s.
              let at : accept_reply w₂.calls ≡ some r.ret = ap accept_reply s.made in
              elim (Bool-cases (is_negative r.ret)) [
                | inr n ↦ rw n (
                    watch-EndsOr argv sock r.ret w₂ (ground arith) n (
                      subst (λ (xs : List ℤ). Holds xs w₂) (opened_nonnegative r.ret _ n) s.holds,
                      at,
                    ))
                | inl n ↦
                    let held =
                      subst (λ (xs : List ℤ). Holds xs w₂) (opened_negative r.ret _ n) s.holds in
                    rw n (
                      EndsOr-bind {P = λ _ w₃. Stays standard r.ret w₃}
                        (Ends-bind (closing sock r.ret standard w₂ (held, at))
                          λ c w₃ t. ends_done t)
                        λ u w₃ t. give_up-EndsOr argv sock r.ret w₃ n t)
              ])
]
