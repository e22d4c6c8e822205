-- ===== src/Servers/Daytime.antt =====
-- src/get_server_by_name.cc.
use mathlib.Core.Path.{subst}
use high_performance_linux_s.Base.{
  ℕ, ◌<◌, ◌≤◌, ◌≡◌, refl, ◌∙◌, ap, inl, inr, true, List, [], ◌∷◌, ℤ, ◌==◌, ltb, if◌then◌else◌,
  length, arith, Bool-cases,
}
use high_performance_linux_s.SystemCalls.{
  Address, Call, socket, connect, read, close, gethostbyname, getservbyname, Reply, World, Prog,
  pure, ◌>>=◌, ◌>>◌, call, undefined, check, is_nonnegative, is_positive, is_not_error, argument,
  to_nat,
}
use high_performance_linux_s.SystemCalls.Descriptors.{
  Holds, call-Ends, check-Ends, argument-Ends, ===_self, remove, works_on, after, replay,
  opened_nonnegative, nonnegative, standard, start, start-Holds, EndsOr, or_done, or_fault,
  EndsOr-bind,
}
use high_performance_linux_s.Servers.Rules.{front-Ends}

-- src/get_server_by_name.cc from `connect` on. The last byte of `buffer`, which has 128, is at 127.
query : ℤ → Address → Prog ℕ
query fd address = do
  ret ← call (connect fd address)
  check (is_not_error ret.ret)
  n ← call (read fd 128)
  check (is_positive n.ret)
  if ltb (to_nat n.ret) 128 then pure tt else undefined
  call (close fd)
  pure 0

-- `main` of src/get_server_by_name.cc
pub get_server_by_name : List (List ℕ) → Prog ℕ
unfolding query
get_server_by_name argv = do
  check (length argv == 2)
  host ← argument argv 1
  host_info ← call (gethostbyname host)
  check host_info.flag
  serv_info ← call getservbyname
  check serv_info.flag
  sock ← call socket
  query sock.ret (record { ip = host_info.value; port = serv_info.value })

-- The buffer was filled: the terminator is written behind it.
pub record HasFilled (w : World) : Type 0 where
  fd : ℤ
  reply : Reply
  earlier : List (Call × Reply)
  last : w.calls ≡ (read fd 128, reply) ∷ earlier
  full : 128 ≤ to_nat reply.ret

-- A program that had room for the terminator, and has closed its descriptors.
pub record HasRoom (code : ℕ) (w : World) : Type 0 where
  success : code ≡ 0
  closed : Holds standard w
  fd : ℤ
  reply : Reply
  closing : Reply
  earlier : List (Call × Reply)
  last : w.calls ≡ (close fd, closing) ∷ (read fd 128, reply) ∷ earlier
  room : to_nat reply.ret < 128

closed : (fd : ℤ) (w : World) → Holds (remove fd (fd ∷ standard)) w → Holds standard w
closed fd w h = subst (λ (xs : List ℤ). Holds xs w) (rw (===_self fd) refl) h

query-EndsOr :
    (fd : ℤ) (address : Address) (w : World)
    → Holds (fd ∷ standard) w
    → EndsOr HasFilled HasRoom (query fd address w)
unfolding query works_on after
query-EndsOr fd address w h =
    EndsOr-bind (front-Ends (connect fd address) fd standard w refl (λ r. refl) h) λ ret w₁ h₁.
      EndsOr-bind (check-Ends (is_not_error ret.ret) _ w₁ h₁) λ u w₂ (e, _).
        EndsOr-bind (call-Ends (read fd 128) (fd ∷ standard) w₂ (rw e h₁) (rw (===_self fd) refl))
          λ n w₃ s. EndsOr-bind (check-Ends (is_positive n.ret) _ w₃ s.holds) λ u' w₄ (e', _).
            elim (Bool-cases (ltb (to_nat n.ret) 128)) [
              | inl lt ↦ rw lt (
                  EndsOr-bind
                    (call-Ends (close fd) (fd ∷ standard) w₄ (rw e' s.holds)
                      (rw (===_self fd) refl))
                    λ c w₅ t. or_done (record {
                      success = refl;
                      closed = closed fd w₅ t.holds;
                      fd = fd;
                      reply = n;
                      closing = c;
                      earlier = w₂.calls;
                      last = t.made ∙ ap (λ x. (close fd, c) ∷ x) (ap World.calls e' ∙ s.made);
                      room = ground arith;
                    }))
              | inr ge ↦ rw ge (
                  or_fault (record {
                    fd = fd;
                    reply = n;
                    earlier = w₂.calls;
                    last = ap World.calls e' ∙ s.made;
                    full = ground arith;
                  }))
            ]

-- Where `socket` succeeds, the program writes the terminator inside its buffer and ends with all
-- descriptors closed that it opened, or it ends in a failed `assert` or in a call that does not
-- return; or it is undefined behaviour, and then behind a `read` that filled the buffer.
pub get_server_by_name-EndsOr :
    (argv : List (List ℕ)) (host service sock : Reply) (replies : List Reply)
    → is_nonnegative sock.ret ≡ true
    → EndsOr HasFilled HasRoom (get_server_by_name argv (start (host ∷ service ∷ sock ∷ replies)))
unfolding get_server_by_name call replay after works_on
get_server_by_name-EndsOr argv host service sock replies ok =
    let h = start-Holds (host ∷ service ∷ sock ∷ replies) in
    EndsOr-bind (check-Ends (length argv == 2) standard _ h) λ u w₁ (e₁, two). rw e₁ (
      EndsOr-bind (argument-Ends argv 1 _ (ground arith)) λ name w₂ e₂. rw e₂ (
        EndsOr-bind (check-Ends host.flag standard _ (record { held = refl; fine = refl }))
          λ u' w₃ (e₃, _). rw e₃ (
            EndsOr-bind (check-Ends service.flag standard _ (record { held = refl; fine = refl }))
              λ u'' w₄ (e₄, _). rw e₄ (
                query-EndsOr sock.ret (record { ip = host.value; port = service.value })
                  (record {
                    replies = replies;
                    calls =
                        (socket, sock) ∷ (getservbyname, service) ∷ (gethostbyname name, host) ∷ [];
                  })
                  (record {
                    held = opened_nonnegative sock.ret standard (nonnegative sock.ret ok);
                    fine = refl;
                  })))))
