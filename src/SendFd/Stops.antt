-- ===== src/SendFd/Stops.antt =====
-- No run of src/send_fd.cc gets to its end.
use high_performance_linux_s.Base.{
  ◌+◌, ◌≤◌, ◌≡◌, refl, ◌∙◌, ap, inl, inr, false, List, [], ◌∷◌, ℤ, leb, arith, Bool-cases,
}
use high_performance_linux_s.SystemCalls.{
  Call, open_file, socketpair, fork, recvmsg, Reply, World, fault, call, is_nonnegative,
  is_positive, is_not_error,
}
use high_performance_linux_s.SystemCalls.Descriptors.{
  Holds, call-Ends, use-Ends, close-Ends, check-Ends, is_held, works_on, after, replay, standard,
  start, EndsOr, or_fault, EndsOr-bind, EndsOr-then, call-made,
}
use high_performance_linux_s.SendFd.{
  Layout, size_of_int, access_data, send_fd, recv_fd, file_name, child, parent, send_fd_main,
}

-- Where a run stops: in the child behind `open`, or in the parent behind a `recvmsg` on the
-- descriptor that it has closed, its only call on one that is not open.
pub data HasStopped (pair : ℤ × ℤ) (w : World) : Type 0 where
  in_child :
      (r : Reply) (earlier : List (Call × Reply))
      → w.calls ≡ (open_file file_name, r) ∷ earlier
      → (replay w.calls).bad ≡ 0
      → HasStopped pair w
  in_parent :
      (r : Reply) (earlier : List (Call × Reply))
      → w.calls ≡ (recvmsg pair.0, r) ∷ earlier
      → (replay w.calls).bad ≡ 1
      → HasStopped pair w

access_data-fault :
    (layout : Layout) (w : World) → layout.size ≤ layout.data_at → access_data layout w ≡ fault w
unfolding access_data
access_data-fault layout w le =
    let e : leb (layout.data_at + size_of_int) layout.size ≡ false = ground arith in rw e refl

module _ (layout : Layout) (behind : layout.size ≤ layout.data_at) (pair : ℤ × ℤ) where
  child-EndsOr :
      (w : World)
      → Holds (pair.0 ∷ pair.1 ∷ standard) w
      → EndsOr (HasStopped pair) (λ _ _. ⊥) (child layout pair w)
  unfolding child send_fd works_on after
  child-EndsOr w h = EndsOr-bind (close-Ends pair.0 _ w h) λ r w₁ h₁.
      EndsOr-bind (call-Ends (open_file file_name) _ w₁ h₁ refl) λ file w₂ s.
        rw (access_data-fault layout w₂ behind)
          (or_fault (in_child file w₁.calls s.made s.holds.fine))

  -- The descriptor that was closed is not among the others.
  module _ (gone : is_held pair.0 (pair.1 ∷ standard) ≡ false) where
    one_bad :
        (r : Reply) (w : World)
        → Holds (pair.1 ∷ standard) w
        → (replay ((recvmsg pair.0, r) ∷ w.calls)).bad ≡ 1
    unfolding replay works_on
    one_bad r w h = rw (h.held, h.fine) (rw gone refl)

    recv_fd-EndsOr :
        (w : World)
        → Holds (pair.1 ∷ standard) w
        → EndsOr (HasStopped pair) (λ (_ : ℤ) _. ⊥) (recv_fd layout pair.0 w)
    unfolding recv_fd works_on
    recv_fd-EndsOr w h = EndsOr-bind (call-made (recvmsg pair.0) w h.fine) λ r w₁ made.
        let bad_is : (replay w₁.calls).bad ≡ 1 =
          ap (λ (cs : List (Call × Reply)). (replay cs).bad) made ∙ one_bad r w h in
        rw (access_data-fault layout w₁ behind) (or_fault (in_parent r w.calls made bad_is))

    parent-EndsOr :
        (w : World)
        → Holds (pair.0 ∷ pair.1 ∷ standard) w
        → EndsOr (HasStopped pair) (λ _ _. ⊥) (parent layout pair w)
    unfolding parent
    parent-EndsOr w h =
        EndsOr-bind (close-Ends pair.0 _ w h)
          λ r w₁ h₁. EndsOr-then (recv_fd-EndsOr w₁ h₁) λ fd w₂ none_such. absurd none_such

-- Where the data of a control message stand behind its header, and the two sockets of the pair are
-- new descriptors: no run of the program ends by itself. It ends in a failed `assert`, waits in a
-- call, or is undefined behaviour: in the child behind `open`, before anything is sent, or in the
-- parent behind a `recvmsg` on a descriptor that it has closed.
pub send_fd_main-HasStopped :
    (layout : Layout) (pair : Reply) (replies : List Reply)
    → layout.size ≤ layout.data_at
    → is_held pair.ends.0 (pair.ends.1 ∷ standard) ≡ false
    → EndsOr (HasStopped pair.ends) (λ _ _. ⊥) (send_fd_main layout (start (pair ∷ replies)))
unfolding send_fd_main call replay works_on after
send_fd_main-HasStopped layout pair replies behind gone =
    let both : List ℤ = pair.ends.0 ∷ pair.ends.1 ∷ standard in
    let w₀ : World = record { replies = replies; calls = (socketpair, pair) ∷ [] } in
    let h₀ : Holds (after socketpair pair standard) w₀ = record { held = refl; fine = refl } in
    EndsOr-bind (check-Ends (is_not_error pair.ret) _ w₀ h₀) λ u w₁ (e₁, opened_both).
      let h₁ : Holds both w₁ = rw e₁ (rw opened_both at h₀) in
      EndsOr-bind (use-Ends fork both w₁ h₁ refl (λ r. refl)) λ pid w₂ h₂.
        EndsOr-bind (check-Ends (is_nonnegative pid.ret) both w₂ h₂) λ u' w₃ (e₃, _).
          let h₃ : Holds both w₃ = rw e₃ h₂ in
          elim (Bool-cases (is_positive pid.ret)) [
            | inl yes_ ↦ rw yes_ (parent-EndsOr layout behind pair.ends gone w₃ h₃)
            | inr no_ ↦ rw no_ (child-EndsOr layout behind pair.ends w₃ h₃)
          ]
