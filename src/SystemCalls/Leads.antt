-- ===== src/SystemCalls/Leads.antt =====
-- Rules for runs of which every call is looked at.
use high_performance_linux_s.Base.{◌≡◌, refl, List, [], ◌∷◌}
use high_performance_linux_s.SystemCalls.{
  Call, Reply, World, Out, done, waiting, fault, Prog, and_then, call,
}

-- A run that ends, waits in a call, or is undefined behaviour where `F` holds.
pub data Leads {A : Type 0} (F : World → Type 0) (Q : A → World → Type 0) : Out A → Type 0 where
  leads_done : {a : A} {w : World} → Q a w → Leads F Q (done a w)
  leads_waiting : {w : World} → Leads F Q (waiting w)
  leads_fault : {w : World} → F w → Leads F Q (fault w)

module _ {F : World → Type 0} where
  pub Leads-bind :
      {A B : Type 0} {P : A → World → Type 0} {Q : B → World → Type 0} {m : Out A} {k : A → Prog B}
      → Leads F P m
      → ((a : A) (w : World) → P a w → Leads F Q (k a w))
      → Leads F Q (and_then m k)
  Leads-bind (leads_done p) k = k _ _ p
  Leads-bind leads_waiting k = leads_waiting
  Leads-bind (leads_fault f) k = leads_fault f

  pub call-Leads : (c : Call) (w : World) → Leads F (λ r w'. w'.calls ≡ (c, r) ∷ w.calls) (call c w)
  unfolding call
  call-Leads c w = by_replies w.replies
    where
      by_replies :
          (rs : List Reply)
          → Leads F
              (λ r w'. w'.calls ≡ (c, r) ∷ w.calls)
              (call c (record { replies = rs; calls = w.calls }))
      by_replies [] = leads_waiting
      by_replies (r ∷ rs) = leads_done refl
