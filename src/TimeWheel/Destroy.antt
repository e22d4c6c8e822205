-- ===== src/TimeWheel/Destroy.antt =====
-- The destructor `~time_wheel`.
use mathlib.Core.Path.{subst}
use high_performance_linux_s.Base.{
  ℕ, zero, suc, ◌+◌, ◌<◌, ◌≤◌, ◌≡◌, refl, ◌∙◌, ◌≢◌, true, false, none, [], ◌∷◌, arith, ◌==◌, length,
  Bool-cases, inl, inr, ne→==, lt→ltb, or_false_left, or_false_right, ==→eq, ==→ne,
}
use high_performance_linux_s.Nodes.{Ptr, null, Store, write}
use high_performance_linux_s.Nodes.Returns.{Returns, returns, Returns-mono, Returns-bind}
use high_performance_linux_s.Nodes.Links.{
  has, first, Links, Links-frame, SameOutside, Links-write, load-ok, free-ok, write_self,
  write_other, freed-cons,
}
use high_performance_linux_s.TimeWheel.{
  TwTimer, TwCells, TimeWheel, slot_count, slot, destroy_slot, destroy_slots, destroy, IsWheel,
}

record Emptied (h : Store TwTimer) (xs : TwCells) (g : Store TwTimer) : Type 0 where
  freed : (a : Ptr) → has a xs ≡ true → g a ≡ none
  same : SameOutside xs h g

destroy_slot_lem :
    (k : ℕ) (h : Store TwTimer) (pv : Ptr) (xs : TwCells)
    → Links h pv xs null
    → length xs < k
    → Returns (λ _ g. Emptied h xs g) (destroy_slot k (first xs null) h)
unfolding destroy_slot
destroy_slot_lem zero h pv xs ls fuel = absurd (omega arith)
destroy_slot_lem (suc k) h pv [] ls fuel =
    returns (record { freed = λ a i. cc; same = λ a o. refl })
destroy_slot_lem (suc k) h pv ((p, v) ∷ xs) ls fuel =
    rw (ne→== p null ls.1, load-ok h p _ ls.1 ls.0)
      (rw (free-ok h p _ ls.1 ls.0) (
        Returns-mono
          (destroy_slot_lem k (write h p none) p xs (Links-write h p xs null p none ls.2 ls.3)
            (omega arith))
          λ _ g s. record {
            freed = freed-cons g p v xs (s.same p ls.2 ∙ write_self h p none) s.freed;
            same = λ a o.
                s.same a (or_false_right _ _ o) ∙ write_other h p none a (or_false_left _ _ o);
          }))

-- The wheel's nodes are freed, and nothing else is touched.
pub record AllEmptied (h : Store TwTimer) (f : ℕ → TwCells) (i : ℕ) (g : Store TwTimer)
    : Type 0 where
  pub freed : (j : ℕ) → i ≤ j → j < slot_count → (a : Ptr) → has a (f j) ≡ true → g a ≡ none
  pub same : (a : Ptr) → ((j : ℕ) → i ≤ j → j < slot_count → has a (f j) ≡ false) → g a ≡ h a

module _ (k : ℕ) (w : TimeWheel) (f : ℕ → TwCells)
    (heads : (i : ℕ) → i < slot_count → w.slots i ≡ first (f i) null)
    (apart : (i j : ℕ)
      → i < slot_count
      → j < slot_count
      → i ≢ j
      → (a : Ptr) → has a (f i) ≡ true
      → has a (f j) ≡ false)
    (fuel : (i : ℕ) → i < slot_count → length (f i) < k) where
  destroy_slots_lem :
      (n i : ℕ) (h : Store TwTimer)
      → i + n ≡ slot_count
      → ((j : ℕ) → i ≤ j → j < slot_count → Links h null (f j) null)
      → Returns (λ _ g. AllEmptied h f i g) (destroy_slots k n i w h)
  unfolding destroy_slots slot
  destroy_slots_lem zero i h e ls =
      returns (record { freed = λ j l b. absurd (omega arith); same = λ a o. refl })
  destroy_slots_lem (suc n) i h e ls =
      let bound : i < slot_count = omega arith in
      rw (lt→ltb _ _ bound) (
        rw (heads i bound) (
          Returns-bind (destroy_slot_lem k h null (f i) (ls i (omega arith) bound) (fuel i bound))
            λ _ g s.
              Returns-mono
                (destroy_slots_lem n (i + 1) g (omega arith) λ j l b.
                  Links-frame h g null (f j) null (ls j (omega arith) b)
                    λ a t. s.same a (apart j i b bound (omega arith) a t))
                λ _ g' r. record {
                  freed = λ j l b a t. elim (Bool-cases (j == i)) [
                    | inl same ↦
                        let at : has a (f i) ≡ true =
                          subst (λ (x : ℕ). has a (f x) ≡ true) (==→eq j i same) t in
                        r.same a (λ m l' c. apart i m bound c (omega arith) a at) ∙ s.freed a at
                    | inr other ↦ let ne = ==→ne j i other in r.freed j (omega arith) b a t
                  ];
                  same = λ a o.
                      r.same a (λ j l b. o j (omega arith) b) ∙ s.same a (o i (omega arith) bound);
                }))

-- The destructor of a valid wheel, given a round more than the longest slot has timers, returns:
-- every timer of every slot is freed, none of them twice, and no other node is touched.
pub destroy-AllEmptied :
    (k : ℕ) (h : Store TwTimer) (w : TimeWheel) (f : ℕ → TwCells)
    → IsWheel h w f
    → ((i : ℕ) → i < slot_count → length (f i) < k)
    → Returns (λ _ g. AllEmptied h f 0 g) (destroy k w h)
unfolding destroy
destroy-AllEmptied k h w f is fuel =
    destroy_slots_lem k w f is.heads is.apart fuel slot_count 0 h refl λ j l b. is.links j b
