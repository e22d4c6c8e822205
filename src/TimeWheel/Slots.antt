-- ===== src/TimeWheel/Slots.antt =====
-- One slot of a wheel takes a new list.
use mathlib.Core.Path.{subst}
use high_performance_linux_s.Base.{
  ℕ, ◌<◌, ◌≡◌, refl, ◌∙◌, sym, ◌≢◌, true, false, none, [], ◌∷◌, arith, ◌==◌, ap, if◌then◌else◌, All,
  Bool-cases, inl, inr, ==→eq, ==→ne,
}
use high_performance_linux_s.Nodes.{Ptr, null, Store}
use high_performance_linux_s.Nodes.Links.{has, first, Links, Links-frame}
use high_performance_linux_s.TimeWheel.{TwTimer, TwCells, TimeWheel, slot_count, IsWheel}

unfoldable pub replace : ℕ → TwCells → (ℕ → TwCells) → ℕ → TwCells
replace i xs f j = if j == i then xs else f j

-- What holds of the new list at its slot and of the old ones elsewhere holds everywhere.
pub replace-elim :
    (P : ℕ → TwCells → Type 0) (i : ℕ) (xs : TwCells) (f : ℕ → TwCells)
    → P i xs
    → ((j : ℕ) → j ≢ i → P j (f j))
    → (j : ℕ) → P j (replace i xs f j)
unfolding replace
replace-elim P i xs f here there j = elim (Bool-cases (j == i)) [
  | inl e ↦ rw e (subst (λ (x : ℕ). P x xs) (sym (==→eq j i e)) here)
  | inr n ↦ rw n (there j (==→ne j i n))
]

-- A node of a list is live.
pub live :
    (h : Store TwTimer) (pv : Ptr) (xs : TwCells) (a : Ptr)
    → Links h pv xs null
    → h a ≡ none
    → has a xs ≡ false
live h pv [] a ls free = refl
live h pv ((p, v) ∷ xs) a ls free = elim (Bool-cases (a == p)) [
  | inl e ↦ let at : h a ≡ h p = ap h (==→eq a p e) in let both = sym free ∙ at ∙ ls.0 in cc both
  | inr n ↦ rw n (live h p xs a ls.3 free)
]

module _ (h g : Store TwTimer) (w w' : TimeWheel) (f : ℕ → TwCells) (i : ℕ) (xs : TwCells) where
  pub IsWheel-replace :
      IsWheel h w f
      → i < slot_count
      → w'.cur_slot < slot_count
      → Links g null xs null
      → w'.slots i ≡ first xs null
      → ((j : ℕ) → j ≢ i → w'.slots j ≡ w.slots j)
      → ((j : ℕ) → j < slot_count → j ≢ i → (a : Ptr) → has a (f j) ≡ true → has a xs ≡ false)
      → ((j : ℕ) → j < slot_count → j ≢ i → (a : Ptr) → has a (f j) ≡ true → g a ≡ h a)
      → All (λ c. c.1.time_slot ≡ i) xs
      → IsWheel g w' (replace i xs f)
  IsWheel-replace is lt cur ls hd others apart same placed = record {
    current = cur;
    links =
        replace-elim (λ j ys. j < slot_count → Links g null ys null) i xs f (λ _. ls)
          λ j ne b. Links-frame h g null (f j) null (is.links j b) (same j b ne);
    heads =
        replace-elim (λ j ys. j < slot_count → w'.slots j ≡ first ys null) i xs f (λ _. hd)
          λ j ne b. others j ne ∙ is.heads j b;
    apart = λ j l.
        replace-elim
          (λ j ys.
            j < slot_count
            → l < slot_count
            → j ≢ l
            → (a : Ptr) → has a ys ≡ true
            → has a (replace i xs f l) ≡ false)
          i xs f
          (replace-elim
            (λ l zs.
              i < slot_count
              → l < slot_count
              → i ≢ l
              → (a : Ptr) → has a xs ≡ true
              → has a zs ≡ false)
            i xs f (λ _ _ ne. absurd (ne refl))
            (λ l nl _ b _ a hx. elim (Bool-cases (has a (f l))) [
              | inl t ↦ absurd (ground (arith, apart l b nl a t))
              | inr o ↦ o
            ])
            l)
          (λ j nj.
            replace-elim
              (λ l zs.
                j < slot_count
                → l < slot_count
                → j ≢ l
                → (a : Ptr) → has a (f j) ≡ true
                → has a zs ≡ false)
              i xs f (λ b _ _ a t. apart j b nj a t) (λ l _ b c ne. is.apart j l b c ne) l)
          j;
    placed =
        replace-elim (λ j ys. j < slot_count → All (λ c. c.1.time_slot ≡ j) ys) i xs f (λ _. placed)
          λ j _ b. is.placed j b;
  }
