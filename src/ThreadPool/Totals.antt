-- ===== src/ThreadPool/Totals.antt =====
-- Sums over the threads.
use high_performance_linux_s.Base.{
  ℕ, zero, suc, ◌+◌, ◌≡◌, refl, ap, ◌∙◌, ◌≤◌, ◌<◌, Bool, false, arith, ◌==◌, Bool-cases, inl, inr,
  ==→eq,
}
use high_performance_linux_s.ThreadPool.{Phase, Phases, testing, outside, move, starting}

-- The sum over the threads below `n` of what each adds in its phase.
unfoldable pub total : (Phase → ℕ) → Phases → ℕ → ℕ
total f ps zero = 0
total f ps (suc n) = f (ps n) + total f ps n

module _ (f : Phase → ℕ) (ps : Phases) (t : ℕ) where
  total-apart : (p : Phase) (n : ℕ) → n ≤ t → total f (move t p ps) n ≡ total f ps n
  unfolding total move
  total-apart p zero b = refl
  total-apart p (suc n) b =
      let rest = total-apart p n (omega arith) in
      let far : (n == t) ≡ false = ground arith in rw far (omega arith)

  pub total-move :
      (p q : Phase) (n : ℕ) → ps t ≡ q → t < n → total f (move t p ps) n + f q ≡ total f ps n + f p
  unfolding total move
  total-move p q zero at b = absurd (omega arith)
  total-move p q (suc n) at b = elim (Bool-cases (n == t)) [
    | inl e ↦
        let rest = total-apart p n (ground arith) in
        let here : f (ps n) ≡ f q = ap (λ (i : ℕ). f (ps i)) (==→eq n t e) ∙ ap f at in
        rw e (omega arith)
    | inr ne ↦ let rest = total-move p q n at (ground arith) in rw ne (omega arith)
  ]

  pub total-least : (q : Phase) (n : ℕ) → ps t ≡ q → t < n → f q ≤ total f ps n
  unfolding total
  total-least q zero at b = absurd (omega arith)
  total-least q (suc n) at b = elim (Bool-cases (n == t)) [
    | inl e ↦
        let here : f (ps n) ≡ f q = ap (λ (i : ℕ). f (ps i)) (==→eq n t e) ∙ ap f at in omega arith
    | inr ne ↦ let rest = total-least q n at (ground arith) in omega arith
  ]

pub total-starting :
    (f : Phase → ℕ) (worker : ℕ → Bool) (n : ℕ)
    → f testing ≡ 0
    → f outside ≡ 0
    → total f (starting worker) n ≡ 0
unfolding total
total-starting f worker zero a b = refl
total-starting f worker (suc n) a b =
    let rest = total-starting f worker n a b in
    elim (Bool-cases (worker n)) [
      | inl e ↦ rw (e, a) (omega arith)
      | inr e ↦ rw (e, b) (omega arith)
    ]
