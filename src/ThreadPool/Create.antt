-- ===== src/ThreadPool/Create.antt =====
-- When the constructor of the pool returns.
use high_performance_linux_s.Base.{
  ℕ, zero, suc, ◌+◌, ◌-◌, ◌≡◌, refl, ◌<◌, ◌↔◌, true, false, arith, ◌==◌, Bool-cases, inl, inr, ℤ,
  pos, negsuc,
}
use high_performance_linux_s.Locker.{built, is_zero}
use high_performance_linux_s.ThreadPool.{create_loop, thread_pool}

create_loop-built :
    (create detach : ℕ → ℤ) (n i : ℕ)
    → (create_loop create detach n i).0 ≡ built
    → (j : ℕ) → j < n
    → (is_zero (create (i + j)) ≡ true) × (is_zero (detach (i + j)) ≡ false)
unfolding create_loop
create_loop-built create detach zero i e j b = absurd (omega arith)
create_loop-built create detach (suc n) i e j b = elim (Bool-cases (is_zero (create i))) [
  | inr failed ↦ let out = rw failed at e in absurd (cc out)
  | inl made ↦ elim (Bool-cases (is_zero (detach i))) [
    | inl gone ↦ let out = rw (made, gone) at e in absurd (cc out)
    | inr fails ↦
        let rest = create_loop-built create detach n (i + 1) (rw (made, fails) at e) in
        elim (Bool-cases (j == 0)) [
          | inl z ↦ let here : i + j ≡ i = ground arith in rw here (made, fails)
          | inr nz ↦
              let (k, here) : (k : ℕ) × (j ≡ k + 1) = (j - 1, ground arith) in
              let there : i + j ≡ i + 1 + k = omega arith in rw there (rest k (omega arith))
        ]
  ]
]

create_loop-all :
    (create detach : ℕ → ℤ) (n i : ℕ)
    → ((j : ℕ) → j < n → (is_zero (create (i + j)) ≡ true) × (is_zero (detach (i + j)) ≡ false))
    → (create_loop create detach n i).0 ≡ built
unfolding create_loop
create_loop-all create detach zero i all = refl
create_loop-all create detach (suc n) i all =
    let same : i + 0 ≡ i = omega arith in
    let (made, fails) = rw same at (all 0 (omega arith)) in
    let rest = create_loop-all create detach n (i + 1) λ j b.
      let next : i + 1 + j ≡ i + (j + 1) = omega arith in rw next (all (j + 1) (omega arith)) in
    rw (made, fails) rest

-- Both numbers are positive, every thread is created, and every `pthread_detach` fails.
pub Launched : (create detach : ℕ → ℤ) → (thread_number max_requests : ℤ) → Type 0
Launched create detach thread_number max_requests =
    (n : ℕ) × (m : ℕ) × (thread_number ≡ pos (suc n))
    × (max_requests ≡ pos (suc m))
    × ((j : ℕ) → j < suc n → (is_zero (create j) ≡ true) × (is_zero (detach j) ≡ false))

-- The constructor returns exactly where both numbers are positive, every thread was created and every
-- `pthread_detach` failed: it throws as soon as one of them succeeds.
pub thread_pool-built :
    (create detach : ℕ → ℤ) (thread_number max_requests : ℤ)
    → ((thread_pool create detach thread_number max_requests).0 ≡ built)
      ↔ Launched create detach thread_number max_requests
unfolding thread_pool Launched
thread_pool-built create detach thread_number max_requests = (
  returned thread_number max_requests,
  λ (n, m, en, em, all).
      rw (en, em)
        (create_loop-all create detach (suc n) 0
          λ j b. let same : 0 + j ≡ j = omega arith in rw same (all j b)),
)
  where
    returned : (t r : ℤ) → (thread_pool create detach t r).0 ≡ built → Launched create detach t r
    returned (pos (suc n)) (pos (suc m)) e = (
      n,
      m,
      refl,
      refl,
      λ j b.
          let at = create_loop-built create detach (suc n) 0 e j b in
          let same : 0 + j ≡ j = omega arith in rw same at at,
    )
    returned (pos (suc n)) (pos zero) e = absurd (cc e)
    returned (pos (suc n)) (negsuc m) e = absurd (cc e)
    returned (pos zero) r e = absurd (cc e)
    returned (negsuc n) r e = absurd (cc e)
