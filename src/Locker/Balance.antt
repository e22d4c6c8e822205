-- ===== src/Locker/Balance.antt =====
-- The objects that the constructors and destructors leave behind.
use high_performance_linux_s.Base.{
  ℕ, ◌+◌, ◌-◌, ◌≡◌, refl, List, [], ◌∷◌, arith, if◌then◌else◌, Bool-cases, inl, inr, ℤ,
}
use high_performance_linux_s.Locker.{
  Call, Os, Built, thrown, built, is_zero, mutex_init, mutex_destroy, cond_init, cond_destroy,
  cond_new, cond_delete,
}

abbrev ok_count : ℤ → ℕ
ok_count r = if is_zero r then 1 else 0

-- How many mutexes and condition variables are initialised and not destroyed.
unfoldable pub mutexes : Os → List Call → ℕ
mutexes os [] = 0
mutexes os (mutex_init ∷ calls) = ok_count (os calls mutex_init) + mutexes os calls
mutexes os (mutex_destroy ∷ calls) = mutexes os calls - 1
mutexes os (_ ∷ calls) = mutexes os calls

unfoldable pub conds : Os → List Call → ℕ
conds os [] = 0
conds os (cond_init ∷ calls) = ok_count (os calls cond_init) + conds os calls
conds os (cond_destroy ∷ calls) = conds os calls - 1
conds os (_ ∷ calls) = conds os calls

-- A constructor that throws leaves nothing; one that returns leaves one object of each kind, which the
-- destructor takes back.
abbrev pub IsBalanced : Os → List Call → Built → List Call → Type 0
IsBalanced os calls thrown after =
    (mutexes os after ≡ mutexes os calls) × (conds os after ≡ conds os calls)
IsBalanced os calls built after =
    (mutexes os after ≡ mutexes os calls + 1)
    × (conds os after ≡ conds os calls + 1)
    × (mutexes os (cond_delete os after).1 ≡ mutexes os calls)
    × (conds os (cond_delete os after).1 ≡ conds os calls)

-- Whatever the calls return, the constructor of `cond` that throws leaves no object behind; one that
-- returns leaves one mutex and one condition variable, and the destructor destroys exactly these.
pub cond_new-IsBalanced :
    (os : Os) (calls : List Call) → IsBalanced os calls (cond_new os calls).0 (cond_new os calls).1
unfolding cond_new cond_delete mutexes conds
cond_new-IsBalanced os calls = elim (Bool-cases (is_zero (os calls mutex_init))) [
  | inr failed ↦ rw failed (rw failed (omega arith, refl))
  | inl made ↦
      let one : ok_count (os calls mutex_init) ≡ 1 = rw made refl in
      elim (Bool-cases (is_zero (os (mutex_init ∷ calls) cond_init))) [
        | inr failed ↦
            let two : ok_count (os (mutex_init ∷ calls) cond_init) ≡ 0 = rw failed refl in
            rw (made, failed) (omega (arith, one, two), omega (arith, one, two))
        | inl both ↦
            let two : ok_count (os (mutex_init ∷ calls) cond_init) ≡ 1 = rw both refl in
            rw (made, both)
              (
                omega (arith, one, two),
                omega (arith, one, two),
                omega (arith, one, two),
                omega (arith, one, two),
              )
      ]
]
