-- ===== src/HttpParse/CString/Bounds.antt =====
-- The string functions and the NUL that ends the text.
use high_performance_linux_s.Base.{
  ℕ, zero, suc, ◌+◌, ◌-◌, ◌≤◌, ◌<◌, ◌≡◌, refl, ◌∙◌, ap, true, some, List, [], ◌∷◌, arith, ◌==◌, map,
  length, length-map, length-take, take, get_elem?, Bool-cases, inl, inr, ==→eq,
}
use high_performance_linux_s.Base.Partial.{Defined, defined, Defined-mono, Defined-value}
use high_performance_linux_s.HttpParse.CString.{
  until_nul, cstr, equal, to_lower, equal_nocase_n, strpbrk, strspn, strchr,
}

-- The text `s` at `p` ends at a NUL, at `j` or before.
pub record EndsBy (buf : List ℕ) (p j : ℕ) (s : List ℕ) : Type 0 where
  pub within : p + length s ≤ j
  pub nul : get_elem? buf (p + length s) ≡ some 0

until_nul_lem :
    (xs : List ℕ) (j : ℕ)
    → get_elem? xs j ≡ some 0
    → Defined (λ s. (length s ≤ j) × (get_elem? xs (length s) ≡ some 0)) (until_nul xs)
unfolding until_nul
until_nul_lem [] j h = cc
until_nul_lem (x ∷ xs) zero h =
    let e : (x == 0) ≡ true = ground arith in rw e (defined (omega arith, h))
until_nul_lem (x ∷ xs) (suc j) h = elim (Bool-cases (x == 0)) [
  | inl e ↦ rw e (defined (omega arith, ap some (==→eq x 0 e)))
  | inr ne ↦
      let (s, run, (le, at)) = Defined-value (until_nul_lem xs j h) in
      rw (ne, run) (defined (omega arith, at))
]

pub cstr-EndsBy :
    (buf : List ℕ) (p j : ℕ)
    → p ≤ j
    → get_elem? buf j ≡ some 0
    → Defined (EndsBy buf p j) (cstr buf p)
unfolding cstr
cstr-EndsBy buf zero j le h =
    Defined-mono (until_nul_lem buf j h)
      λ s e. record { within = omega (arith, e.0); nul = ap (get_elem? buf) (omega arith) ∙ e.1 }
cstr-EndsBy [] (suc p) j le h = cc
cstr-EndsBy (x ∷ buf) (suc p) zero le h = absurd (omega arith)
cstr-EndsBy (x ∷ buf) (suc p) (suc j) le h =
    Defined-mono (cstr-EndsBy buf p j (omega arith) h) λ s e.
      let at : suc p + length s ≡ suc (p + length s) = omega arith in
      record { within = omega (arith, e.within); nul = ap (get_elem? (x ∷ buf)) at ∙ e.nul }

pub strpbrk_bound : (s accept : List ℕ) (i : ℕ) → strpbrk s accept ≡ some i → i < length s
unfolding strpbrk
strpbrk_bound [] accept i e = cc
strpbrk_bound (x ∷ s) accept i e = ground (arith, strpbrk_bound s accept (i - 1))

pub strspn_bound : (s accept : List ℕ) → strspn s accept ≤ length s
unfolding strspn
strspn_bound [] accept = omega arith
strspn_bound (x ∷ s) accept = ground (arith, strspn_bound s accept)

pub strchr_bound : (s : List ℕ) (c i : ℕ) → strchr s c ≡ some i → i < length s
unfolding strchr
strchr_bound [] c i e = cc
strchr_bound (x ∷ s) c i e = ground (arith, strchr_bound s c (i - 1))

equal_lem : (xs ys : List ℕ) → equal xs ys ≡ true → xs ≡ ys
unfolding equal
equal_lem [] [] e = refl
equal_lem [] (y ∷ ys) e = cc
equal_lem (x ∷ xs) [] e = cc
equal_lem (x ∷ xs) (y ∷ ys) e = ground (arith, equal_lem xs ys)

-- A prefix of `n` bytes can only match where there are `n` bytes.
pub equal_nocase_n_bound :
    (n : ℕ) (s t : List ℕ) → equal_nocase_n n s t ≡ true → n ≤ length t → n ≤ length s
unfolding equal_nocase_n
equal_nocase_n_bound n s t e le =
    let same = ap length (equal_lem (map to_lower (take n s)) (map to_lower (take n t)) e) in
    omega (
      arith,
      same,
      length-map (take n s) to_lower,
      length-map (take n t) to_lower,
      length-take n s,
      length-take n t,
    )
