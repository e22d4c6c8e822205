-- ===== src/HttpParse/Lines.antt =====
-- `parse_line` against a description of where the first line break stands.
use mathlib.Core.Path.{subst}
use high_performance_linux_s.Base.{
  ℕ, zero, suc, ◌+◌, ◌-◌, ◌≤◌, ◌<◌, ◌≡◌, refl, ◌∙◌, ap, ◌≢◌, ◌⊎◌, inl, inr, some, List, arith, ltb,
  ◌==◌, length, get_elem?, set, get_elem?_total, ltb→lt, ltb→le, Bool-cases, ==→eq, ==→ne,
}
use high_performance_linux_s.Base.Partial.{Defined, defined}
use high_performance_linux_s.HttpParse.{
  Line, line, line_ok, line_bad, line_open, cr, lf, line_at_cr, line_at_lf, parse_line_loop,
  parse_line,
}
use high_performance_linux_s.HttpParse.Writes.{write-read, write-second}

-- The `m` bytes from `c` on are neither '\r' nor '\n'.
abbrev pub Plain : List ℕ → ℕ → ℕ → Type 0
Plain buf c zero = Unit
Plain buf c (suc m) =
    ((v : ℕ) × (get_elem? buf c ≡ some v) × (v ≢ cr) × (v ≢ lf)) × Plain buf (c + 1) m

-- What a scan of the bytes from `c` up to `r` should find; `m` bytes are passed over.
pub data LineSpec (buf : List ℕ) (c r : ℕ) (l : Line) : Type 0 where
  no_break : (m : ℕ) → c + m ≡ r → Plain buf c m → l ≡ line line_open buf r → LineSpec buf c r l
  lone_cr :
      (m : ℕ)
      → c + m + 1 ≡ r
      → Plain buf c m
      → get_elem? buf (c + m) ≡ some cr
      → l ≡ line line_open buf (c + m)
      → LineSpec buf c r l
  crlf :
      (m : ℕ)
      → c + m + 2 ≤ r
      → Plain buf c m
      → get_elem? buf (c + m) ≡ some cr
      → get_elem? buf (c + m + 1) ≡ some lf
      → l ≡ line line_ok (set (set buf (c + m) 0) (c + m + 1) 0) (c + m + 2)
      → LineSpec buf c r l
  bad_cr :
      (m v : ℕ)
      → c + m + 2 ≤ r
      → Plain buf c m
      → get_elem? buf (c + m) ≡ some cr
      → get_elem? buf (c + m + 1) ≡ some v
      → v ≢ lf
      → l ≡ line line_bad buf (c + m)
      → LineSpec buf c r l
  late_lf :
      (m : ℕ)
      → c + m + 1 ≤ r
      → Plain buf c m
      → get_elem? buf (c + m) ≡ some lf
      → 1 < c + m
      → get_elem? buf (c + m - 1) ≡ some cr
      → l ≡ line line_ok (set (set buf (c + m - 1) 0) (c + m) 0) (c + m + 1)
      → LineSpec buf c r l
  bad_lf :
      (m : ℕ)
      → c + m + 1 ≤ r
      → Plain buf c m
      → get_elem? buf (c + m) ≡ some lf
      → (c + m ≤ 1) ⊎ ((v : ℕ) × (get_elem? buf (c + m - 1) ≡ some v) × (v ≢ cr))
      → l ≡ line line_bad buf (c + m)
      → LineSpec buf c r l

-- One more byte passed over.
Plain-snoc :
    (buf : List ℕ) (c m v : ℕ)
    → Plain buf c m
    → get_elem? buf (c + m) ≡ some v
    → v ≢ cr
    → v ≢ lf
    → Plain buf c (suc m)
Plain-snoc buf c zero v p at nc nl = ((v, ap (get_elem? buf) (omega arith) ∙ at, nc, nl), tt)
Plain-snoc buf c (suc m) v p at nc nl =
    (p.0, Plain-snoc buf (c + 1) m v p.1 (ap (get_elem? buf) (omega arith) ∙ at) nc nl)

module _ (buf : List ℕ) (c r m : ℕ) (bound : r ≤ length buf) (plain : Plain buf c m) where
  line_at_cr_lem :
      c + m < r
      → get_elem? buf (c + m) ≡ some cr
      → Defined (LineSpec buf c r) (line_at_cr buf (c + m) r)
  unfolding line_at_cr
  line_at_cr_lem lt at = elim (Bool-cases (c + m + 1 == r)) [
    | inl e ↦ rw e (defined (lone_cr m (==→eq _ _ e) plain at refl))
    | inr ne ↦
        let (v, following) = get_elem?_total buf (c + m + 1) (omega (arith, ==→ne _ _ ne)) in
        rw (ne, following)
          (elim (Bool-cases (v == lf)) [
            | inl e ↦
                rw
                  (
                    e,
                    write-read buf (c + m) 0 cr at,
                    write-second buf (c + m) 0 (c + m + 1) 0 v following,
                  )
                  (defined (
                    crlf m (omega (arith, ==→ne _ _ ne)) plain at
                      (following ∙ ap some (==→eq _ _ e)) refl))
            | inr n ↦ rw n (
                defined
                  (bad_cr m v (omega (arith, ==→ne _ _ ne)) plain at following (==→ne _ _ n) refl))
          ])
  ]

  line_at_lf_lem :
      c + m < r
      → get_elem? buf (c + m) ≡ some lf
      → Defined (LineSpec buf c r) (line_at_lf buf (c + m))
  unfolding line_at_lf
  line_at_lf_lem lt at = elim (Bool-cases (ltb 1 (c + m))) [
    | inl big ↦
        let (v, preceding) = get_elem?_total buf (c + m - 1) (omega arith) in
        rw (big, preceding)
          (elim (Bool-cases (v == cr)) [
            | inl e ↦
                rw
                  (
                    e,
                    write-read buf (c + m - 1) 0 v preceding,
                    write-second buf (c + m - 1) 0 (c + m) 0 lf at,
                  )
                  (defined (
                    late_lf m (omega arith) plain at (ltb→lt _ _ big)
                      (preceding ∙ ap some (==→eq _ _ e)) refl))
            | inr n ↦
                rw n
                  (defined (bad_lf m (omega arith) plain at (inr (v, preceding, ==→ne _ _ n)) refl))
          ])
    | inr small ↦
        rw small
          (defined (bad_lf m (omega arith) plain at (inl (omega (arith, ltb→le _ _ small))) refl))
  ]

parse_line_loop_lem :
    (n : ℕ) (buf : List ℕ) (c r m : ℕ)
    → r ≤ length buf
    → Plain buf c m
    → c + m + n ≡ r
    → Defined (LineSpec buf c r) (parse_line_loop n buf (c + m) r)
unfolding parse_line_loop
parse_line_loop_lem zero buf c r m bound plain e =
    defined (no_break m (omega arith) plain (ap (line line_open buf) (omega arith)))
parse_line_loop_lem (suc n) buf c r m bound plain e =
    let (v, at) = get_elem?_total buf (c + m) (omega arith) in
    rw at (elim (Bool-cases (v == cr)) [
      | inl is_cr ↦
          rw is_cr
            (line_at_cr_lem buf c r m bound plain (omega arith) (at ∙ ap some (==→eq _ _ is_cr)))
      | inr not_cr ↦ rw not_cr (elim (Bool-cases (v == lf)) [
        | inl is_lf ↦
            rw is_lf
              (line_at_lf_lem buf c r m bound plain (omega arith) (at ∙ ap some (==→eq _ _ is_lf)))
        | inr not_lf ↦ rw not_lf (
            subst (λ i. Defined (LineSpec buf c r) (parse_line_loop n buf i r)) (omega arith)
              (parse_line_loop_lem n buf c r (suc m) bound
                (Plain-snoc buf c m v plain at (==→ne _ _ not_cr) (==→ne _ _ not_lf))
                (omega arith)))
      ])
    ])

-- `parse_line` on indices within the buffer never touches a byte outside it, and ends as the first
-- line break at or behind `checked_index` demands: it asks for more bytes if there is none or only a
-- last '\r', blanks out the two bytes of a line end and steps behind it, and refuses a '\r' with
-- another byte behind it and a '\n' with another byte in front of it.
pub parse_line-LineSpec :
    (buf : List ℕ) (c r : ℕ)
    → c ≤ r
    → r ≤ length buf
    → Defined (LineSpec buf c r) (parse_line buf c r)
unfolding parse_line
parse_line-LineSpec buf c r le bound =
    subst (λ i. Defined (LineSpec buf c r) (parse_line_loop (r - c) buf i r)) (omega arith)
      (parse_line_loop_lem (r - c) buf c r 0 bound tt (omega arith))
