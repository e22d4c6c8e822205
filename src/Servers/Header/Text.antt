-- ===== src/Servers/Header/Text.antt =====
-- What the header is: its text, with the size in decimal, inside the buffer.
use mathlib.Core.List.{append_assoc}
use Prim.Native.Nat.{◌/◌, ◌%◌, ◌^◌, ◌*◌}
use high_performance_linux_s.Base.{
  ℕ, zero, suc, ◌+◌, ◌-◌, ◌≤◌, ◌<◌, ◌≡◌, refl, ◌∙◌, sym, ap, inl, inr, Bool, true, false,
  Bool-cases, some, List, [], ◌∷◌, ◌++◌, ℤ, pos, negsuc, ltb, leb, ◌==◌, arith, length, take,
  replicate, length-append, length-replicate, All, All-append,
}
use high_performance_linux_s.HttpParse.CString.{until_nul, cstr}
use high_performance_linux_s.Servers.Header.{
  buf_size, digits, decimal, to_int, ok_line, content_length, line_end, overwrite, store, snprintf,
  header, print_three,
}

zeros : ℕ → List ℕ
zeros m = replicate m 0

overwrite-zeros :
    (xs : List ℕ) (m : ℕ) → length xs ≤ m → overwrite xs (zeros m) ≡ xs ++ zeros (m - length xs)
unfolding overwrite zeros
overwrite-zeros [] m le = ap zeros (omega arith)
overwrite-zeros (x ∷ xs) zero le = absurd (omega arith)
overwrite-zeros (x ∷ xs) (suc m) le =
    let e : suc m - suc (length xs) ≡ m - length xs = omega arith in
    rw e (rw (overwrite-zeros xs m (omega arith)) refl)

store-zeros :
    (p xs : List ℕ) (m : ℕ)
    → length xs ≤ m
    → store (p ++ zeros m) (length p) xs ≡ p ++ xs ++ zeros (m - length xs)
unfolding store zeros
store-zeros [] [] zero le = refl
store-zeros [] (x ∷ xs) zero le = absurd (omega arith)
store-zeros [] xs (suc m) le = overwrite-zeros xs (suc m) le
store-zeros (b ∷ p) xs m le = ap (λ (t : List ℕ). b ∷ t) (store-zeros p xs m le)

take-all : (n : ℕ) (xs : List ℕ) → length xs ≤ n → take n xs ≡ xs
take-all zero [] le = refl
take-all zero (x ∷ xs) le = absurd (omega arith)
take-all (suc n) [] le = refl
take-all (suc n) (x ∷ xs) le = ap (λ (t : List ℕ). x ∷ t) (take-all n xs (omega arith))

-- A text that fits is stored behind the others, with a NUL that is one of the zeros.
snprintf-appends :
    (p text : List ℕ) (m n : ℕ)
    → length text < n
    → length text < m
    → snprintf (p ++ zeros m) (length p) n text
      ≡ some ((p ++ text) ++ zeros (m - length text), length text)
unfolding snprintf zeros
snprintf-appends p text m zero fits room = absurd (omega arith)
snprintf-appends p text m (suc n) fits room =
    let written = text ++ 0 ∷ [] in
    let whole = take-all n text (omega arith) in
    let size : length written ≡ suc (length text) = omega (arith, length-append text (0 ∷ [])) in
    let sum : length (p ++ zeros m) ≡ length p + m =
      omega (arith, length-append p (zeros m), length-replicate {A = ℕ} m 0) in
    let inside : leb (length p + length written) (length (p ++ zeros m)) ≡ true = ground arith in
    let left : m - length text ≡ suc (m - length written) = omega arith in
    let rest = zeros (m - length written) in
    rw whole (
      rw inside (
        ap (λ (b : List ℕ). some (b, length text))
          (store-zeros p written m (omega arith)
            ∙ ap (λ (t : List ℕ). t ++ rest) (sym (append_assoc p text (0 ∷ [])))
            ∙ append_assoc (p ++ text) (0 ∷ []) rest
            ∙ ap (λ (k : ℕ). p ++ text ++ zeros k) (sym left))))

until_nul-zeros :
    (t : List ℕ) (m : ℕ) → 0 < m → All (λ (x : ℕ). 0 < x) t → until_nul (t ++ zeros m) ≡ some t
unfolding until_nul zeros
until_nul-zeros [] zero lt all = absurd (omega arith)
until_nul-zeros [] (suc m) lt all = refl
until_nul-zeros (x ∷ t) m lt all =
    let e : (x == 0) ≡ false = ground (arith, all.0) in
    rw e (rw (until_nul-zeros t m lt all.1) refl)

digits-length : (k n : ℕ) → length (digits k n) ≤ k
unfolding digits
digits-length zero n = omega arith
digits-length (suc k) n = elim (Bool-cases (ltb n 10)) [
  | inl e ↦ rw e (omega arith)
  | inr e ↦ rw e (
      omega
        (arith, digits-length k (n / 10), length-append (digits k (n / 10)) ((b'0' + n % 10) ∷ [])))
]

digits-All : (k n : ℕ) → All (λ (x : ℕ). 0 < x) (digits k n)
unfolding digits
digits-All zero n = tt
digits-All (suc k) n = elim (Bool-cases (ltb n 10)) [
  | inl e ↦ rw e (omega arith, tt)
  | inr e ↦ rw e (All-append _ (digits k (n / 10)) _ (digits-All k (n / 10)) (omega arith, tt))
]

-- The number that a list of digits stands for, behind `acc`.
pub number : (acc : ℕ) → List ℕ → ℕ
number acc [] = acc
number acc (x ∷ xs) = number (10 * acc + (x - b'0')) xs

limit : ℕ → ℕ
limit zero = 1
limit (suc k) = 10 * limit k

number-last :
    (xs : List ℕ) (acc d : ℕ) → number acc (xs ++ d ∷ []) ≡ 10 * number acc xs + (d - b'0')
unfolding number
number-last [] acc d = refl
number-last (x ∷ xs) acc d = number-last xs _ d

digits-number : (k n : ℕ) → n < limit k → number 0 (digits k n) ≡ n
unfolding digits number limit
digits-number zero n lt = omega arith
digits-number (suc k) n lt = elim (Bool-cases (ltb n 10)) [
  | inl e ↦ rw e (ground arith)
  | inr e ↦
      let h = digits-number k (n / 10) (omega arith) in
      rw e (omega (arith, number-last (digits k (n / 10)) 0 (b'0' + n % 10)))
]

to_int-small : (n : ℕ) → n < 2 ^ 31 → to_int n ≡ pos n
unfolding to_int
to_int-small n lt = ground arith

decimal-All : (i : ℤ) → All (λ (x : ℕ). 0 < x) (decimal i)
unfolding decimal
decimal-All (pos n) = digits-All 10 n
decimal-All (negsuc n) = (omega arith, digits-All 10 (suc n))

decimal-length : (i : ℤ) → length (decimal i) ≤ 11
unfolding decimal
decimal-length (pos n) = omega (arith, digits-length 10 n)
decimal-length (negsuc n) = omega (arith, digits-length 10 (suc n))

decimal-number : (n : ℕ) → n < 2 ^ 31 → number 0 (decimal (to_int n)) ≡ n
unfolding decimal limit
decimal-number n lt =
    let bound : limit 10 ≡ 10000000000 = refl in
    rw (to_int-small n lt) (digits-number 10 n (omega arith))

-- The text of the header for a file of `size` bytes.
pub record IsHeader (size : ℕ) (text : List ℕ) : Type 0 where
  pub numeral : List ℕ
  pub layout : text ≡ ok_line ++ (content_length ++ numeral ++ line_end) ++ line_end
  pub says : size < 2 ^ 31 → number 0 numeral ≡ size

print_three_lem :
    (n : ℕ) (a b c : List ℕ)
    → length a + length b + length c + 1 < n
    → print_three n a b c ≡ some (a ++ b ++ c ++ zeros (n - length a - length b - length c))
unfolding print_three zeros
print_three_lem n a b c lt =
    let m = n - length a in
    let first : snprintf (zeros n) 0 (n - 1) a ≡ some (a ++ zeros m, length a) =
      snprintf-appends [] a n (n - 1) (omega arith) (omega arith) in
    let second : snprintf (a ++ zeros m) (length a) (n - length a - 1) b
        ≡ some (a ++ b ++ zeros (m - length b), length b) =
      snprintf-appends a b m (n - length a - 1) (omega arith) (omega arith) in
    let third : snprintf (a ++ b ++ zeros (m - length b)) (length a + length b)
          (n - (length a + length b) - 1) c
        ≡ some (a ++ b ++ c ++ zeros (m - length b - length c), length c) =
      ap (λ (i : ℕ). snprintf (a ++ b ++ zeros (m - length b)) i (n - (length a + length b) - 1) c)
        (sym (length-append a b))
      ∙ snprintf-appends (a ++ b) c (m - length b) _ (omega arith) (omega arith) in
    rw first (rw second (rw third refl))

has_nul : List ℕ → Bool
has_nul [] = false
has_nul (zero ∷ xs) = true
has_nul (suc x ∷ xs) = has_nul xs

literal-All : (xs : List ℕ) → has_nul xs ≡ false → All (λ (x : ℕ). 0 < x) xs
unfolding has_nul
literal-All [] e = tt
literal-All (zero ∷ xs) e = absurd (cc e)
literal-All (suc x ∷ xs) e = (omega arith, literal-All xs e)

cstr-zeros :
    (t : List ℕ) (m : ℕ) → 0 < m → All (λ (x : ℕ). 0 < x) t → cstr (t ++ zeros m) 0 ≡ some t
unfolding cstr
cstr-zeros t m lt all = until_nul-zeros t m lt all

-- For every size the three texts fit into the buffer, and make up the header.
pub header_lem :
    (size : ℕ)
    → (buf : List ℕ) × (text : List ℕ) × (header size ≡ some buf)
      × (cstr buf 0 ≡ some text)
      × IsHeader size text
unfolding header has_nul
header_lem size =
    let numeral = decimal (to_int size) in
    let line = content_length ++ numeral ++ line_end in
    let digits_fit = decimal-length (to_int size) in
    let front : length (content_length ++ numeral) ≡ 16 + length numeral =
      length-append content_length numeral in
    let short : length line ≤ 29 =
      omega (arith, length-append (content_length ++ numeral) line_end) in
    (
      _,
      _,
      print_three_lem buf_size ok_line line line_end (omega arith),
      cstr-zeros (ok_line ++ line ++ line_end) _ (omega arith) (
          All-append _ (ok_line ++ line) line_end
            (All-append _ ok_line line (literal-All ok_line refl) (
              All-append _ (content_length ++ numeral) line_end
                (All-append _ content_length numeral (literal-All content_length refl)
                  (decimal-All (to_int size)))
                (literal-All line_end refl)))
            (literal-All line_end refl)),
      record { numeral = numeral; layout = refl; says = λ lt. decimal-number size lt },
    )
