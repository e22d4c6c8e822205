-- ===== src/HttpParse/CString/Words.antt =====
-- The string functions on words and blanks.
use high_performance_linux_s.Base.{
  ℕ, ◌≡◌, refl, ◌∙◌, ap, ◌≢◌, ◌⊎◌, true, false, some, List, [], ◌∷◌, ◌++◌, arith, length, drop, All,
  drop-append,
}
use high_performance_linux_s.HttpParse.CString.{until_nul, cstr, contains, strpbrk, strspn, blanks}

abbrev pub IsChar : ℕ → Type 0
IsChar x = x ≢ 0

abbrev pub IsLetter : ℕ → Type 0
IsLetter x = (x ≢ 0) × (x ≢ b' ') × (x ≢ 9)

abbrev pub IsBlank : ℕ → Type 0
IsBlank x = (x ≡ b' ') ⊎ (x ≡ 9)

-- A C string without a blank; a run of blanks.
abbrev pub IsWord : List ℕ → Type 0
IsWord = All IsLetter

abbrev pub AllBlank : List ℕ → Type 0
AllBlank = All IsBlank

pub word-chars : (s : List ℕ) → IsWord s → All IsChar s
word-chars [] w = tt
word-chars (x ∷ s) w = (w.0.0, word-chars s w.1)

pub blank-IsChar : (x : ℕ) → IsBlank x → IsChar x
blank-IsChar x b = ground arith

pub blank-chars : (s : List ℕ) → AllBlank s → All IsChar s
blank-chars [] w = tt
blank-chars (x ∷ s) w = (ground arith, blank-chars s w.1)

pub until_nul-append : (s rest : List ℕ) → All IsChar s → until_nul (s ++ 0 ∷ rest) ≡ some s
unfolding until_nul
until_nul-append [] rest w = refl
until_nul-append (x ∷ s) rest w = ground (arith, until_nul-append s rest w.1)

-- The text at an address, given the buffer's parts: what stands in front, the text, its NUL.
pub cstr_at :
    (buf pre s rest : List ℕ) (p : ℕ)
    → buf ≡ pre ++ (s ++ 0 ∷ rest)
    → All IsChar s
    → length pre ≡ p
    → cstr buf p ≡ some s
unfolding cstr
cstr_at buf pre s rest p parts w e =
    ap (λ b. until_nul (drop p b)) parts
    ∙ ap until_nul (drop-append pre (s ++ 0 ∷ rest) 0 p (omega arith))
    ∙ until_nul-append s rest w

pub contains_blank : (x : ℕ) → IsBlank x → contains blanks x ≡ true
unfolding contains
contains_blank x b = ground arith

pub contains_letter : (x : ℕ) → IsLetter x → contains blanks x ≡ false
unfolding contains
contains_letter x l = ground arith

pub strpbrk-append :
    (s : List ℕ) (b : ℕ) (t : List ℕ)
    → IsWord s
    → IsBlank b
    → strpbrk (s ++ b ∷ t) blanks ≡ some (length s)
unfolding strpbrk
strpbrk-append [] b t w is = rw (contains_blank b is)
strpbrk-append (x ∷ s) b t w is = rw (contains_letter x w.0, strpbrk-append s b t w.1 is)

pub strspn-append :
    (bs s : List ℕ) → AllBlank bs → strspn s blanks ≡ 0 → strspn (bs ++ s) blanks ≡ length bs
unfolding strspn
strspn-append [] s b e = e
strspn-append (x ∷ bs) s b e = rw (contains_blank x b.0, strspn-append bs s b.1 e)

pub strspn-word : (s : List ℕ) → IsWord s → strspn s blanks ≡ 0
unfolding strspn
strspn-word [] w = refl
strspn-word (x ∷ s) w = rw (contains_letter x w.0)

pub strspn-letter : (x : ℕ) (s : List ℕ) → IsLetter x → strspn (x ∷ s) blanks ≡ 0
unfolding strspn
strspn-letter x s l = rw (contains_letter x l)
