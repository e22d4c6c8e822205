-- ===== src/HttpParse/CString.antt =====
-- The functions of <string.h> and <strings.h> that the parser calls, on the text at an address.
pub mod Bounds
pub mod Words
use high_performance_linux_s.Base.{
  ℕ, zero, suc, ◌+◌, Bool, true, false, ◌&&◌, ◌||◌, Option, none, some, List, [], ◌∷◌, map, leb,
  ◌==◌, if◌then◌else◌, take, drop,
}

-- The bytes up to a NUL; `none` where there is none before the end of the buffer.
unfoldable pub until_nul : List ℕ → Option (List ℕ)
until_nul [] = none
until_nul (x ∷ xs) =
    if x == 0 then some [] else elim (until_nul xs) [ none ↦ none | some s ↦ some (x ∷ s) ]

-- The text that a pointer into the buffer stands for.
unfoldable pub cstr : List ℕ → ℕ → Option (List ℕ)
unfolding until_nul
cstr buf p = until_nul (drop p buf)

-- ' ' and '\t'
abbrev pub blanks : List ℕ
blanks = b' ' ∷ 9 ∷ []

unfoldable pub contains : List ℕ → ℕ → Bool
contains [] c = false
contains (x ∷ xs) c = (c == x) || contains xs c

-- The index of the first byte of the set.
unfoldable pub strpbrk : List ℕ → List ℕ → Option ℕ
unfolding contains
strpbrk [] accept = none
strpbrk (x ∷ s) accept =
    if contains accept x
    then some 0
    else elim (strpbrk s accept) [ none ↦ none | some i ↦ some (suc i) ]

-- The number of leading bytes in the set.
unfoldable pub strspn : List ℕ → List ℕ → ℕ
unfolding contains
strspn [] accept = 0
strspn (x ∷ s) accept = if contains accept x then suc (strspn s accept) else 0

unfoldable pub strchr : List ℕ → ℕ → Option ℕ
strchr [] c = none
strchr (x ∷ s) c =
    if x == c then some 0 else elim (strchr s c) [ none ↦ none | some i ↦ some (suc i) ]

-- `tolower` of the C locale.
unfoldable pub to_lower : ℕ → ℕ
to_lower c = if leb b'A' c && leb c b'Z' then c + 32 else c

unfoldable pub equal : List ℕ → List ℕ → Bool
equal [] [] = true
equal [] (y ∷ ys) = false
equal (x ∷ xs) [] = false
equal (x ∷ xs) (y ∷ ys) = (x == y) && equal xs ys

-- `strcasecmp(s, t) == 0`
unfoldable pub equal_nocase : List ℕ → List ℕ → Bool
unfolding equal to_lower
equal_nocase s t = equal (map to_lower s) (map to_lower t)

-- `strncasecmp(s, t, n) == 0`
unfoldable pub equal_nocase_n : ℕ → List ℕ → List ℕ → Bool
unfolding equal_nocase
equal_nocase_n n s t = equal_nocase (take n s) (take n t)
