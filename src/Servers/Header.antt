-- ===== src/Servers/Header.antt =====
-- The header that src/writev.cc sends, and `snprintf` on a buffer.
pub mod Text
use Prim.Native.Nat.{◌/◌, ◌%◌, ◌^◌}
use high_performance_linux_s.Base.{
  ℕ, zero, suc, ◌+◌, ◌-◌, Option, none, some, List, [], ◌∷◌, ◌++◌, ℤ, pos, negsuc, ltb, leb,
  if◌then◌else◌, length, take, replicate,
}
use high_performance_linux_s.Base.Partial.{◌>>=◌}

abbrev pub buf_size : ℕ
buf_size = 1024

-- The digits of a number below 10 ^ k.
unfoldable pub digits : (k : ℕ) → ℕ → List ℕ
digits zero n = []
digits (suc k) n =
    let higher = digits k (n / 10) in (if ltb n 10 then [] else higher) ++ (b'0' + n % 10) ∷ []

-- `%d`
unfoldable pub decimal : ℤ → List ℕ
unfolding digits
decimal (pos n) = digits 10 n
decimal (negsuc n) = b'-' ∷ digits 10 (suc n)

-- `static_cast<int>` of a size.
unfoldable pub to_int : ℕ → ℤ
to_int n = let low = n % 2 ^ 32 in if ltb low (2 ^ 31) then pos low else negsuc (2 ^ 32 - 1 - low)

abbrev pub ok_line : List ℕ
ok_line =
    b'H' ∷ b'T' ∷ b'T' ∷ b'P' ∷ 47 ∷ 49 ∷ 46 ∷ 49 ∷ 32 ∷ 50 ∷ 48 ∷ 48 ∷ 32 ∷ b'O' ∷ b'K' ∷ 13 ∷ 10
    ∷ []

abbrev pub content_length : List ℕ
content_length =
    b'C' ∷ b'o' ∷ b'n' ∷ b't' ∷ b'e' ∷ b'n' ∷ b't' ∷ b'-' ∷ b'L' ∷ b'e' ∷ b'n' ∷ b'g' ∷ b't' ∷ b'h'
    ∷ b':' ∷ 32 ∷ []

abbrev pub line_end : List ℕ
line_end = 13 ∷ 10 ∷ []

unfoldable pub overwrite : List ℕ → List ℕ → List ℕ
overwrite [] buf = buf
overwrite (x ∷ xs) [] = []
overwrite (x ∷ xs) (b ∷ buf) = x ∷ overwrite xs buf

unfoldable pub store : List ℕ → ℕ → List ℕ → List ℕ
unfolding overwrite
store [] i xs = []
store (b ∷ buf) zero xs = overwrite xs (b ∷ buf)
store (b ∷ buf) (suc i) xs = b ∷ store buf i xs

-- `snprintf(buf + i, n, ...)` of what the format stands for: the buffer behind it and the value, or
-- `none` where it writes behind the end of the buffer.
unfoldable pub snprintf : List ℕ → (i n : ℕ) → (text : List ℕ) → Option (List ℕ × ℕ)
unfolding store
snprintf buf i zero text = some (buf, length text)
snprintf buf i (suc n) text =
    let written = take n text ++ 0 ∷ [] in
    if leb (i + length written) (length buf) then some (store buf i written, length text) else none

-- Three texts one behind the other in a new buffer of `n` bytes. The sizes are not negative in
-- `header`: the texts in front are shorter than the buffer.
unfoldable pub print_three : (n : ℕ) → (first second third : List ℕ) → Option (List ℕ)
unfolding snprintf
print_three n first second third = do
  (buf₁, len) ← snprintf (replicate n 0) 0 (n - 1) first
  (buf₂, ret) ← snprintf buf₁ len (n - len - 1) second
  (buf₃, _) ← snprintf buf₂ (len + ret) (n - (len + ret) - 1) third
  some buf₃

-- `header_buf`
unfoldable pub header : (size : ℕ) → Option (List ℕ)
unfolding print_three decimal to_int
header size =
    print_three buf_size ok_line (content_length ++ decimal (to_int size) ++ line_end) line_end
