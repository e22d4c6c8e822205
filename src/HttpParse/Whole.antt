-- ===== src/HttpParse/Whole.antt =====
-- A whole request, written by its grammar and read in one piece.
pub mod Request
use mathlib.Core.Path.{ap₂}
use mathlib.Core.List.{append_assoc}
use mathlib.Core.Option.{some-injective}
use high_performance_linux_s.Base.{
  ℕ, zero, suc, ◌+◌, ◌-◌, ◌≤◌, ◌<◌, ◌≡◌, refl, ◌∙◌, sym, ap, ◌≢◌, inl, inr, true, false, Option,
  none, some, List, [], ◌∷◌, ◌++◌, arith, ◌==◌, length, get_elem?, set, All, set-append,
  get_elem?-append, length-append, ne→==, Bool-cases,
}
use high_performance_linux_s.Base.Partial.{Defined, defined, ◌>>=◌, Defined-value}
use high_performance_linux_s.HttpParse.{
  line, line_ok, HttpCode, no_request, get_request, CheckState, check_state_request_line,
  check_state_header, Conn, cr, lf, line_at_cr, parse_line_loop, parse_line, parse_request_line,
  parse_headers, parse_one, handle_line, parse_content_loop, parse_content,
}
use high_performance_linux_s.HttpParse.Safety.{parse_headers-code}
use high_performance_linux_s.HttpParse.Writes.{write-read, write-second}

-- A byte of a line.
abbrev pub IsPlain : ℕ → Type 0
IsPlain x = (x ≢ cr) × (x ≢ lf)

skip_plain :
    (text rest : List ℕ) (n k : ℕ) (buf pre : List ℕ) (c r : ℕ)
    → n ≡ length text + k
    → buf ≡ pre ++ (text ++ rest)
    → length pre ≡ c
    → All IsPlain text
    → parse_line_loop n buf c r ≡ parse_line_loop k buf (c + length text) r
unfolding parse_line_loop
skip_plain [] rest n k buf pre c r en eb ec p =
    ap₂ (λ (a b : ℕ). parse_line_loop a buf b r) (omega arith) (omega arith)
skip_plain (x ∷ text) rest zero k buf pre c r en eb ec p = absurd (omega arith)
skip_plain (x ∷ text) rest (suc n) k buf pre c r en eb ec p =
    let at : get_elem? buf c ≡ some x =
      ap (λ b. get_elem? b c) eb ∙ get_elem?-append pre (x ∷ (text ++ rest)) 0 c (omega arith) in
    let ih =
      skip_plain text rest n k buf (pre ++ x ∷ []) (c + 1) r (omega arith) (eb ∙ simp append_assoc)
        (omega (arith, length-append pre (x ∷ []))) p.1 in
    let to : c + 1 + length text ≡ c + suc (length text) = omega arith in
    rw at (rw (ne→== x cr p.0.0, ne→== x lf p.0.1) (ih ∙ ap (λ i. parse_line_loop k buf i r) to))

-- A complete line: its end is blanked out.
pub parse_line-crlf :
    (text rest : List ℕ) (buf pre : List ℕ) (c r : ℕ)
    → buf ≡ pre ++ (text ++ 13 ∷ 10 ∷ rest)
    → length pre ≡ c
    → All IsPlain text
    → c + length text + 2 ≤ r
    → parse_line buf c r ≡ some (line line_ok (pre ++ (text ++ 0 ∷ 0 ∷ rest)) (c + length text + 2))
unfolding parse_line
parse_line-crlf text rest buf pre c r eb ec p le =
    let m = length text in
    let at : get_elem? buf (c + m) ≡ some 13 =
      ap (λ b. get_elem? b (c + m)) eb
      ∙ get_elem?-append pre (text ++ 13 ∷ 10 ∷ rest) m (c + m) (omega arith)
      ∙ get_elem?-append text (13 ∷ 10 ∷ rest) 0 m (omega arith) in
    let at' : get_elem? buf (c + m + 1) ≡ some 10 =
      ap (λ b. get_elem? b (c + m + 1)) eb
      ∙ get_elem?-append pre (text ++ 13 ∷ 10 ∷ rest) (m + 1) (c + m + 1) (omega arith)
      ∙ get_elem?-append text (13 ∷ 10 ∷ rest) 1 (m + 1) refl in
    let first : set buf (c + m) 0 ≡ pre ++ (text ++ 0 ∷ 10 ∷ rest) =
      ap (λ b. set b (c + m) 0) eb
      ∙ set-append pre (text ++ 13 ∷ 10 ∷ rest) m (c + m) 0 (omega arith)
      ∙ ap (λ b. pre ++ b) (set-append text (13 ∷ 10 ∷ rest) 0 m 0 (omega arith)) in
    let both : set (set buf (c + m) 0) (c + m + 1) 0 ≡ pre ++ (text ++ 0 ∷ 0 ∷ rest) =
      ap (λ b. set b (c + m + 1) 0) first
      ∙ set-append pre (text ++ 0 ∷ 10 ∷ rest) (m + 1) (c + m + 1) 0 (omega arith)
      ∙ ap (λ b. pre ++ b) (set-append text (0 ∷ 10 ∷ rest) 1 (m + 1) 0 refl) in
    let more : (c + m + 1 == r) ≡ false = ne→== (c + m + 1) r (omega arith) in
    skip_plain text (13 ∷ 10 ∷ rest) (r - c) (suc (r - c - m - 1)) buf pre c r (omega arith) eb ec p
    ∙ rw (parse_line_loop, at)
        (rw (line_at_cr, more, at')
          (rw (write-read buf (c + m) 0 13 at, write-second buf (c + m) 0 (c + m + 1) 0 10 at')
            (ap (λ b. some (line line_ok b (c + m + 2))) both)))

-- A header: not empty, on one line, without a NUL.
abbrev pub IsHeader : List ℕ → Type 0
IsHeader [] = ⊥
IsHeader (x ∷ h) = (x ≢ 0) × All IsPlain (x ∷ h)

-- The headers, the empty line, and what the buffer holds behind them.
abbrev pub headers_text : List (List ℕ) → List ℕ → List ℕ
headers_text [] rest = 13 ∷ 10 ∷ rest
headers_text (h ∷ hs) rest = h ++ 13 ∷ 10 ∷ headers_text hs rest

abbrev pub headers_size : List (List ℕ) → ℕ
headers_size [] = 2
headers_size (h ∷ hs) = length h + 2 + headers_size hs

-- One line at the state `header`: the next round, or the end of the request.
header_line :
    (k : ℕ) (h rest buf pre : List ℕ) (c r : ℕ)
    → buf ≡ pre ++ (h ++ 13 ∷ 10 ∷ rest)
    → length pre ≡ c
    → All IsPlain h
    → c + length h + 2 ≤ r
    → parse_content_loop (suc k) (record {
      buffer = buf;
      checked_index = c;
      check_state = check_state_header;
      read_index = r;
      start_line = c;
    })
      ≡ handle_line line_ok (parse_content_loop k) (record {
        buffer = pre ++ (h ++ 0 ∷ 0 ∷ rest);
        checked_index = c + length h + 2;
        check_state = check_state_header;
        read_index = r;
        start_line = c;
      })
unfolding parse_content_loop
header_line k h rest buf pre c r eb ec p le = rw (parse_line-crlf h rest buf pre c r eb ec p le)

-- What a line at the state `header` comes to: the empty one ends the request, another is passed over.
module _ (again : Conn → Option (Conn × HttpCode)) (buf : List ℕ) (c r s j : ℕ)
    (nul : get_elem? buf j ≡ some 0) (le : s ≤ j) where
  abbrev at_line : Conn
  at_line = record {
    buffer = buf;
    checked_index = c;
    check_state = check_state_header;
    read_index = r;
    start_line = s;
  }

  empty_line :
      get_elem? buf s ≡ some 0
      → handle_line line_ok again at_line ≡ some (record at_line { start_line = c }, get_request)
  unfolding handle_line parse_one
  empty_line first =
      let ((code, host), run, side) = Defined-value (parse_headers-code j buf s nul le) in
      let is : code ≡ get_request = ground arith in rw run (rw is)

  header_passed :
      get_elem? buf s ≢ some 0
      → handle_line line_ok again at_line ≡ again (record at_line { start_line = c })
  unfolding handle_line parse_one
  header_passed first =
      let ((code, host), run, side) = Defined-value (parse_headers-code j buf s nul le) in
      let is : code ≡ no_request = ground arith in rw run (rw is)

abbrev pub Accepted : Conn × HttpCode → Type 0
Accepted x = x.1 ≡ get_request

pub headers-Accepted :
    (hs : List (List ℕ)) (k : ℕ) (rest buf pre : List ℕ) (c r : ℕ)
    → length hs < k
    → buf ≡ pre ++ headers_text hs rest
    → length pre ≡ c
    → All IsHeader hs
    → c + headers_size hs ≤ r
    → Defined Accepted (
        parse_content_loop k (record {
          buffer = buf;
          checked_index = c;
          check_state = check_state_header;
          read_index = r;
          start_line = c;
        }))
headers-Accepted hs zero rest buf pre c r fuel eb ec is le = absurd (omega arith)
headers-Accepted [] (suc k) rest buf pre c r fuel eb ec is le =
    rw (header_line k [] rest buf pre c r eb ec tt (omega arith)) (
      rw
        (empty_line (parse_content_loop k) (pre ++ 0 ∷ 0 ∷ rest) (c + 0 + 2) r c c
          (get_elem?-append pre (0 ∷ 0 ∷ rest) 0 c (omega arith)) (omega arith)
          (get_elem?-append pre (0 ∷ 0 ∷ rest) 0 c (omega arith)))
        (defined refl))
headers-Accepted ([] ∷ hs) (suc k) rest buf pre c r fuel eb ec is le = absurd is.0
headers-Accepted ((x ∷ h) ∷ hs) (suc k) rest buf pre c r fuel eb ec is le =
    let m = suc (length h) in
    let more = headers_text hs rest in
    let buf' = pre ++ (x ∷ h ++ 0 ∷ 0 ∷ more) in
    let nul : get_elem? buf' (c + m) ≡ some 0 =
      get_elem?-append pre (x ∷ h ++ 0 ∷ 0 ∷ more) m (c + m) (omega arith)
      ∙ get_elem?-append (x ∷ h) (0 ∷ 0 ∷ more) 0 m (omega arith) in
    let first : get_elem? buf' c ≡ some x =
      get_elem?-append pre (x ∷ h ++ 0 ∷ 0 ∷ more) 0 c (omega arith) in
    rw (header_line k (x ∷ h) more buf pre c r eb ec is.0.1 (omega arith)) (
      rw
        (header_passed (parse_content_loop k) buf' (c + m + 2) r c (c + m) nul (omega arith)
          (λ e. is.0.0 (some-injective x 0 (sym first ∙ e))))
        (headers-Accepted hs k rest buf' (pre ++ (x ∷ h ++ 0 ∷ 0 ∷ [])) (c + m + 2) r (omega arith)
          (simp append_assoc)
          (omega (arith, length-append pre (x ∷ h ++ 0 ∷ 0 ∷ []), length-append h (0 ∷ 0 ∷ [])))
          is.1 (omega arith)))
