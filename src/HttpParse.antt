-- ===== src/HttpParse.antt =====
-- src/http_parse.cc: the line splitter, the two line parsers and the loop that drives them.
-- The buffer is a list of bytes; a read or a write outside it is undefined behaviour, `none`.
-- A function that takes references returns their new values.
pub mod CString
pub mod Writes
pub mod Safety
pub mod Server
pub mod Main
pub mod Whole
pub mod Request
pub mod Content
pub mod Lines
mod Tests
use high_performance_linux_s.Base.{
  ℕ, zero, suc, ◌+◌, ◌-◌, ◌≡◌, Bool, true, false, Option, none, some, List, [], ◌∷◌, ltb, ◌==◌,
  if◌then◌else◌, get_elem?, set, length, replicate,
}
use high_performance_linux_s.Base.Partial.{◌>>=◌}
use high_performance_linux_s.HttpParse.CString.{
  cstr, strpbrk, strspn, strchr, equal_nocase, equal_nocase_n, blanks,
}

pub data CheckState : Type 0 where
  check_state_request_line check_state_header : CheckState

pub data LineStatus : Type 0 where
  line_ok line_bad line_open : LineStatus

pub data HttpCode : Type 0 where
  no_request get_request bad_request forbidden_request internal_error closed_connection : HttpCode

abbrev pub buffer_size : ℕ
buffer_size = 4096

abbrev pub cr : ℕ
cr = 13

abbrev pub lf : ℕ
lf = 10

-- `buffer[i] = x`
unfoldable pub write : List ℕ → (i x : ℕ) → Option (List ℕ)
write buf i x = if ltb i (length buf) then some (set buf i x) else none

pub record Line : Type 0 where
  pub status : LineStatus
  pub buffer : List ℕ
  pub checked_index : ℕ

abbrev pub line : LineStatus → List ℕ → ℕ → Line
line s b c = record { status = s; buffer = b; checked_index = c }

-- The branch for '\r' at `c`.
line_at_cr : List ℕ → (c r : ℕ) → Option Line
line_at_cr buf c r = if c + 1 == r then some (line line_open buf c) else (do
  following ← get_elem? buf (c + 1)
  if following == lf
      then (do buf₁ ← write buf c 0; buf₂ ← write buf₁ (c + 1) 0; some (line line_ok buf₂ (c + 2)))
      else some (line line_bad buf c))

-- The branch for '\n' at `c`.
line_at_lf : List ℕ → (c : ℕ) → Option Line
line_at_lf buf c =
    if ltb 1 c
    then (do
      preceding ← get_elem? buf (c - 1)
      if preceding == cr
          then (do
            buf₁ ← write buf (c - 1) 0
            buf₂ ← write buf₁ c 0
            some (line line_ok buf₂ (c + 1)))
          else some (line line_bad buf c))
    else some (line line_bad buf c)

-- The `for` loop, with `n` rounds left: `c + n` is `r`.
parse_line_loop : ℕ → List ℕ → (c r : ℕ) → Option Line
parse_line_loop zero buf c r = some (line line_open buf c)
parse_line_loop (suc n) buf c r = do
  temp ← get_elem? buf c
  if temp == cr
      then line_at_cr buf c r
      else if temp == lf
      then line_at_lf buf c
      else parse_line_loop n buf (c + 1) r

pub parse_line : List ℕ → (checked_index read_index : ℕ) → Option Line
unfolding parse_line_loop line_at_cr line_at_lf
parse_line buf c r = parse_line_loop (r - c) buf c r

abbrev pub get_method : List ℕ
get_method = b'G' ∷ b'E' ∷ b'T' ∷ []

abbrev pub http_1_1 : List ℕ
http_1_1 = b'H' ∷ b'T' ∷ b'T' ∷ b'P' ∷ b'/' ∷ b'1' ∷ b'.' ∷ b'1' ∷ []

abbrev pub http_scheme : List ℕ
http_scheme = b'h' ∷ b't' ∷ b't' ∷ b'p' ∷ b':' ∷ b'/' ∷ b'/' ∷ []

abbrev pub host_header : List ℕ
host_header = b'H' ∷ b'o' ∷ b's' ∷ b't' ∷ b':' ∷ []

-- What `parse_request_line` returns and writes; `url` is what it prints, if it gets that far.
pub record RequestLine : Type 0 where
  pub code : HttpCode
  pub buffer : List ℕ
  pub check_state : CheckState
  pub url : Option (List ℕ)

abbrev pub refused : List ℕ → CheckState → RequestLine
refused buf st = record { code = bad_request; buffer = buf; check_state = st; url = none }

-- The address of the path: behind the scheme and the host, if there is a scheme.
find_path : List ℕ → ℕ → Option (Option ℕ)
find_path buf url = do
  s ← cstr buf url
  if equal_nocase_n 7 s http_scheme
      then (do
        rest ← cstr buf (url + 7)
        elim (strchr rest b'/') [ none ↦ some none | some i ↦ some (some (url + 7 + i)) ])
      else some (some url)

-- From `if(!url || url[0] != '/')` on.
accept_path : List ℕ → Option ℕ → CheckState → Option RequestLine
accept_path buf none st = some (refused buf st)
accept_path buf (some url) st = do
  first ← get_elem? buf url
  if first == b'/'
      then (do
        s ← cstr buf url
        some (record {
          code = no_request;
          buffer = buf;
          check_state = check_state_header;
          url = some s;
        }))
      else some (refused buf st)

-- From the test of `version` on; `v` is the blank behind the target at `url`.
split_version : List ℕ → ℕ → CheckState → Option ℕ → Option RequestLine
split_version buf url st none = some (refused buf st)
split_version buf url st (some v) = do
  buf' ← write buf (url + v) 0
  let version = url + v + 1
  t ← cstr buf' version
  w ← cstr buf' (version + strspn t blanks)
  if equal_nocase w http_1_1
      then (do path ← find_path buf' url; accept_path buf' path st)
      else some (refused buf' st)

-- From the search for the version on; `url` is the address of the request's target.
parse_version : List ℕ → ℕ → CheckState → Option RequestLine
unfolding split_version find_path accept_path
parse_version buf url st = do s ← cstr buf url; split_version buf url st (strpbrk s blanks)

-- From the test of `url` on; `u` is the blank behind the method at `temp`.
split_method : List ℕ → ℕ → CheckState → Option ℕ → Option RequestLine
split_method buf temp st none = some (refused buf st)
split_method buf temp st (some u) = do
  buf' ← write buf (temp + u) 0
  let url = temp + u + 1
  method ← cstr buf' temp
  if equal_nocase method get_method
      then (do t ← cstr buf' url; parse_version buf' (url + strspn t blanks) st)
      else some (refused buf' st)

pub parse_request_line : List ℕ → (temp : ℕ) → CheckState → Option RequestLine
unfolding parse_version split_method
parse_request_line buf temp st = do s ← cstr buf temp; split_method buf temp st (strpbrk s blanks)

-- The printed host is part of the result.
pub parse_headers : List ℕ → (temp : ℕ) → Option (HttpCode × Option (List ℕ))
parse_headers buf temp = do
  first ← get_elem? buf temp
  if first == 0 then some (get_request, none) else (do
    s ← cstr buf temp
    if equal_nocase_n 5 s host_header
        then (do
          t ← cstr buf (temp + 5)
          host ← cstr buf (temp + 5 + strspn t blanks)
          some (no_request, some host))
        else some (no_request, none))

-- What `main` keeps for a connection.
pub record Conn : Type 0 where
  pub buffer : List ℕ
  pub checked_index : ℕ
  pub check_state : CheckState
  pub read_index : ℕ
  pub start_line : ℕ

-- The body of the `switch`; `none` on the right goes round the loop again. The `default` branch is
-- left out: the enumeration has no third value.
parse_one : CheckState → Conn → ℕ → Option (Conn × Option HttpCode)
parse_one check_state_request_line c temp = do
  r ← parse_request_line c.buffer temp c.check_state
  some (
    record c { buffer = r.buffer; check_state = r.check_state },
    elim r.code [ bad_request ↦ some bad_request | _ ↦ none ],
  )
parse_one check_state_header c temp = do
  (code, _) ← parse_headers c.buffer temp
  some (c, elim code [ bad_request ↦ some bad_request | get_request ↦ some get_request | _ ↦ none ])

-- From the value of `parse_line` to the next round, `again`, or to a `return`.
handle_line : LineStatus → (Conn → Option (Conn × HttpCode)) → Conn → Option (Conn × HttpCode)
handle_line line_ok again c = do
  (c', code) ← parse_one c.check_state (record c { start_line = c.checked_index }) c.start_line
  elim code [ some r ↦ some (c', r) | none ↦ again c' ]
handle_line line_open again c = some (c, no_request)
handle_line line_bad again c = some (c, bad_request)

-- Without fuel there is no result either; `read_index + 1` rounds are enough.
pub parse_content_loop : ℕ → Conn → Option (Conn × HttpCode)
parse_content_loop zero c = none
parse_content_loop (suc k) c = do
  l ← parse_line c.buffer c.checked_index c.read_index
  handle_line l.status (parse_content_loop k)
      (record c { buffer = l.buffer; checked_index = l.checked_index })

pub parse_content : Conn → Option (Conn × HttpCode)
unfolding parse_content_loop parse_one handle_line
parse_content c = parse_content_loop (c.read_index + 1) c
