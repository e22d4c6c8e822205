-- ===== src/HttpParse/Whole/Request.antt =====
-- The headline of the parser: request line, headers and empty line in one piece.
use mathlib.Core.Path.{ap₂}
use mathlib.Core.List.{append_assoc}
use native.Mathlib.Numerals.{add-one}
use high_performance_linux_s.Base.{
  ℕ, suc, ◌+◌, ◌≤◌, ◌<◌, ◌≡◌, refl, ◌∙◌, sym, some, List, [], ◌∷◌, ◌++◌, arith, length, All,
  length-append,
}
use high_performance_linux_s.Base.Partial.{Defined}
use high_performance_linux_s.HttpParse.{
  line, line_ok, check_state_request_line, check_state_header, Conn, parse_line, parse_one,
  handle_line, parse_content_loop, parse_content,
}
use high_performance_linux_s.HttpParse.Request.{
  RequestParts, IsRequest, request_with, parse_request_line-request,
}
use high_performance_linux_s.HttpParse.Whole.{
  IsPlain, IsHeader, headers_text, headers_size, parse_line-crlf, Accepted, headers-Accepted,
}

abbrev pub request_size : RequestParts → ℕ
request_size r =
    length r.method + 1 + length r.bs + 1 + length r.path + 1 + length r.ds + length r.version

request_with-append :
    (x y : ℕ) (r : RequestParts) (rest : List ℕ)
    → request_with x y r [] ++ rest ≡ request_with x y r rest
request_with-append x y r rest = simp append_assoc

length-request_with :
    (x y : ℕ) (r : RequestParts) (rest : List ℕ)
    → length (request_with x y r rest) ≡ request_size r + length rest
length-request_with x y r rest = simp length-append (omega arith)

length-lt-headers_size : (hs : List (List ℕ)) → length hs < headers_size hs
length-lt-headers_size [] = omega arith
length-lt-headers_size (h ∷ hs) = omega (arith, length-lt-headers_size hs)

-- A connection that has just been set up, with a request in its buffer.
abbrev pub fresh : List ℕ → ℕ → Conn
fresh buf n = record {
  buffer = buf;
  checked_index = 0;
  check_state = check_state_request_line;
  read_index = n;
  start_line = 0;
}

module _ (r : RequestParts) (is : IsRequest r) (k : ℕ) (ht : List ℕ) (n : ℕ) where
  -- The first round.
  request_round :
      All IsPlain (request_with r.b r.d r [])
      → request_size r + 2 ≤ n
      → parse_content_loop (suc k) (fresh (request_with r.b r.d r (13 ∷ 10 ∷ ht)) n)
        ≡ parse_content_loop k (record {
          buffer = request_with 0 0 r (0 ∷ 0 ∷ ht);
          checked_index = request_size r + 2;
          check_state = check_state_header;
          read_index = n;
          start_line = request_size r + 2;
        })
  unfolding parse_content_loop handle_line parse_one
  request_round plain le =
      let text = request_with r.b r.d r [] in
      let buf = request_with r.b r.d r (13 ∷ 10 ∷ ht) in
      let size : length text ≡ request_size r = omega (arith, length-request_with r.b r.d r []) in
      let end : length text + 2 ≡ request_size r + 2 = omega arith in
      let got : parse_line buf 0 n
          ≡ some (line line_ok (request_with r.b r.d r (0 ∷ 0 ∷ ht)) (request_size r + 2)) =
        parse_line-crlf text ht buf [] 0 n (sym (request_with-append r.b r.d r (13 ∷ 10 ∷ ht))) refl
          plain (omega arith)
        ∙ ap₂ (λ b i. some (line line_ok b i)) (request_with-append r.b r.d r (0 ∷ 0 ∷ ht))
            (omega arith) in
      rw got (rw (parse_request_line-request r check_state_request_line [] (0 ∷ ht) is))

-- A request whose line is `method blanks /path blanks version`, with the method GET and the version
-- HTTP/1.1 in any case of letters, then any number of headers that are not empty, and the empty
-- line, is accepted with GET_REQUEST when it stands whole in the buffer of a fresh connection,
-- whatever bytes follow it.
pub parse_content-request :
    (r : RequestParts) (hs : List (List ℕ)) (rest : List ℕ) (n : ℕ)
    → IsRequest r
    → All IsPlain (request_with r.b r.d r [])
    → All IsHeader hs
    → request_size r + 2 + headers_size hs ≤ n
    → Defined Accepted
        (parse_content (fresh (request_with r.b r.d r (13 ∷ 10 ∷ headers_text hs rest)) n))
unfolding parse_content
parse_content-request r hs rest n is plain headers le =
    let ht = headers_text hs rest in
    let pre = request_with 0 0 r (0 ∷ 0 ∷ []) in
    rw (add-one, request_round r is n ht n plain (omega arith))
      (headers-Accepted hs n rest (request_with 0 0 r (0 ∷ 0 ∷ ht)) pre (request_size r + 2) n
        (omega (arith, length-lt-headers_size hs)) (simp append_assoc)
        (omega (arith, length-request_with 0 0 r (0 ∷ 0 ∷ []))) headers le)
