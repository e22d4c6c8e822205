-- ===== src/HttpParse/Tests.antt =====
-- The parser at concrete requests.
use high_performance_linux_s.SystemCalls.{Reply}
use high_performance_linux_s.SystemCalls.Descriptors.{start}
use high_performance_linux_s.Servers.Clean.{EndsClean}
use high_performance_linux_s.Servers.Sample.{libc, returning, two_arguments}
use high_performance_linux_s.HttpParse.Main.{http_main, http_main-EndsClean}
use high_performance_linux_s.Base.{pos}
use Prim.Native.Char.{code}
use Prim.Native.String.{String}
use mathlib.Core.Option
use high_performance_linux_s.Base.{
  ℕ, ◌≡◌, ◌≢◌, ◌⊎◌, refl, inl, inr, Option, none, some, List, [], ◌∷◌, ◌++◌, arith, length,
  replicate,
}
use high_performance_linux_s.Base.Partial.{◌>>=◌, Defined}
use high_performance_linux_s.HttpParse.CString.{cstr, strpbrk, strspn, equal_nocase, equal_nocase_n}
use high_performance_linux_s.HttpParse.{
  HttpCode, no_request, get_request, check_state_request_line, Conn, parse_line, parse_request_line,
  parse_headers, parse_content, write,
}
use high_performance_linux_s.HttpParse.Lines.{LineSpec, parse_line-LineSpec}
use high_performance_linux_s.HttpParse.Content.{Parsed, parse_content-Parsed}
use high_performance_linux_s.HttpParse.Safety.{parse_headers-code}
use high_performance_linux_s.HttpParse.Request.{
  RequestParts, IsRequest, accepted, request_with, parse_request_line-request,
}
use high_performance_linux_s.HttpParse.Whole.{Accepted, headers_text}
use high_performance_linux_s.HttpParse.Whole.Request.{fresh, parse_content-request}
use high_performance_linux_s.HttpParse.Server.{
  correct_text, write_at, receive, IsRound, receive-replies, receive-ignores, serve, bytes, sent,
}

abbrev codes : String → List ℕ
codes String.[] = []
codes (String.◌∷◌ c s) = code c ∷ codes s

abbrev crlf : List ℕ
crlf = 13 ∷ 10 ∷ []

abbrev request : List ℕ
request = codes "GET  /index.html HTTP/1.1" ++ (crlf ++ (codes "Host: a" ++ (crlf ++ crlf)))

run : List ℕ → Option HttpCode
run s =
    Option.map (λ (c : Conn × HttpCode). c.1)
      (parse_content (fresh (s ++ replicate 8 0) (length s)))

request-run : run request ≡ some get_request
unfolding run parse_content parse_line parse_request_line parse_headers cstr strpbrk strspn
    equal_nocase equal_nocase_n write
request-run = refl

-- A request in two pieces.
abbrev halfway : Conn
halfway = fresh (replicate 60 0) 0

split_run :
    serve (bytes (codes "GET /i HTTP/1.1") ∷ bytes (crlf ++ crlf) ∷ []) halfway
    ≢ some (sent correct_text)
unfolding serve parse_content parse_line write_at write
split_run e = cc

parse_line-LineSpec_example :
    Defined (LineSpec (codes "ab" ++ crlf) 0 4) (parse_line (codes "ab" ++ crlf) 0 4)
parse_line-LineSpec_example =
    parse_line-LineSpec (codes "ab" ++ crlf) 0 4 (omega arith) (omega arith)

parse_content-Parsed_example :
    Defined
      (Parsed (fresh request (length request)))
      (parse_content (fresh request (length request)))
parse_content-Parsed_example = parse_content-Parsed (fresh request (length request)) (omega arith)

parse_headers-code_example :
    Defined
      (λ r.
        (r.0 ≡ get_request) × (◌≡◌ {A = Option ℕ} (some 65) (some 0))
        ⊎ (r.0 ≡ no_request) × (◌≢◌ {A = Option ℕ} (some 65) (some 0)))
      (parse_headers (65 ∷ 0 ∷ []) 0)
parse_headers-code_example = parse_headers-code 1 (65 ∷ 0 ∷ []) 0 refl (omega arith)

abbrev sample : RequestParts
sample = record {
  method = codes "get";
  b = 32;
  bs = 32 ∷ [];
  path = codes "a";
  d = 9;
  ds = [];
  version = codes "http/1.1";
}

sample-IsRequest : IsRequest sample
unfolding equal_nocase
sample-IsRequest = record {
  method_word = omega arith;
  method_is = refl;
  b_blank = inl refl;
  bs_blank = (inl refl, tt);
  path_word = omega arith;
  d_blank = inr refl;
  ds_blank = tt;
  version_word = omega arith;
  version_is = refl;
}

parse_request_line-request_example :
    parse_request_line (crlf ++ request_with 32 9 sample (0 ∷ [])) 2 check_state_request_line
    ≡ some (accepted (crlf ++ request_with 0 0 sample (0 ∷ [])) (codes "/a"))
parse_request_line-request_example =
    parse_request_line-request sample check_state_request_line crlf [] sample-IsRequest

parse_content-request_example : Defined Accepted (
    parse_content (
      fresh (request_with 32 9 sample (13 ∷ 10 ∷ headers_text (codes "Host: a" ∷ []) (7 ∷ []))) 40))
parse_content-request_example =
    parse_content-request sample (codes "Host: a" ∷ []) (7 ∷ []) 40 sample-IsRequest (omega arith)
      (omega arith) (omega arith)

receive-replies_example :
    Defined (IsRound halfway (codes "PUT" ++ crlf)) (receive halfway (codes "PUT" ++ crlf))
receive-replies_example =
    receive-replies halfway (codes "PUT" ++ crlf) (omega arith) (omega arith) (omega arith)

abbrev scanned : Conn
scanned = record halfway { checked_index = 15; read_index = 15 }

receive-ignores_example : receive scanned (crlf ++ crlf) ≡ (do
  stored ← write_at scanned.buffer 15 (crlf ++ crlf)
  some (record scanned { buffer = stored; read_index = 4 }, none))
receive-ignores_example = receive-ignores scanned (crlf ++ crlf) (omega arith)

-- A request for another kind of file in two pieces, then the request's answer.
abbrev main_replies : List Reply
main_replies =
    returning (pos 3)
    ∷ returning (pos 0)
    ∷ returning (pos 0)
    ∷ returning (pos 4)
    ∷ record (returning (pos 3)) { bytes = b'G' ∷ b'E' ∷ b'T' ∷ [] }
    ∷ record (returning (pos 5)) { bytes = b'G' ∷ b'O' ∷ 32 ∷ 13 ∷ 10 ∷ [] }
    ∷ returning (pos 16)
    ∷ returning (pos 0)
    ∷ returning (pos 0)
    ∷ []

http_main-EndsClean_example : EndsClean (http_main libc two_arguments (start main_replies))
http_main-EndsClean_example = http_main-EndsClean libc two_arguments main_replies
