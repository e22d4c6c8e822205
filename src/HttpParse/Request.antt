-- ===== src/HttpParse/Request.antt =====
-- `parse_request_line` on a request line that was written by its grammar.
use mathlib.Core.List.{append_assoc}
use high_performance_linux_s.Base.{
  ℕ, ◌+◌, ◌≡◌, refl, ◌∙◌, ap, true, some, List, [], ◌∷◌, ◌++◌, arith, length, get_elem?, set, All,
  set-append, get_elem?-append, length-append, All-append,
}
use high_performance_linux_s.HttpParse.CString.{equal_nocase, equal_nocase_n}
use high_performance_linux_s.HttpParse.CString.Words.{
  IsChar, IsBlank, IsWord, AllBlank, word-chars, blank-IsChar, blank-chars, cstr_at, strpbrk-append,
  strspn-append, strspn-word, strspn-letter,
}
use high_performance_linux_s.HttpParse.{
  no_request, CheckState, check_state_header, RequestLine, find_path, accept_path, parse_version,
  parse_request_line, get_method, http_1_1,
}
use high_performance_linux_s.HttpParse.Writes.{write-read}

abbrev pub accepted : List ℕ → List ℕ → RequestLine
accepted buf url = record {
  code = no_request;
  buffer = buf;
  check_state = check_state_header;
  url = some url;
}

module _ (path : List ℕ) (word : IsWord path) (st : CheckState) where
  abbrev url : List ℕ
  url = b'/' ∷ path

  url-IsWord : IsWord url
  url-IsWord = (omega arith, word)

  -- A target that begins with a slash has no scheme.
  find_path-origin :
      (buf pre rest : List ℕ) (p : ℕ)
      → buf ≡ pre ++ (url ++ 0 ∷ rest)
      → length pre ≡ p
      → find_path buf p ≡ some (some p)
  unfolding find_path equal_nocase_n
  find_path-origin buf pre rest p parts e =
      rw (cstr_at buf pre url rest p parts (word-chars url url-IsWord) e)

  accept_path-origin :
      (buf pre rest : List ℕ) (p : ℕ)
      → buf ≡ pre ++ (url ++ 0 ∷ rest)
      → length pre ≡ p
      → accept_path buf (some p) st ≡ some (accepted buf url)
  unfolding accept_path
  accept_path-origin buf pre rest p parts e =
      let first : get_elem? buf p ≡ some b'/' =
        ap (λ b. get_elem? b p) parts ∙ get_elem?-append pre (url ++ 0 ∷ rest) 0 p (omega arith) in
      rw first (rw (cstr_at buf pre url rest p parts (word-chars url url-IsWord) e))

  module _ (d : ℕ) (ds version : List ℕ) (d_blank : IsBlank d) (ds_blank : AllBlank ds)
      (version_word : IsWord version) (version_is : equal_nocase version http_1_1 ≡ true) where
    -- The part of the line behind the target, as it stands and as the parser leaves it.
    abbrev tail_with : ℕ → List ℕ → List ℕ
    tail_with x rest = x ∷ (ds ++ (version ++ 0 ∷ rest))

    parse_version-origin :
        (buf pre rest : List ℕ) (p : ℕ)
        → buf ≡ pre ++ (url ++ tail_with d rest)
        → length pre ≡ p
        → parse_version buf p st ≡ some (accepted (pre ++ (url ++ tail_with 0 rest)) url)
    unfolding parse_version
    parse_version-origin buf pre rest p parts e =
        let there : get_elem? buf (p + length url) ≡ some d =
          ap (λ b. get_elem? b (p + length url)) parts
          ∙ get_elem?-append pre (url ++ tail_with d rest) (length url) (p + length url)
              (omega arith)
          ∙ get_elem?-append url (tail_with d rest) 0 (length url) (omega arith) in
        let spaced =
          All-append IsChar ds version (blank-chars ds ds_blank)
            (word-chars version version_word) in
        let chars =
          All-append IsChar url (d ∷ (ds ++ version)) (word-chars url url-IsWord)
            (ground arith, spaced) in
        let buf' = pre ++ (url ++ tail_with 0 rest) in
        let written : set buf (p + length url) 0 ≡ buf' =
          ap (λ b. set b (p + length url) 0) parts
          ∙ set-append pre (url ++ tail_with d rest) (length url) (p + length url) 0 (omega arith)
          ∙ ap (λ b. pre ++ b) (set-append url (tail_with d rest) 0 (length url) 0 (omega arith)) in
        rw (cstr_at buf pre (url ++ d ∷ (ds ++ version)) rest p (parts ∙ simp append_assoc) chars e)
          (rw (strpbrk-append url d (ds ++ version) url-IsWord d_blank) (
            rw (write-read buf (p + length url) 0 d there) (
              rw written (
                rw
                  (cstr_at buf' (pre ++ (url ++ 0 ∷ [])) (ds ++ version) rest (p + length url + 1)
                    (simp append_assoc) spaced
                    (omega (arith, length-append pre (url ++ 0 ∷ []), length-append url (0 ∷ []))))
                  (rw (strspn-append ds version ds_blank (strspn-word version version_word)) (
                    rw
                      (cstr_at buf' (pre ++ (url ++ 0 ∷ ds)) version rest
                        (p + length url + 1 + length ds) (simp append_assoc)
                        (word-chars version version_word)
                        (omega
                          (arith, length-append pre (url ++ 0 ∷ ds), length-append url (0 ∷ ds))))
                      (rw version_is (
                        rw (find_path-origin buf' pre (ds ++ (version ++ 0 ∷ rest)) p refl e) (
                          accept_path-origin buf' pre (ds ++ (version ++ 0 ∷ rest)) p refl
                            e)))))))))

-- A request line by the grammar `method blanks target blanks version`, for a target that is a path.
pub record RequestParts : Type 0 where
  pub method : List ℕ
  pub b : ℕ
  pub bs : List ℕ
  pub path : List ℕ
  pub d : ℕ
  pub ds : List ℕ
  pub version : List ℕ

pub record IsRequest (r : RequestParts) : Type 0 where
  pub method_word : IsWord r.method
  pub method_is : equal_nocase r.method get_method ≡ true
  pub b_blank : IsBlank r.b
  pub bs_blank : AllBlank r.bs
  pub path_word : IsWord r.path
  pub d_blank : IsBlank r.d
  pub ds_blank : AllBlank r.ds
  pub version_word : IsWord r.version
  pub version_is : equal_nocase r.version http_1_1 ≡ true

-- The line's text, with `x` and `y` at the two separators: blanks before parsing, NULs after it.
abbrev pub request_with : ℕ → ℕ → RequestParts → List ℕ → List ℕ
request_with x y r rest =
    r.method ++ x ∷ (r.bs ++ (b'/' ∷ r.path ++ y ∷ (r.ds ++ (r.version ++ rest))))

-- `parse_request_line` accepts a request line `GET blanks path blanks HTTP/1.1` (the words in either
-- case) that ends in a NUL and has `pre` in front: it reads the path back, turns the state to the
-- headers, and writes a NUL behind the method and behind the path, and nothing else.
pub parse_request_line-request :
    (r : RequestParts) (st : CheckState) (pre rest : List ℕ)
    → IsRequest r
    → parse_request_line (pre ++ request_with r.b r.d r (0 ∷ rest)) (length pre) st
      ≡ some (accepted (pre ++ request_with 0 0 r (0 ∷ rest)) (b'/' ∷ r.path))
unfolding parse_request_line
parse_request_line-request r st pre rest is =
    let target = b'/' ∷ r.path in
    let behind = target ++ r.d ∷ (r.ds ++ (r.version ++ 0 ∷ rest)) in
    let buf = pre ++ (r.method ++ r.b ∷ (r.bs ++ behind)) in
    let buf' = pre ++ (r.method ++ 0 ∷ (r.bs ++ behind)) in
    let back : buf' ≡ (pre ++ (r.method ++ 0 ∷ r.bs)) ++ behind = simp append_assoc in
    let text = target ++ r.d ∷ (r.ds ++ r.version) in
    let version_chars = word-chars r.version is.version_word in
    let end : All IsChar (r.ds ++ r.version) =
      All-append IsChar r.ds r.version (blank-chars r.ds is.ds_blank) version_chars in
    let text_chars : All IsChar text =
      All-append IsChar target (r.d ∷ (r.ds ++ r.version))
        (omega arith, word-chars r.path is.path_word) (blank-IsChar r.d is.d_blank, end) in
    let spaced : All IsChar (r.bs ++ text) =
      All-append IsChar r.bs text (blank-chars r.bs is.bs_blank) text_chars in
    let method_chars = word-chars r.method is.method_word in
    let m = length r.method in
    let there : get_elem? buf (length pre + m) ≡ some r.b =
      get_elem?-append pre (r.method ++ r.b ∷ (r.bs ++ behind)) m (length pre + m) refl
      ∙ get_elem?-append r.method (r.b ∷ (r.bs ++ behind)) 0 m (omega arith) in
    let written : set buf (length pre + m) 0 ≡ buf' =
      set-append pre (r.method ++ r.b ∷ (r.bs ++ behind)) m (length pre + m) 0 refl
      ∙ ap (λ b. pre ++ b) (set-append r.method (r.b ∷ (r.bs ++ behind)) 0 m 0 (omega arith)) in
    rw
      (cstr_at buf pre (r.method ++ r.b ∷ (r.bs ++ text)) rest (length pre) (simp append_assoc)
        (All-append IsChar r.method (r.b ∷ (r.bs ++ text)) method_chars
          (blank-IsChar r.b is.b_blank, spaced))
        refl)
      (rw (strpbrk-append r.method r.b (r.bs ++ text) is.method_word is.b_blank) (
        rw (write-read buf (length pre + m) 0 r.b there) (
          rw written (
            rw (cstr_at buf' pre r.method (r.bs ++ behind) (length pre) refl method_chars refl) (
              rw is.method_is (
                rw
                  (cstr_at buf' (pre ++ (r.method ++ 0 ∷ [])) (r.bs ++ text) rest
                    (length pre + m + 1) (simp append_assoc) spaced
                    (omega (
                      arith,
                      length-append pre (r.method ++ 0 ∷ []),
                      length-append r.method (0 ∷ []),
                    )))
                  (rw (strspn-append r.bs text is.bs_blank (strspn-letter b'/' _ (omega arith))) (
                    parse_version-origin r.path is.path_word st r.d r.ds r.version is.d_blank
                      is.ds_blank is.version_word is.version_is buf' (pre ++ (r.method ++ 0 ∷ r.bs))
                      rest (length pre + m + 1 + length r.bs) back
                      (omega (
                        arith,
                        length-append pre (r.method ++ 0 ∷ r.bs),
                        length-append r.method (0 ∷ r.bs),
                      ))
                    ∙ ap (λ b. some (accepted b target)) (simp append_assoc)))))))))
