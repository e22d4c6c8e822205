-- ===== src/HttpParse/Safety.antt =====
-- Where the line parsers stay, whatever the bytes are.
use mathlib.Core.Option.{some-injective}
use high_performance_linux_s.Base.{
  ℕ, ◌+◌, ◌≤◌, ◌≡◌, refl, ◌∙◌, ap, ◌≢◌, ◌⊎◌, inl, inr, Option, none, some, List, arith, ◌==◌,
  length, get_elem?, set, length-set, get_elem?-set_keep, get_elem?_bound, get_elem?_total,
  Bool-cases, Option-cases, ==→eq, ==→ne,
}
use high_performance_linux_s.Base.Partial.{Defined, defined, Defined-bind, Defined-mono}
use high_performance_linux_s.HttpParse.CString.{
  strpbrk, strspn, strchr, equal_nocase, equal_nocase_n, blanks,
}
use high_performance_linux_s.HttpParse.CString.Bounds.{
  cstr-EndsBy, strpbrk_bound, strspn_bound, strchr_bound, equal_nocase_n_bound,
}
use high_performance_linux_s.HttpParse.{
  no_request, get_request, bad_request, CheckState, RequestLine, find_path, accept_path,
  split_version, parse_version, split_method, parse_request_line, parse_headers, get_method,
  http_1_1, http_scheme, host_header,
}
use high_performance_linux_s.HttpParse.Writes.{write-ok}

-- What the parsers of a line that ends at the NUL at `j` keep: the buffer's size and that NUL.
pub record Kept (buf : List ℕ) (r : RequestLine) : Type 0 where
  pub size : length r.buffer ≡ length buf
  pub code : (r.code ≡ no_request) ⊎ (r.code ≡ bad_request)

module _ (j : ℕ) (st : CheckState) where
  accept_path-Kept :
      (buf : List ℕ) (p : Option ℕ)
      → get_elem? buf j ≡ some 0
      → ((url : ℕ) → p ≡ some url → url ≤ j)
      → Defined (Kept buf) (accept_path buf p st)
  unfolding accept_path
  accept_path-Kept buf none nul le = defined (record { size = refl; code = inr refl })
  accept_path-Kept buf (some url) nul le =
      let (v, first) =
        get_elem?_total buf url (omega (arith, le url refl, get_elem?_bound buf j 0 nul)) in
      rw first (elim (Bool-cases (v == b'/')) [
        | inl y ↦ rw y (
            Defined-bind (cstr-EndsBy buf url j (le url refl) nul)
              λ s e. defined (record { size = refl; code = inl refl }))
        | inr n ↦ rw n (defined (record { size = refl; code = inr refl }))
      ])

  find_path-le :
      (buf : List ℕ) (url : ℕ)
      → get_elem? buf j ≡ some 0
      → url ≤ j
      → Defined (λ p. (i : ℕ) → p ≡ some i → i ≤ j) (find_path buf url)
  unfolding find_path
  find_path-le buf url nul le = Defined-bind (cstr-EndsBy buf url j le nul) λ s e.
      elim (Bool-cases (equal_nocase_n 7 s http_scheme)) [
        | inl y ↦
            let long = equal_nocase_n_bound 7 s http_scheme y (omega arith) in
            rw y (
              Defined-bind (cstr-EndsBy buf (url + 7) j (omega (arith, e.within)) nul) λ rest e'.
                elim (Option-cases (strchr rest b'/')) [
                  | inl null ↦ rw null (defined (λ i q. cc))
                  | inr (i, found) ↦
                      rw found (
                        defined (λ i' q. ground (arith, e'.within, strchr_bound rest b'/' i found)))
                ])
        | inr n ↦ rw n (defined (λ i q. ground arith))
      ]

  parse_version-Kept :
      (buf : List ℕ) (url : ℕ)
      → get_elem? buf j ≡ some 0
      → url ≤ j
      → Defined (Kept buf) (parse_version buf url st)
  unfolding parse_version split_version
  parse_version-Kept buf url nul le = Defined-bind (cstr-EndsBy buf url j le nul) λ s e.
      elim (Option-cases (strpbrk s blanks)) [
        | inl missing ↦ rw missing (defined (record { size = refl; code = inr refl }))
        | inr (v, found) ↦
            let buf' = set buf (url + v) 0 in
            let nul' = get_elem?-set_keep buf (url + v) j 0 nul in
            let size = length-set buf (url + v) 0 in
            let inside = strpbrk_bound s blanks v found in
            let last = get_elem?_bound buf j 0 nul in
            rw (found, write-ok buf (url + v) 0 (omega (arith, e.within)))
              (Defined-bind (cstr-EndsBy buf' (url + v + 1) j (omega (arith, e.within)) nul')
                λ t e₁.
                  Defined-bind
                    (cstr-EndsBy buf' (url + v + 1 + strspn t blanks) j
                      (omega (arith, e₁.within, strspn_bound t blanks)) nul')
                    λ w e₂. elim (Bool-cases (equal_nocase w http_1_1)) [
                      | inl y ↦ rw y (
                          Defined-bind (find_path-le buf' url nul' le) λ p le'.
                            Defined-mono (accept_path-Kept buf' p nul' le')
                              λ r k. record { size = k.size ∙ size; code = k.code })
                      | inr n ↦ rw n (defined (record { size = size; code = inr refl }))
                    ])
      ]

  -- On a line that ends at a NUL within the buffer, `parse_request_line` is defined.
  pub parse_request_line-Kept :
      (buf : List ℕ) (temp : ℕ)
      → get_elem? buf j ≡ some 0
      → temp ≤ j
      → Defined (Kept buf) (parse_request_line buf temp st)
  unfolding parse_request_line split_method
  parse_request_line-Kept buf temp nul le = Defined-bind (cstr-EndsBy buf temp j le nul) λ s e.
      elim (Option-cases (strpbrk s blanks)) [
        | inl missing ↦ rw missing (defined (record { size = refl; code = inr refl }))
        | inr (u, found) ↦
            let buf' = set buf (temp + u) 0 in
            let nul' = get_elem?-set_keep buf (temp + u) j 0 nul in
            let size = length-set buf (temp + u) 0 in
            let inside = strpbrk_bound s blanks u found in
            let last = get_elem?_bound buf j 0 nul in
            rw (found, write-ok buf (temp + u) 0 (omega (arith, e.within)))
              (Defined-bind (cstr-EndsBy buf' temp j le nul') λ method e₁.
                elim (Bool-cases (equal_nocase method get_method)) [
                  | inl y ↦ rw y (
                      Defined-bind
                        (cstr-EndsBy buf' (temp + u + 1) j (omega (arith, e.within)) nul')
                        λ t e₂.
                          Defined-mono
                            (parse_version-Kept buf' (temp + u + 1 + strspn t blanks) nul'
                              (omega (arith, e₂.within, strspn_bound t blanks)))
                            λ r k. record { size = k.size ∙ size; code = k.code })
                  | inr n ↦ rw n (defined (record { size = size; code = inr refl }))
                ])
      ]

-- `parse_headers` is defined on such a line, and ends the request exactly at the empty line.
pub parse_headers-code :
    (j : ℕ) (buf : List ℕ) (temp : ℕ)
    → get_elem? buf j ≡ some 0
    → temp ≤ j
    → Defined
        (λ r.
          (r.0 ≡ get_request) × (get_elem? buf temp ≡ some 0)
          ⊎ (r.0 ≡ no_request) × (get_elem? buf temp ≢ some 0))
        (parse_headers buf temp)
unfolding parse_headers
parse_headers-code j buf temp nul le =
    let (v, first) = get_elem?_total buf temp (omega (arith, get_elem?_bound buf j 0 nul)) in
    rw first (elim (Bool-cases (v == 0)) [
      | inl y ↦ rw y (defined (inl (refl, ap some (==→eq v 0 y))))
      | inr n ↦ rw n (
          Defined-bind (cstr-EndsBy buf temp j le nul) λ s e.
            elim (Bool-cases (equal_nocase_n 5 s host_header)) [
              | inl y ↦
                  let long = equal_nocase_n_bound 5 s host_header y (omega arith) in
                  rw y (
                    Defined-bind (cstr-EndsBy buf (temp + 5) j (omega (arith, e.within)) nul)
                      λ t e₁.
                        Defined-bind
                          (cstr-EndsBy buf (temp + 5 + strspn t blanks) j
                            (omega (arith, e₁.within, strspn_bound t blanks)) nul)
                          λ host e₂. defined (inr (refl, λ q. ==→ne v 0 n (some-injective v 0 q))))
              | inr m ↦ rw m (defined (inr (refl, λ q. ==→ne v 0 n (some-injective v 0 q))))
            ])
    ])
