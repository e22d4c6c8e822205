-- ===== src/HttpParse/Content.antt =====
-- `parse_content` on every content of the buffer.
use mathlib.Core.Path.{ap₂}
use high_performance_linux_s.Base.{
  ℕ, zero, suc, ◌+◌, ◌-◌, ◌≤◌, ◌<◌, ◌≡◌, refl, ◌∙◌, ap, ◌⊎◌, inl, inr, Option, none, some, List,
  arith, length, get_elem?, set, length-set, get_elem?-set_self,
}
use high_performance_linux_s.Base.Partial.{Defined, defined, Defined-bind, Defined-mono}
use high_performance_linux_s.HttpParse.{
  Line, line, line_ok, line_bad, line_open, HttpCode, no_request, get_request, bad_request,
  CheckState, check_state_request_line, check_state_header, Conn, parse_line, parse_one,
  handle_line, LineStatus, parse_content_loop, parse_content,
}
use high_performance_linux_s.HttpParse.Lines.{
  LineSpec, no_break, lone_cr, crlf, bad_cr, late_lf, bad_lf, parse_line-LineSpec,
}
use high_performance_linux_s.HttpParse.Safety.{parse_request_line-Kept, parse_headers-code}

-- What a caller needs of a line: the buffer's size, the new index, and the NUL in front of it.
pub record Within (buf : List ℕ) (c r : ℕ) (l : Line) : Type 0 where
  pub size : length l.buffer ≡ length buf
  pub low : c ≤ l.checked_index
  pub high : l.checked_index ≤ r
  pub step : l.status ≡ line_ok → c < l.checked_index
  pub nul : l.status ≡ line_ok → get_elem? l.buffer (l.checked_index - 1) ≡ some 0

module _ (buf : List ℕ) (c r : ℕ) where
  ended-Within :
      (i : ℕ) (l : Line)
      → i + 1 < length buf
      → c ≤ i + 1
      → i + 2 ≤ r
      → l ≡ record { status = line_ok; buffer = set (set buf i 0) (i + 1) 0; checked_index = i + 2 }
      → Within buf c r l
  ended-Within i l lt low high e =
      let last : get_elem? (set (set buf i 0) (i + 1) 0) (i + 1) ≡ some 0 =
        get_elem?-set_self (set buf i 0) (i + 1) 0 (rw (length-set buf i 0) lt) in
      let at : i + 2 - 1 ≡ i + 1 = omega arith in
      rw e (record {
        size = length-set (set buf i 0) (i + 1) 0 ∙ length-set buf i 0;
        low = omega arith;
        high = high;
        step = λ _. omega arith;
        nul = λ _. ap (get_elem? (set (set buf i 0) (i + 1) 0)) at ∙ last;
      })

  LineSpec-Within : (l : Line) → r ≤ length buf → LineSpec buf c r l → Within buf c r l
  LineSpec-Within l bound (no_break m e p q) =
      rw q (record {
        size = refl;
        low = omega arith;
        high = omega arith;
        step = λ x. cc;
        nul = λ x. cc;
      })
  LineSpec-Within l bound (lone_cr m e p at q) =
      rw q (record {
        size = refl;
        low = omega arith;
        high = omega arith;
        step = λ x. cc;
        nul = λ x. cc;
      })
  LineSpec-Within l bound (crlf m le p at at' q) =
      ended-Within (c + m) l (omega arith) (omega arith) le q
  LineSpec-Within l bound (bad_cr m v le p at at' ne q) =
      rw q (record {
        size = refl;
        low = omega arith;
        high = omega arith;
        step = λ x. cc;
        nul = λ x. cc;
      })
  LineSpec-Within l bound (late_lf m le p at big at' q) =
      let at : c + m ≡ c + m - 1 + 1 = omega arith in
      let to : c + m + 1 ≡ c + m - 1 + 2 = omega arith in
      ended-Within (c + m - 1) l (omega arith) (omega arith) (omega arith)
        (q ∙ ap₂ (λ (a b : ℕ). line line_ok (set (set buf (c + m - 1) 0) a 0) b) at to)
  LineSpec-Within l bound (bad_lf m le p at side q) =
      rw q (record {
        size = refl;
        low = omega arith;
        high = omega arith;
        step = λ x. cc;
        nul = λ x. cc;
      })

pub parse_line-Within :
    (buf : List ℕ) (c r : ℕ)
    → c ≤ r
    → r ≤ length buf
    → Defined (Within buf c r) (parse_line buf c r)
parse_line-Within buf c r le bound =
    Defined-mono (parse_line-LineSpec buf c r le bound) λ l s. LineSpec-Within buf c r l bound s

-- The indices of a connection are in order, and inside the buffer.
pub record IsValid (c : Conn) : Type 0 where
  pub started : c.start_line ≤ c.checked_index
  pub checked : c.checked_index ≤ c.read_index
  pub bounded : c.read_index ≤ length c.buffer

-- What one line changes.
record Advanced (c : Conn) (r : Conn × Option HttpCode) : Type 0 where
  size : length r.0.buffer ≡ length c.buffer
  start_line : r.0.start_line ≡ c.start_line
  checked_index : r.0.checked_index ≡ c.checked_index
  read_index : r.0.read_index ≡ c.read_index
  code : (r.1 ≡ none) ⊎ (r.1 ≡ some get_request) ⊎ (r.1 ≡ some bad_request)

parse_one-Advanced :
    (st : CheckState) (c : Conn) (temp j : ℕ)
    → get_elem? c.buffer j ≡ some 0
    → temp ≤ j
    → Defined (Advanced c) (parse_one st c temp)
unfolding parse_one
parse_one-Advanced check_state_request_line c temp j nul le =
    Defined-bind (parse_request_line-Kept j c.check_state c.buffer temp nul le) λ r k.
      defined (record {
        size = k.size;
        start_line = refl;
        checked_index = refl;
        read_index = refl;
        code = ground arith;
      })
parse_one-Advanced check_state_header c temp j nul le =
    Defined-bind (parse_headers-code j c.buffer temp nul le) λ r k. defined (record {
      size = refl;
      start_line = refl;
      checked_index = refl;
      read_index = refl;
      code = ground arith;
    })

-- What `parse_content` leaves.
pub record Parsed (c : Conn) (r : Conn × HttpCode) : Type 0 where
  pub valid : IsValid r.0
  pub size : length r.0.buffer ≡ length c.buffer
  pub read_index : r.0.read_index ≡ c.read_index
  pub forward : c.checked_index ≤ r.0.checked_index
  pub code : (r.1 ≡ no_request) ⊎ (r.1 ≡ get_request) ⊎ (r.1 ≡ bad_request)

moved :
    (c : Conn) (l : Line)
    → IsValid c
    → Within c.buffer c.checked_index c.read_index l
    → IsValid (record c { buffer = l.buffer; checked_index = l.checked_index })
moved c l v w = record {
  started = omega (arith, v.started, w.low);
  checked = w.high;
  bounded = omega (arith, v.bounded, w.size);
}

module _ (again : Conn → Option (Conn × HttpCode)) (c c₁ : Conn) where
  -- Behind a complete line, if the next rounds do what they should.
  line_ok-Parsed :
      IsValid c₁
      → c₁.start_line < c₁.checked_index
      → get_elem? c₁.buffer (c₁.checked_index - 1) ≡ some 0
      → length c₁.buffer ≡ length c.buffer
      → c₁.read_index ≡ c.read_index
      → c.checked_index < c₁.checked_index
      → ((c₂ : Conn)
          → IsValid c₂
          → c₂.read_index ≡ c.read_index
          → c.checked_index < c₂.checked_index
          → Defined (Parsed c₂) (again c₂))
      → Defined (Parsed c) (handle_line line_ok again c₁)
  unfolding handle_line
  line_ok-Parsed v began nul size read step next =
      Defined-bind
        (parse_one-Advanced c₁.check_state (record c₁ { start_line = c₁.checked_index })
          c₁.start_line (c₁.checked_index - 1) nul (omega arith))
        λ (c₂, code) a.
          let v₂ : IsValid c₂ = record {
            started = omega (arith, a.start_line, a.checked_index);
            checked = omega (arith, a.checked_index, a.read_index, v.checked);
            bounded = omega (arith, a.read_index, a.size, v.bounded);
          } in
          finish c₂ code v₂ a
    where
      finish :
          (c₂ : Conn) (code : Option HttpCode)
          → IsValid c₂
          → Advanced (record c₁ { start_line = c₁.checked_index }) (c₂, code)
          → Defined (Parsed c) (elim code [ some r ↦ some (c₂, r) | none ↦ again c₂ ])
      finish c₂ (some r) v₂ a = defined (record {
        valid = v₂;
        size = a.size ∙ size;
        read_index = a.read_index ∙ read;
        forward = omega (arith, a.checked_index);
        code = ground (arith, a.code);
      })
      finish c₂ none v₂ a =
          Defined-mono (next c₂ v₂ (a.read_index ∙ read) (omega (arith, a.checked_index))) λ r p.
            record {
              valid = p.valid;
              size = p.size ∙ a.size ∙ size;
              read_index = p.read_index ∙ a.read_index ∙ read;
              forward = omega (arith, p.forward, a.checked_index);
              code = p.code;
            }

handle_line-Parsed :
    (s : LineStatus) (again : Conn → Option (Conn × HttpCode)) (c : Conn) (l : Line)
    → IsValid c
    → Within c.buffer c.checked_index c.read_index l
    → l.status ≡ s
    → ((c₂ : Conn)
        → IsValid c₂
        → c₂.read_index ≡ c.read_index
        → c.checked_index < c₂.checked_index
        → Defined (Parsed c₂) (again c₂))
    → Defined
        (Parsed c)
        (handle_line s again (record c { buffer = l.buffer; checked_index = l.checked_index }))
unfolding handle_line
handle_line-Parsed line_ok again c l v w e next =
    line_ok-Parsed again c _ (moved c l v w) (omega (arith, v.started, w.step e)) (w.nul e) w.size
      refl (w.step e) next
handle_line-Parsed line_bad again c l v w e next = defined (record {
  valid = moved c l v w;
  size = w.size;
  read_index = refl;
  forward = w.low;
  code = inr (inr refl);
})
handle_line-Parsed line_open again c l v w e next = defined (record {
  valid = moved c l v w;
  size = w.size;
  read_index = refl;
  forward = w.low;
  code = inl refl;
})

parse_content_loop-Parsed :
    (k : ℕ) (c : Conn)
    → IsValid c
    → c.read_index < k + c.checked_index
    → Defined (Parsed c) (parse_content_loop k c)
unfolding parse_content_loop
parse_content_loop-Parsed zero c v fuel = absurd (omega (arith, v.checked))
parse_content_loop-Parsed (suc k) c v fuel =
    Defined-bind (parse_line-Within c.buffer c.checked_index c.read_index v.checked v.bounded)
      λ l w.
        handle_line-Parsed l.status (parse_content_loop k) c l v w refl
          λ c₂ v₂ read step. parse_content_loop-Parsed k c₂ v₂ (omega arith)

-- `parse_content` on a connection whose indices are in order and inside the buffer returns, within
-- the fuel given to it, whatever bytes the buffer holds: it touches no byte outside the buffer,
-- leaves the indices in order, keeps `read_index` and the buffer's size, never moves `checked_index`
-- back, and returns one of three codes.
pub parse_content-Parsed : (c : Conn) → IsValid c → Defined (Parsed c) (parse_content c)
unfolding parse_content
parse_content-Parsed c v = parse_content_loop-Parsed (c.read_index + 1) c v (omega arith)
