-- ===== src/HttpParse/Server.antt =====
-- `main` of src/http_parse.cc from the accepted connection on: the receive loop and the replies.
-- A socket call is an element of a list of results, in the order in which the loop asks for them.
use native.Mathlib.Numerals.{add-one}
use high_performance_linux_s.Base.{
  ℕ, ◌+◌, ◌-◌, ◌≤◌, ◌≡◌, refl, ◌∙◌, sym, ap, ◌≢◌, ◌⊎◌, inl, inr, Option, none, some, List, [], ◌∷◌,
  arith, length, set, take, replicate, length-set,
}
use high_performance_linux_s.Base.Partial.{
  ◌>>=◌, Defined, defined, Defined-bind, Defined-mono, Defined-value,
}
use high_performance_linux_s.HttpParse.{
  HttpCode, no_request, get_request, bad_request, forbidden_request, internal_error,
  closed_connection, Conn, buffer_size, check_state_request_line, parse_line, parse_content_loop,
  parse_content, write,
}
use high_performance_linux_s.HttpParse.Writes.{write-ok}
use high_performance_linux_s.HttpParse.Content.{parse_content-Parsed}
use high_performance_linux_s.Base.{Bool-cases, leb, length-replicate}

-- The two texts of `szret`.
abbrev pub correct_text : List ℕ
correct_text =
    b'I' ∷ 32 ∷ b'g' ∷ b'e' ∷ b't' ∷ 32 ∷ b'a' ∷ 32 ∷ b'c' ∷ b'o' ∷ b'r' ∷ b'r' ∷ b'e' ∷ b'c' ∷ b't'
    ∷ 32 ∷ b'r' ∷ b'e' ∷ b's' ∷ b'u' ∷ b'l' ∷ b't' ∷ 10 ∷ []

abbrev pub wrong_text : List ℕ
wrong_text =
    b'S' ∷ b'o' ∷ b'm' ∷ b'e' ∷ b't' ∷ b'h' ∷ b'i' ∷ b'n' ∷ b'g' ∷ 32 ∷ b'w' ∷ b'r' ∷ b'o' ∷ b'n'
    ∷ b'g' ∷ 10 ∷ []

-- The bytes that `main` sends for a code; `none` goes round the loop.
unfoldable pub reply : HttpCode → Option (List ℕ)
reply no_request = none
reply get_request = some (take (length correct_text) correct_text)
reply bad_request = some (take (length wrong_text) correct_text)
reply forbidden_request = some (take (length wrong_text) correct_text)
reply internal_error = some (take (length wrong_text) correct_text)
reply closed_connection = some (take (length wrong_text) correct_text)

-- What `recv` leaves in the buffer; a byte that it would store behind it is undefined behaviour.
unfoldable pub write_at : List ℕ → ℕ → List ℕ → Option (List ℕ)
write_at buf i [] = some buf
write_at buf i (x ∷ xs) = do buf' ← write buf i x; write_at buf' (i + 1) xs

pub data Received : Type 0 where
  -- -1
  failed : Received
  -- the bytes delivered; none when the peer has closed the connection
  bytes : List ℕ → Received

-- The end of the loop: what is sent, if anything, and `waiting` where the results run out.
pub data Outcome : Type 0 where
  reading_failed : Outcome
  sent : List ℕ → Outcome
  waiting : Conn → Outcome

-- One round, for received bytes: the new state, and the reply that ends the loop.
pub receive : Conn → List ℕ → Option (Conn × Option (List ℕ))
unfolding reply write_at
receive c xs = do
  stored ← write_at c.buffer c.read_index xs
  (c', code) ← parse_content (record c { buffer = stored; read_index = length xs })
  some (c', reply code)

unfoldable pub serve : List Received → Conn → Option Outcome
unfolding receive
serve [] c = some (waiting c)
serve (failed ∷ rs) c = some reading_failed
serve (bytes xs ∷ rs) c = do
  (c', answer) ← receive c xs
  elim answer [ some text ↦ some (sent text) | none ↦ serve rs c' ]

unfoldable pub initial_buffer : List ℕ
initial_buffer = replicate buffer_size 0

-- The state behind `accept`.
unfoldable pub accepted_conn : Conn
accepted_conn = record {
  buffer = initial_buffer;
  checked_index = 0;
  check_state = check_state_request_line;
  read_index = 0;
  start_line = 0;
}

-- A piece that fits is stored, and keeps the buffer's size.
write_at-length :
    (buf : List ℕ) (i : ℕ) (xs : List ℕ)
    → i + length xs ≤ length buf
    → Defined (λ b. length b ≡ length buf) (write_at buf i xs)
unfolding write_at
write_at-length buf i [] room = defined refl
write_at-length buf i (x ∷ xs) room =
    let size = length-set buf i x in
    rw (write-ok buf i x (omega arith))
      (Defined-mono (write_at-length (set buf i x) (i + 1) xs (omega arith)) λ b e. e ∙ size)

first_byte : Option (List ℕ) → ℕ
first_byte (some (x ∷ xs)) = x
first_byte other = 0

-- The reply that belongs to a code: none, the success text, or its first 16 bytes.
pub data Answers (code : HttpCode) (answer : Option (List ℕ)) : Type 0 where
  goes_on : code ≡ no_request → answer ≡ none → Answers code answer
  accepts : code ≡ get_request → answer ≡ some correct_text → Answers code answer
  refuses :
      code ≡ bad_request
      → answer ≡ some (take 16 correct_text)
      → answer ≢ some wrong_text
      → Answers code answer

reply-Answers :
    (code : HttpCode)
    → (code ≡ no_request) ⊎ (code ≡ get_request) ⊎ (code ≡ bad_request)
    → Answers code (reply code)
unfolding reply first_byte
reply-Answers code (inl e) = goes_on e (ap reply e)
reply-Answers code (inr (inl e)) = accepts e (ap reply e)
reply-Answers code (inr (inr e)) =
    refuses e (ap reply e) λ q. absurd (omega (arith, ap first_byte (sym (ap reply e) ∙ q)))

-- What a round leaves: the bytes are stored, the request is parsed, and its code answered.
pub record IsRound (c : Conn) (xs : List ℕ) (r : Conn × Option (List ℕ)) : Type 0 where
  pub stored : List ℕ
  pub stored_is : write_at c.buffer c.read_index xs ≡ some stored
  pub code : HttpCode
  pub parsed :
      parse_content (record c { buffer = stored; read_index = length xs }) ≡ some (r.0, code)
  pub answers : Answers code r.1

-- A round that brings at least as many bytes as have been scanned, and no more than fit behind
-- `read_index`, on a connection whose line starts no later than the scan stands, is defined: the bytes are stored and
-- parsed. It goes on where more bytes are needed, replies with the success text to an accepted request,
-- and to a refused one with the first 16 bytes of the success text, which is not the error text.
pub receive-replies :
    (c : Conn) (xs : List ℕ)
    → c.start_line ≤ c.checked_index
    → c.checked_index ≤ length xs
    → c.read_index + length xs ≤ length c.buffer
    → Defined (IsRound c xs) (receive c xs)
unfolding receive
receive-replies c xs started checked room =
    let (b, stored_is, size) = Defined-value (write_at-length c.buffer c.read_index xs room) in
    let stored : Conn = record c { buffer = b; read_index = length xs } in
    let ((c', code), parsed, p) = Defined-value (
      parse_content-Parsed stored
        (record { started = started; checked = checked; bounded = omega arith })) in
    rw (stored_is, parsed)
      (defined (record {
        stored = b;
        stored_is = stored_is;
        code = code;
        parsed = parsed;
        answers = reply-Answers code p.code;
      }))

-- A second piece of a request that is no longer than what has been scanned is never looked at: where it
-- fits, it is stored, and the loop goes on without a reply, and neither the scan nor the state of the
-- parser moves.
pub receive-ignores :
    (c : Conn) (xs : List ℕ)
    → length xs ≤ c.checked_index
    → receive c xs ≡ (do
      stored ← write_at c.buffer c.read_index xs
      some (record c { buffer = stored; read_index = length xs }, none))
unfolding receive parse_content parse_line
receive-ignores c xs le = after_write (write_at c.buffer c.read_index xs)
  where
    after_write :
        (m : Option (List ℕ))
        → ◌>>=◌ {B = Conn × Option (List ℕ)} m (λ stored.
          ◌>>=◌ {B = Conn × Option (List ℕ)}
            (parse_content (record c { buffer = stored; read_index = length xs }))
            (λ (c', code). some (c', reply code)))
          ≡ ◌>>=◌ {B = Conn × Option (List ℕ)} m
              (λ stored. some (record c { buffer = stored; read_index = length xs }, none))
    after_write none = refl
    after_write (some stored) =
        let nothing : length xs - c.checked_index ≡ 0 = omega arith in
        rw (add-one, parse_content_loop) (rw nothing refl)

-- Between two rounds the whole buffer is there, and the line under the scan starts inside it.
pub record IsReady (c : Conn) : Type 0 where
  pub started : c.start_line ≤ c.checked_index
  pub checked : c.checked_index ≤ buffer_size
  pub read : c.read_index ≤ buffer_size
  pub whole : length c.buffer ≡ buffer_size

pub receive-IsReady :
    (c : Conn) (xs : List ℕ)
    → IsReady c
    → c.read_index + length xs ≤ buffer_size
    → Defined (λ r. IsReady r.0) (receive c xs)
unfolding receive
receive-IsReady c xs i room =
    let whole = i.whole in
    let (b, stored_is, size) =
      Defined-value (write_at-length c.buffer c.read_index xs (omega arith)) in
    elim (Bool-cases (leb c.checked_index (length xs))) [
      | inl e ↦ rw stored_is (
          Defined-bind
            (parse_content-Parsed _
              (record { started = i.started; checked = ground arith; bounded = omega arith }))
            λ r p.
              let start = p.valid.started in
              let check = p.valid.checked in
              let same = p.read_index in
              let size' = p.size in
              defined (record {
                started = start;
                checked = omega arith;
                read = omega arith;
                whole = omega arith;
              }))
      | inr e ↦
          rw (receive-ignores c xs (ground arith), stored_is)
            (defined (record {
              started = i.started;
              checked = i.checked;
              read = omega arith;
              whole = omega arith;
            }))
    ]

pub accepted_conn-IsReady : IsReady accepted_conn
unfolding accepted_conn initial_buffer
accepted_conn-IsReady = record {
  started = omega arith;
  checked = omega arith;
  read = omega arith;
  whole = length-replicate {A = ℕ} buffer_size 0;
}
