-- ===== src/Servers/Writev/Answer.antt =====
-- What src/writev.cc answers.
use mathlib.Core.Path.{subst}
use high_performance_linux_s.Base.{
  ℕ, ◌≡◌, refl, ◌∙◌, sym, ap, ◌⊎◌, inl, inr, Bool, true, false, List, [], ◌∷◌, ℤ, if◌then◌else◌,
  Bool-cases, Option, none, some,
}
use high_performance_linux_s.SystemCalls.{
  Call, read, close, open_file, stat, writev, Reply, World, Out, pure, and_then, call, is_negative,
}
use high_performance_linux_s.HttpParse.CString.{cstr}
use high_performance_linux_s.SystemCalls.Leads.{
  Leads, leads_done, leads_fault, Leads-bind, call-Leads,
}
use high_performance_linux_s.Servers.Header.Text.{IsHeader, header_lem}
use high_performance_linux_s.Servers.Writev.{
  file_bytes, open_and_read, read_file, write_answer, answer_with, send_file_to,
}

-- The whole answer: the calls of the branch, and what was written.
pub record IsAnswered (path : List ℕ) (conn_fd : ℤ) (w₀ w : World) : Type 0 where
  file_stat : Reply
  fd : Reply
  got : Reply
  written : Reply
  closed : Reply
  text : List ℕ
  head : IsHeader file_stat.value text
  answered :
      w.calls
      ≡ (close conn_fd, closed)
        ∷ (writev conn_fd (text ∷ file_bytes file_stat.value got.bytes ∷ []), written)
        ∷ (read fd.ret file_stat.value, got)
        ∷ (open_file path, fd)
        ∷ (stat path, file_stat)
        ∷ w₀.calls

-- Why a file is not sent.
pub data IsRefused (path : List ℕ) (w₀ : World) : World → Type 0 where
  no_file :
      {w : World} (r : Reply)
      → w.calls ≡ (stat path, r) ∷ w₀.calls
      → (is_negative r.ret ≡ true) ⊎ (r.directory ≡ true) ⊎ (r.readable ≡ false)
      → IsRefused path w₀ w
  no_bytes :
      {w : World} (fd file_stat r : Reply)
      → w.calls
        ≡ (read fd.ret file_stat.value, r)
          ∷ (open_file path, fd)
          ∷ (stat path, file_stat)
          ∷ w₀.calls
      → is_negative r.ret ≡ true
      → IsRefused path w₀ w

behind : (c : Call × Reply) {cs ds : List (Call × Reply)} → cs ≡ ds → c ∷ cs ≡ c ∷ ds
behind c e = ap (λ (t : List (Call × Reply)). c ∷ t) e

-- What `read_file` has done: read the file, or found no reason to send it.
record HasRead (path : List ℕ) (file_stat : Reply) (w₀ : World) (body : List ℕ) (w : World)
    : Type 0 where
  fd : Reply
  got : Reply
  made :
      w.calls
      ≡ (read fd.ret file_stat.value, got)
        ∷ (open_file path, fd)
        ∷ (stat path, file_stat)
        ∷ w₀.calls
  bytes : body ≡ file_bytes file_stat.value got.bytes

data FileRead (path : List ℕ) (file_stat : Reply) (w₀ : World) (w : World)
    : Option (List ℕ) → Type 0 where
  unread : IsRefused path w₀ w → FileRead path file_stat w₀ w none
  was_read :
      {body : List ℕ} → HasRead path file_stat w₀ body w → FileRead path file_stat w₀ w (some body)

module _ (path : List ℕ) (w₀ : World) (F : World → Type 0) (file_stat : Reply) where
  abbrev LeadsToFile : Out (Option (List ℕ)) → Type 0
  LeadsToFile = Leads F (λ b w. FileRead path file_stat w₀ w b)

  module _ (w : World) (made : w.calls ≡ (stat path, file_stat) ∷ w₀.calls) where
    open_and_read-Leads : LeadsToFile (open_and_read path file_stat w)
    unfolding open_and_read
    open_and_read-Leads = Leads-bind (call-Leads (open_file path) w) λ fd w₁ opening.
        Leads-bind (call-Leads (read fd.ret file_stat.value) w₁) λ got w₂ reading.
          let all =
            reading
            ∙ behind (read fd.ret file_stat.value, got)
                (opening ∙ behind (open_file path, fd) made) in
          elim (Bool-cases (is_negative got.ret)) [
            | inl e ↦ rw e (leads_done (unread (no_bytes fd file_stat got all e)))
            | inr e ↦
                rw e
                  (leads_done (was_read (record { fd = fd; got = got; made = all; bytes = refl })))
          ]

    branch-Leads :
        (negative directory readable : Bool)
        → is_negative file_stat.ret ≡ negative
        → file_stat.directory ≡ directory
        → file_stat.readable ≡ readable
        → LeadsToFile (
            (if negative
                then pure none
                else if directory
                then pure none
                else if readable
                then open_and_read path file_stat
                else pure none)
              w)
    branch-Leads true d r n_is d_is r_is = leads_done (unread (no_file file_stat made (inl n_is)))
    branch-Leads false true r n_is d_is r_is =
        leads_done (unread (no_file file_stat made (inr (inl d_is))))
    branch-Leads false false true n_is d_is r_is = open_and_read-Leads
    branch-Leads false false false n_is d_is r_is =
        leads_done (unread (no_file file_stat made (inr (inr r_is))))

    read_file-Leads : LeadsToFile (read_file path file_stat w)
    unfolding read_file
    read_file-Leads = branch-Leads _ _ _ refl refl refl

write_answer-text :
    (conn_fd : ℤ) (buf text body : List ℕ) (w : World)
    → cstr buf 0 ≡ some text
    → write_answer conn_fd (some buf) body w
      ≡ and_then (call (writev conn_fd (text ∷ body ∷ [])) w) λ _. pure tt
unfolding write_answer
write_answer-text conn_fd buf text body w e = rw (write_answer, e) refl

answer_with-text :
    (conn_fd : ℤ) (file_stat : Reply) (body : List ℕ) (w : World)
    → (text : List ℕ) × IsHeader file_stat.value text
      × (answer_with conn_fd file_stat (some body) w
          ≡ and_then (call (writev conn_fd (text ∷ body ∷ [])) w) λ _. pure tt)
unfolding answer_with
answer_with-text conn_fd file_stat body w =
    let (buf, text, is_buf, is_text, head) = header_lem file_stat.value in
    (
      text,
      head,
      ap (λ h. write_answer conn_fd h body w) is_buf
          ∙ write_answer-text conn_fd buf text body w is_text,
    )

record HasWritten (size : ℕ) (conn_fd : ℤ) (body : List ℕ) (w₀ w : World) : Type 0 where
  text : List ℕ
  head : IsHeader size text
  reply : Reply
  made : w.calls ≡ (writev conn_fd (text ∷ body ∷ []), reply) ∷ w₀.calls

answer_with-Leads :
    {F : World → Type 0} (conn_fd : ℤ) (file_stat : Reply) (body : List ℕ) (w : World)
    → Leads F
        (λ _ w'. HasWritten file_stat.value conn_fd body w w')
        (answer_with conn_fd file_stat (some body) w)
answer_with-Leads {F} conn_fd file_stat body w =
    let (text, head, same) = answer_with-text conn_fd file_stat body w in
    subst (λ (m : Out (Unit {0})). Leads F (λ _ w'. HasWritten file_stat.value conn_fd body w w') m)
      (sym same)
      (Leads-bind (call-Leads (writev conn_fd (text ∷ body ∷ [])) w)
        λ r w₁ e. leads_done (record { text = text; head = head; reply = r; made = e }))

module _ (path : List ℕ) (conn_fd : ℤ) (w₀ : World) (file_stat : Reply) where
  answer-Leads :
      (b : Option (List ℕ)) (w : World)
      → FileRead path file_stat w₀ w b
      → Leads
          (IsRefused path w₀)
          (λ _ w'. IsAnswered path conn_fd w₀ w')
          (and_then
            (answer_with conn_fd file_stat b w)
            λ _ w₁. and_then (call (close conn_fd) w₁) λ _. pure tt)
  unfolding answer_with
  answer-Leads none w (unread why) = leads_fault why
  answer-Leads (some body) w (was_read h) =
      let sent_body = h.bytes in
      Leads-bind (answer_with-Leads conn_fd file_stat body w) λ u w₁ sent.
        Leads-bind (call-Leads (close conn_fd) w₁) λ r w₂ closing. leads_done (record {
          file_stat = file_stat;
          fd = h.fd;
          got = h.got;
          written = sent.reply;
          closed = r;
          text = sent.text;
          head = sent.head;
          answered =
              closing
              ∙ behind (close conn_fd, r)
                  (sent.made
                    ∙ ap
                        (λ (xs : List ℕ).
                          (writev conn_fd (sent.text ∷ xs ∷ []), sent.reply) ∷ w.calls)
                        h.bytes
                    ∙ behind _ h.made);
        })

-- The branch for a connection ends with the whole answer written, and the connection closed: first a
-- header that says the number of bytes that follow, where that is less than 2 ^ 31, then the bytes
-- that were read of the file, as many as it has; or in a call that does not return. Otherwise it is
-- undefined behaviour, and then the file was refused by its status or could not be read.
pub send_file_to-Leads :
    (path : List ℕ) (conn_fd : ℤ) (w₀ : World)
    → Leads (IsRefused path w₀) (λ _ w. IsAnswered path conn_fd w₀ w) (send_file_to path conn_fd w₀)
unfolding send_file_to
send_file_to-Leads path conn_fd w₀ = Leads-bind (call-Leads (stat path) w₀) λ file_stat w₁ made.
    Leads-bind (read_file-Leads path w₀ (IsRefused path w₀) file_stat w₁ made)
      λ b w₂ file. answer-Leads path conn_fd w₀ file_stat b w₂ file
