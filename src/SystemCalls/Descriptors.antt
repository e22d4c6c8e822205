-- ===== src/SystemCalls/Descriptors.antt =====
-- The descriptors that a program holds, read off its calls, and rules for runs that keep to them.
use mathlib.Core.Path.{subst}
use high_performance_linux_s.Base.{
  ℕ, suc, ◌+◌, ◌<◌, ◌≡◌, refl, ap, Bool, true, false, ◌||◌, List, [], ◌∷◌, ℤ, pos, negsuc,
  if◌then◌else◌, length, arith, ==_self, get_elem?_total,
}
use high_performance_linux_s.SystemCalls.{
  Call, socket, bind, listen, accept, connect, recv, send, read, write, close, get_flags, set_flags,
  set_owner, setsockopt, getsockopt, select, epoll_create, epoll_add, epoll_mod, epoll_wait, dup,
  pipe, splice, sendfile, open_file, stat, fstat, writev, sigaction, sleep, pthread_create,
  socketpair, fork, sendmsg, recvmsg, gethostbyname, getservbyname, getuid, getegid,
  pthread_sigmask, sigwait, pause, thread_create, socketpair, fork, sendmsg, recvmsg, Reply, World,
  Out, done, aborted, waiting, fault, Prog, and_then, call, check, is_negative, is_nonnegative,
  is_not_error, ◌===◌, argument,
}

-- The descriptors that are open, and how many calls were made on one that is not.
pub record Table : Type 0 where
  pub held : List ℤ
  pub bad : ℕ

abbrev pub is_held : ℤ → List ℤ → Bool
is_held x [] = false
is_held x (y ∷ ys) = (x === y) || is_held x ys

abbrev pub remove : ℤ → List ℤ → List ℤ
remove x [] = []
remove x (y ∷ ys) = if x === y then ys else y ∷ remove x ys

abbrev pub missing : List ℤ → List ℤ → ℕ
missing [] held = 0
missing (x ∷ xs) held = (if is_held x held then 0 else 1) + missing xs held

-- The descriptors that a call works on, that it opens, and that it closes.
unfoldable pub works_on : Call → List ℤ
works_on socket = []
works_on (bind fd _) = fd ∷ []
works_on (listen fd _) = fd ∷ []
works_on (accept fd) = fd ∷ []
works_on (connect fd _) = fd ∷ []
works_on (recv fd _ _) = fd ∷ []
works_on (send fd _ _) = fd ∷ []
works_on (read fd _) = fd ∷ []
works_on (write fd _) = fd ∷ []
works_on (close fd) = fd ∷ []
works_on (get_flags fd) = fd ∷ []
works_on (set_flags fd _) = fd ∷ []
works_on (set_owner fd) = fd ∷ []
works_on (setsockopt fd _) = fd ∷ []
works_on (getsockopt fd) = fd ∷ []
works_on (select fd) = fd ∷ []
works_on (epoll_create _) = []
works_on (epoll_add epoll_fd fd _) = epoll_fd ∷ fd ∷ []
works_on (epoll_mod epoll_fd fd _) = epoll_fd ∷ fd ∷ []
works_on (epoll_wait epoll_fd) = epoll_fd ∷ []
works_on (dup fd) = fd ∷ []
works_on pipe = []
works_on (splice fd_in fd_out _) = fd_in ∷ fd_out ∷ []
works_on (sendfile out_fd in_fd _) = out_fd ∷ in_fd ∷ []
works_on (open_file _) = []
works_on (stat _) = []
works_on (fstat fd) = fd ∷ []
works_on (writev fd _) = fd ∷ []
works_on sigaction = []
works_on (sleep _) = []
works_on (pthread_create epoll_fd fd) = epoll_fd ∷ fd ∷ []
works_on (gethostbyname _) = []
works_on getservbyname = []
works_on getuid = []
works_on getegid = []
works_on pthread_sigmask = []
works_on sigwait = []
works_on pause = []
works_on thread_create = []
works_on socketpair = []
works_on fork = []
works_on (sendmsg fd fd_to_send) = fd ∷ fd_to_send ∷ []
works_on (recvmsg fd) = fd ∷ []

-- A descriptor that is returned, in front of the others.
abbrev pub opened : ℤ → List ℤ → List ℤ
opened (pos n) held = pos n ∷ held
opened (negsuc n) held = held

unfoldable pub after : Call → Reply → List ℤ → List ℤ
after socket r held = opened r.ret held
after (accept _) r held = opened r.ret held
after (epoll_create _) r held = opened r.ret held
after (dup _) r held = opened r.ret held
after (open_file _) r held = opened r.ret held
after socketpair r held = if is_not_error r.ret then r.ends.0 ∷ r.ends.1 ∷ held else held
after pipe r held = if is_not_error r.ret then r.ends.0 ∷ r.ends.1 ∷ held else held
after (close fd) r held = remove fd held
after _ r held = held

-- Descriptors 0, 1 and 2 are open from the start.
abbrev pub standard : List ℤ
standard = pos 0 ∷ pos 1 ∷ pos 2 ∷ []

abbrev pub advance : Call → Reply → Table → Table
advance c r t = record { held = after c r t.held; bad = missing (works_on c) t.held + t.bad }

unfoldable pub replay : List (Call × Reply) → Table
replay [] = record { held = standard; bad = 0 }
replay ((c, r) ∷ calls) = advance c r (replay calls)

-- The program holds exactly `fds`, and has never called on another descriptor.
pub record Holds (fds : List ℤ) (w : World) : Type 0 where
  pub held : (replay w.calls).held ≡ fds
  pub fine : (replay w.calls).bad ≡ 0

abbrev pub IsFine : World → Type 0
IsFine w = (replay w.calls).bad ≡ 0

-- The program ends, by itself, in a failed `assert` or in a call that does not return, and has called
-- on descriptors that it holds only; if by itself, `Q` holds.
pub data Ends {A : Type 0} (Q : A → World → Type 0) : Out A → Type 0 where
  ends_done : {a : A} {w : World} → Q a w → Ends Q (done a w)
  ends_aborted : {w : World} → IsFine w → Ends Q (aborted w)
  ends_waiting : {w : World} → IsFine w → Ends Q (waiting w)

module _ {A B : Type 0} {P : A → World → Type 0} {Q : B → World → Type 0} where
  pub Ends-bind :
      {m : Out A} {k : A → Prog B}
      → Ends P m
      → ((a : A) (w : World) → P a w → Ends Q (k a w))
      → Ends Q (and_then m k)
  Ends-bind (ends_done p) k = k _ _ p
  Ends-bind (ends_aborted f) k = ends_aborted f
  Ends-bind (ends_waiting f) k = ends_waiting f

-- After a call in `w₀`: the descriptors it leaves, a reply less, and the call in front of the others.
pub record Called (c : Call) (fds : List ℤ) (w₀ : World) (r : Reply) (w : World) : Type 0 where
  pub holds : Holds (after c r fds) w
  pub fewer : suc (length w.replies) ≡ length w₀.replies
  pub made : w.calls ≡ (c, r) ∷ w₀.calls

pub call-Ends :
    (c : Call) (fds : List ℤ) (w : World)
    → Holds fds w
    → missing (works_on c) fds ≡ 0
    → Ends (Called c fds w) (call c w)
unfolding call replay
call-Ends c fds w h none_missing = answer-Ends w.replies
  where
    answer-Ends :
        (rs : List Reply)
        → let w₀ : World = record { replies = rs; calls = w.calls } in
          Ends (Called c fds w₀) (call c w₀)
    answer-Ends [] = ends_waiting h.fine
    answer-Ends (r ∷ rs) = ends_done (record {
      holds = record {
        held = ap (after c r) h.held;
        fine = rw h.held (rw none_missing (omega (arith, h.fine)));
      };
      fewer = refl;
      made = refl;
    })

-- Any call, on open descriptors or not.
pub call-made :
    (c : Call) (w : World) → IsFine w → Ends (λ r w'. w'.calls ≡ (c, r) ∷ w.calls) (call c w)
unfolding call
call-made c w fine = answer-Ends w.replies
  where
    answer-Ends :
        (rs : List Reply)
        → let w₀ : World = record { replies = rs; calls = w.calls } in
          Ends (λ r w'. w'.calls ≡ (c, r) ∷ w.calls) (call c w₀)
    answer-Ends [] = ends_waiting fine
    answer-Ends (r ∷ rs) = ends_done refl

pub check-Ends :
    (b : Bool) (fds : List ℤ) (w : World)
    → Holds fds w
    → Ends (λ _ w'. (w' ≡ w) × (b ≡ true)) (check b w)
check-Ends true fds w h = ends_done (refl, refl)
check-Ends false fds w h = ends_aborted h.fine

pub ===_self : (x : ℤ) → (x === x) ≡ true
===_self (pos n) = ==_self n
===_self (negsuc n) = ==_self n

module _ {A : Type 0} {P Q : A → World → Type 0} where
  pub Ends-mono : {m : Out A} → Ends P m → ((a : A) (w : World) → P a w → Q a w) → Ends Q m
  Ends-mono (ends_done p) f = ends_done (f _ _ p)
  Ends-mono (ends_aborted i) f = ends_aborted i
  Ends-mono (ends_waiting i) f = ends_waiting i

pub argument-Ends :
    (argv : List (List ℕ)) (i : ℕ) (w : World)
    → i < length argv
    → Ends (λ _ w'. w' ≡ w) (argument argv i w)
unfolding argument
argument-Ends argv i w b =
    let (a, e) = get_elem?_total argv i b in rw (argument, e) (ends_done refl)

-- A call on one descriptor that the program holds, and that opens and closes none.
pub use-Ends :
    (c : Call) (fds : List ℤ) (w : World)
    → Holds fds w
    → missing (works_on c) fds ≡ 0
    → ((r : Reply) → after c r fds ≡ fds)
    → Ends (λ r w'. Holds fds w') (call c w)
use-Ends c fds w h m same =
    Ends-mono (call-Ends c fds w h m)
      λ r w' s. subst (λ (xs : List ℤ). Holds xs w') (same r) s.holds

-- Closing the descriptor that was opened last.
pub close-Ends :
    (fd : ℤ) (fds : List ℤ) (w : World)
    → Holds (fd ∷ fds) w
    → Ends (λ r w'. Holds fds w') (call (close fd) w)
unfolding works_on after
close-Ends fd fds w h =
    Ends-mono (call-Ends (close fd) (fd ∷ fds) w h (rw (===_self fd) refl)) λ r w' s.
      let left : remove fd (fd ∷ fds) ≡ fds = rw (===_self fd) refl in
      subst (λ (xs : List ℤ). Holds xs w') left s.holds

-- A descriptor that a call returns, where it is not negative.
pub opened_nonnegative : (x : ℤ) (fds : List ℤ) → is_negative x ≡ false → opened x fds ≡ x ∷ fds
opened_nonnegative (pos n) fds e = refl
opened_nonnegative (negsuc n) fds e = cc

pub opened_negative : (x : ℤ) (fds : List ℤ) → is_negative x ≡ true → opened x fds ≡ fds
opened_negative (pos n) fds e = cc
opened_negative (negsuc n) fds e = refl

pub nonnegative : (x : ℤ) → is_nonnegative x ≡ true → is_negative x ≡ false
nonnegative (pos n) e = refl
nonnegative (negsuc n) e = cc

-- The state at the start.
abbrev pub start : List Reply → World
start replies = record { replies = replies; calls = [] }

pub start-Holds : (replies : List Reply) → Holds standard (start replies)
unfolding replay
start-Holds replies = record { held = refl; fine = refl }

-- As `Ends`, where the run may also be undefined behaviour, if `F` holds then.
pub data EndsOr {A : Type 0} (F : World → Type 0) (Q : A → World → Type 0) : Out A → Type 0 where
  or_done : {a : A} {w : World} → Q a w → EndsOr F Q (done a w)
  or_aborted : {w : World} → IsFine w → EndsOr F Q (aborted w)
  or_waiting : {w : World} → IsFine w → EndsOr F Q (waiting w)
  or_fault : {w : World} → F w → EndsOr F Q (fault w)

module _ {A B : Type 0} {F : World → Type 0} {P : A → World → Type 0} {Q : B → World → Type 0} where
  pub EndsOr-bind :
      {m : Out A} {k : A → Prog B}
      → Ends P m
      → ((a : A) (w : World) → P a w → EndsOr F Q (k a w))
      → EndsOr F Q (and_then m k)
  EndsOr-bind (ends_done p) k = k _ _ p
  EndsOr-bind (ends_aborted f) k = or_aborted f
  EndsOr-bind (ends_waiting f) k = or_waiting f

  pub EndsOr-then :
      {m : Out A} {k : A → Prog B}
      → EndsOr F P m
      → ((a : A) (w : World) → P a w → EndsOr F Q (k a w))
      → EndsOr F Q (and_then m k)
  EndsOr-then (or_done p) k = k _ _ p
  EndsOr-then (or_aborted f) k = or_aborted f
  EndsOr-then (or_waiting f) k = or_waiting f
  EndsOr-then (or_fault f) k = or_fault f

pub Ends-EndsOr :
    {A : Type 0} {F : World → Type 0} {Q : A → World → Type 0} {m : Out A} → Ends Q m → EndsOr F Q m
Ends-EndsOr (ends_done p) = or_done p
Ends-EndsOr (ends_aborted f) = or_aborted f
Ends-EndsOr (ends_waiting f) = or_waiting f
